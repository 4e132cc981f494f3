-- ===== src/OrderedMap.antt =====
-- `std::map` with `std::string` keys, as far as the sources use it: its elements in the order of
-- `operator<` on the keys, which compares bytes. `JsonFields` and the record counts are such maps.
pub mod Order
pub mod Laws
use Order.{less, same, greater, order}
use getbiblesword.Prelude.{ℕ, Bool, true, false, Option, none, some, List, [], ◌∷◌, Bytes}

abbrev pub OrderedMap : Type 0 → Type 0
OrderedMap V = List (Bytes × V)

module _ {V : Type 0} where
  -- `find`, by the order of the keys
  unfoldable pub lookup : Bytes → OrderedMap V → Option V
  lookup k [] = none
  lookup k ((j, v) ∷ m) =
      let later = lookup k m in elim (order k j) [ less ↦ none | same ↦ some v | greater ↦ later ]

  -- `m[k] = f(old)`, where the old value may be missing
  unfoldable pub upsert : Bytes → (Option V → V) → OrderedMap V → OrderedMap V
  upsert k f [] = (k, f none) ∷ []
  upsert k f ((j, v) ∷ m) =
      let later = upsert k f m in
      elim (order k j) [
        | less ↦ (k, f none) ∷ (j, v) ∷ m
        | same ↦ (j, f (some v)) ∷ m
        | greater ↦ (j, v) ∷ later
      ]

  abbrev pub or_else : V → Option V → V
  or_else v none = v
  or_else v (some w) = w

  -- `m.emplace(k, v)` leaves an element with the key as it is.
  abbrev pub emplace : Bytes → V → OrderedMap V → OrderedMap V
  emplace k v = upsert k (or_else v)

  abbrev pub is_some : Option V → Bool
  is_some none = false
  is_some (some v) = true

  abbrev pub contains : Bytes → OrderedMap V → Bool
  contains k m = is_some (lookup k m)

  -- The braces of an initializer list.
  unfoldable pub from_list : List (Bytes × V) → OrderedMap V
  from_list [] = []
  from_list ((k, v) ∷ m) = emplace k v (from_list m)
