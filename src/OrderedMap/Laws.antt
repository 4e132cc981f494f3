-- ===== src/OrderedMap/Laws.antt =====
-- Lookups after a write, and the order of the elements.
use getbiblesword.Prelude.{◌≡◌, refl, arith, ◌⊎◌, inl, inr, Option, some, [], ◌∷◌, Bytes}
use getbiblesword.OrderedMap.Order.{
  Comparison, less, same, greater, order, eq_of_same, less_of_greater, less_trans,
}
use getbiblesword.OrderedMap.{OrderedMap, lookup, upsert}

-- What a lookup of `j` finds after `m[k] = f(old)`, by how `j` compares with `k`.
abbrev pub after : {V : Type 0} → Comparison → V → Option V → Option V
after same new old = some new
after less new old = old
after greater new old = old

pub Comparison-cases : (o : Comparison) → (o ≡ less) ⊎ ((o ≡ same) ⊎ (o ≡ greater))
Comparison-cases less = inl refl
Comparison-cases same = inr (inl refl)
Comparison-cases greater = inr (inr refl)

module _ {V : Type 0} (k j : Bytes) (f : Option V → V) where
  -- The new element goes before `i`.
  lookup-upsert_less :
      (i : Bytes) (v : V) (m : OrderedMap V)
      → order k i ≡ less
      → lookup j (upsert k f ((i, v) ∷ m))
        ≡ after (order j k) (f (lookup k ((i, v) ∷ m))) (lookup j ((i, v) ∷ m))
  unfolding lookup upsert
  lookup-upsert_less i v m h = ground (arith, less_trans j k i, eq_of_same j k)

  -- The element is there.
  lookup-upsert_same :
      (i : Bytes) (v : V) (m : OrderedMap V)
      → order k i ≡ same
      → lookup j (upsert k f ((i, v) ∷ m))
        ≡ after (order j k) (f (lookup k ((i, v) ∷ m))) (lookup j ((i, v) ∷ m))
  unfolding lookup upsert
  lookup-upsert_same i v m h = ground (arith, eq_of_same k i)

  -- The write is further down.
  lookup-upsert_greater :
      (i : Bytes) (v : V) (m : OrderedMap V)
      → order k i ≡ greater
      → lookup j (upsert k f m) ≡ after (order j k) (f (lookup k m)) (lookup j m)
      → lookup j (upsert k f ((i, v) ∷ m))
        ≡ after (order j k) (f (lookup k ((i, v) ∷ m))) (lookup j ((i, v) ∷ m))
  unfolding lookup upsert
  lookup-upsert_greater i v m h later =
      ground (arith, less_of_greater k i, less_trans j i k, eq_of_same j i)

  -- A write is seen under its key and nowhere else.
  pub lookup-upsert :
      (m : OrderedMap V) → lookup j (upsert k f m) ≡ after (order j k) (f (lookup k m)) (lookup j m)
  lookup-upsert [] = unfold lookup upsert in ground arith
  lookup-upsert ((i, v) ∷ m) = elim (Comparison-cases (order k i)) [
    | inl h ↦ lookup-upsert_less i v m h
    | inr (inl h) ↦ lookup-upsert_same i v m h
    | inr (inr h) ↦ lookup-upsert_greater i v m h (lookup-upsert m)
  ]

-- The keys ascend, each key once.
abbrev Above : {V : Type 0} → Bytes → OrderedMap V → Type 0
Above k [] = Unit
Above k ((j, v) ∷ m) = order k j ≡ less

abbrev pub IsAscending : {V : Type 0} → OrderedMap V → Type 0
IsAscending [] = Unit
IsAscending ((k, v) ∷ m) = Above k m × IsAscending m

module _ {V : Type 0} (k : Bytes) (f : Option V → V) where
  Above-upsert :
      (i : Bytes) (m : OrderedMap V) → order i k ≡ less → Above i m → Above i (upsert k f m)
  unfolding upsert
  Above-upsert i [] h a = h
  Above-upsert i ((j, v) ∷ m) h a = ground arith

  pub upsert-IsAscending : (m : OrderedMap V) → IsAscending m → IsAscending (upsert k f m)
  unfolding upsert
  upsert-IsAscending [] h = (tt, tt)
  upsert-IsAscending ((j, v) ∷ m) h =
      ground (arith, less_of_greater k j, eq_of_same k j, Above-upsert j m, upsert-IsAscending m)
