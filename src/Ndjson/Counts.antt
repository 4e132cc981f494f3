-- ===== src/Ndjson/Counts.antt =====
-- The counts of the footer.
use getbiblesword.Prelude.{
  ℕ, ◌+◌, ◌%◌, ◌^◌, ◌<◌, ◌≡◌, refl, sym, ap, ◌∙◌, arith, inl, inr, Option, none, some, List, [],
  ◌∷◌, Bytes,
}
use getbiblesword.OrderedMap.{OrderedMap, lookup, upsert, or_else}
use getbiblesword.OrderedMap.Laws.{lookup-upsert, Comparison-cases}
use getbiblesword.OrderedMap.Order.{Comparison, less, same, greater, order, eq_of_same}
use getbiblesword.Ndjson.{increment}
use getbiblesword.Ndjson.Records.{Record, counts_from}

abbrev count : Option ℕ → ℕ
count = or_else 0

abbrev one_if_same : Comparison → ℕ
one_if_same less = 0
one_if_same same = 1
one_if_same greater = 0

-- How many of the records are of this type.
abbrev pub occurrences : Bytes → List Record → ℕ
occurrences type [] = 0
occurrences type (r ∷ rs) = one_if_same (order type r.type) + occurrences type rs

count-increment : (old : Option ℕ) → count (some (increment old)) ≡ (count old + 1) % 2 ^ 64
count-increment none = refl
count-increment (some n) = refl

count-upsert :
    (m : OrderedMap ℕ) (type name : Bytes)
    → count (lookup type m) < 2 ^ 64
    → count (lookup type (upsert name increment m))
      ≡ (count (lookup type m) + one_if_same (order type name)) % 2 ^ 64
count-upsert m type name h =
    rw (lookup-upsert name type increment m) (elim (Comparison-cases (order type name)) [
      | inl e ↦ rw e (omega arith)
      | inr (inl e) ↦ rw e (
          count-increment (lookup name m)
          ∙ ap (λ (t : Bytes). (count (lookup t m) + 1) % 2 ^ 64) (sym (eq_of_same type name e)))
      | inr (inr e) ↦ rw e (omega arith)
    ])

lookup-counts_from :
    (m : OrderedMap ℕ) (rs : List Record) (type : Bytes)
    → count (lookup type m) < 2 ^ 64
    → count (lookup type (counts_from m rs))
      ≡ (count (lookup type m) + occurrences type rs) % 2 ^ 64
lookup-counts_from m [] type h = omega arith
lookup-counts_from m (r ∷ rs) type h =
    let first = count-upsert m type r.type h in
    lookup-counts_from (upsert r.type increment m) rs type (omega arith) ∙ omega arith

-- The footer's count of each type of record is the number of such records, on 64 bits.
pub lookup-counts :
    (rs : List Record) (type : Bytes)
    → or_else 0 (lookup type (counts_from [] rs)) ≡ occurrences type rs % 2 ^ 64
unfolding lookup
lookup-counts rs type = lookup-counts_from [] rs type (omega arith) ∙ omega arith
