-- ===== src/OrderedMap/Order.antt =====
-- The order of byte strings: that of `std::string::compare`.
use Prim.Native.Nat.{compare, Ordering}
use getbiblesword.Prelude.{Bool, true, false, ◌≡◌, refl, arith, [], ◌∷◌, Bytes}

pub data Comparison : Type 0 where
  less same greater : Comparison

abbrev pub is_less : Comparison → Bool
is_less less = true
is_less same = false
is_less greater = false

unfoldable pub order : Bytes → Bytes → Comparison
order [] [] = same
order [] (y ∷ ys) = less
order (x ∷ xs) [] = greater
order (x ∷ xs) (y ∷ ys) =
    let later = order xs ys in
    elim (compare x y) [ Ordering.lt ↦ less | Ordering.eq ↦ later | Ordering.gt ↦ greater ]

pub order_self : (xs : Bytes) → order xs xs ≡ same
unfolding order
order_self [] = refl
order_self (x ∷ xs) = ground (arith, order_self xs)

pub eq_of_same : (xs ys : Bytes) → order xs ys ≡ same → xs ≡ ys
unfolding order
eq_of_same [] [] h = refl
eq_of_same [] (y ∷ ys) h = cc
eq_of_same (x ∷ xs) [] h = cc
eq_of_same (x ∷ xs) (y ∷ ys) h = ground (arith, eq_of_same xs ys)

pub less_of_greater : (xs ys : Bytes) → order xs ys ≡ greater → order ys xs ≡ less
unfolding order
less_of_greater [] [] h = cc
less_of_greater [] (y ∷ ys) h = cc
less_of_greater (x ∷ xs) [] h = refl
less_of_greater (x ∷ xs) (y ∷ ys) h = ground (arith, less_of_greater xs ys)

pub greater_of_less : (xs ys : Bytes) → order xs ys ≡ less → order ys xs ≡ greater
unfolding order
greater_of_less [] [] h = cc
greater_of_less [] (y ∷ ys) h = refl
greater_of_less (x ∷ xs) [] h = cc
greater_of_less (x ∷ xs) (y ∷ ys) h = ground (arith, greater_of_less xs ys)

pub less_trans : (xs ys zs : Bytes) → order xs ys ≡ less → order ys zs ≡ less → order xs zs ≡ less
unfolding order
less_trans [] [] zs h k = cc
less_trans [] (y ∷ ys) [] h k = cc
less_trans [] (y ∷ ys) (z ∷ zs) h k = refl
less_trans (x ∷ xs) [] zs h k = cc
less_trans (x ∷ xs) (y ∷ ys) [] h k = cc
less_trans (x ∷ xs) (y ∷ ys) (z ∷ zs) h k = ground (arith, less_trans xs ys zs)
