-- ===== src/Annotation/Lossless.antt =====
-- The segments of a text are the text cut in pieces.
use getbiblesword.Prelude.{
  ℕ, zero, suc, ◌+◌, ◌-◌, ◌≤◌, ◌<◌, ◌≡◌, refl, sym, ap, subst, ◌∙◌, arith, ◌⊎◌, inl, inr, true,
  false, List, [], ◌∷◌, ◌++◌, Bytes, All, length, take, drop, concat, length-drop, take-append-drop,
  drop-drop, drop-all, ◌==◌, ltb, ◌&&◌, eq_of_==, Bool-cases,
}
use getbiblesword.Annotation.{
  AnnotationSegmentKind, text, markup, entity, AnnotationSegment, segment_at, cut, segments_from,
  segment_annotations, text_scan, markup_end, entity_end, substr,
}
use getbiblesword.Annotation.Scan.{segment_at_bounds, text_scan-OpensNothing, OpensNothing}

abbrev pub raws : List AnnotationSegment → List Bytes
raws [] = []
raws (s ∷ ss) = s.raw ∷ raws ss

-- What a segment's bytes look like, by its kind.
abbrev pub HasShape : AnnotationSegmentKind → Bytes → Type 0
HasShape _ [] = ⊥
HasShape text (first ∷ rest) = All OpensNothing rest
HasShape markup (first ∷ rest) = first ≡ b'<'
HasShape entity (first ∷ rest) = first ≡ b'&'

pub record IsSegment (s : AnnotationSegment) : Type 0 where
  pub shape : HasShape s.kind s.raw

length-first :
    (raw : Bytes) (index first : ℕ) (rest : Bytes)
    → drop index raw ≡ first ∷ rest
    → index < length raw
length-first raw index first rest e = omega (arith, length-drop index raw, ap length e)

-- A round of the loop.
segments_from-end :
    (fuel : ℕ) (raw : Bytes) (index : ℕ)
    → drop index raw ≡ []
    → segments_from (suc fuel) raw index ≡ []
unfolding segments_from
segments_from-end fuel raw index e = rw (e, segments_from)

segments_from-round :
    (fuel : ℕ) (raw : Bytes) (index first : ℕ) (rest : Bytes)
    → drop index raw ≡ first ∷ rest
    → segments_from (suc fuel) raw index
      ≡ cut raw index (segment_at raw index first)
        ∷ segments_from fuel raw (segment_at raw index first).1
unfolding segments_from
segments_from-round fuel raw index first rest e = rw (e, segments_from)

Bytes-cases : (xs : Bytes) → (xs ≡ []) ⊎ ((x : ℕ) × (ys : Bytes) × (xs ≡ x ∷ ys))
Bytes-cases [] = inl refl
Bytes-cases (x ∷ xs) = inr (x, xs, refl)

segments_from-lossless :
    (fuel : ℕ) (raw : Bytes) (index : ℕ)
    → length raw ≤ index + fuel
    → concat (raws (segments_from fuel raw index)) ≡ drop index raw
unfolding cut
segments_from-lossless zero raw index h =
    unfold segments_from in sym (drop-all index raw (omega arith))
segments_from-lossless (suc fuel) raw index h = elim (Bytes-cases (drop index raw)) [
  | inl empty ↦ rw (segments_from-end fuel raw index empty) (sym empty)
  | inr (first, rest, e) ↦
      let end = (segment_at raw index first).1 in
      let bounds = segment_at_bounds raw index first (length-first raw index first rest e) in
      rw (segments_from-round fuel raw index first rest e) (
        ap (λ (t : Bytes). substr raw index (end - index) ++ t)
          (segments_from-lossless fuel raw end (omega arith)
            ∙ sym (drop-drop (end - index) index end raw (omega arith)))
        ∙ take-append-drop (end - index) (drop index raw))
]

-- No byte of the markup is lost, moved or changed: the segments put together are the input.
pub segment_annotations-lossless : (raw : Bytes) → concat (raws (segment_annotations raw)) ≡ raw
unfolding segment_annotations
segment_annotations-lossless raw = segments_from-lossless (length raw) raw 0 (omega arith)

take-suc : (n : ℕ) (k : ℕ) (x : ℕ) (xs : Bytes) → n ≡ suc k → take n (x ∷ xs) ≡ x ∷ take k xs
take-suc n k x xs e = rw e

module _ (raw : Bytes) (index first : ℕ) (rest : Bytes) (e : drop index raw ≡ first ∷ rest) where
  abbrev end : ℕ
  end = (segment_at raw index first).1

  begins : substr raw index (end - index) ≡ first ∷ take (end - (index + 1)) rest
  begins =
      let bounds = segment_at_bounds raw index first (length-first raw index first rest e) in
      rw e (take-suc (end - index) (end - (index + 1)) first rest (omega arith))

  rest_is : rest ≡ drop (index + 1) raw
  rest_is = ap (drop 1) (sym e) ∙ drop-drop 1 index (index + 1) raw refl

  module _ (no_tag : (first == b'<') ≡ false) where
    segment_at_entity :
        (first == b'&' && ltb (index + 1) (entity_end raw index)) ≡ true
        → segment_at raw index first ≡ (entity, entity_end raw index)
    unfolding segment_at
    segment_at_entity named = rw (no_tag, named)

    segment_at_text :
        (first == b'&' && ltb (index + 1) (entity_end raw index)) ≡ false
        → segment_at raw index first ≡ (text, text_scan (index + 1) (drop (index + 1) raw))
    unfolding segment_at
    segment_at_text plain = rw (no_tag, plain)

  segment_at_markup :
      (first == b'<') ≡ true → segment_at raw index first ≡ (markup, markup_end raw index)
  unfolding segment_at
  segment_at_markup tag = rw tag

  abbrev ShapeOf : AnnotationSegmentKind × ℕ → Type 0
  ShapeOf p = HasShape p.0 (first ∷ take (p.1 - (index + 1)) rest)

  ShapeOf-segment_at : ShapeOf (segment_at raw index first)
  ShapeOf-segment_at = elim (Bool-cases (first == b'<')) [
    | inl tag ↦ subst ShapeOf (sym (segment_at_markup tag)) (eq_of_== first b'<' tag)
    | inr no_tag ↦ elim (Bool-cases (first == b'&' && ltb (index + 1) (entity_end raw index))) [
      | inl named ↦ subst ShapeOf (sym (segment_at_entity no_tag named)) (ground arith)
      | inr plain ↦
          subst ShapeOf (sym (segment_at_text no_tag plain))
            (rw rest_is (text_scan-OpensNothing (index + 1) (drop (index + 1) raw)))
    ]
  ]

  cut-IsSegment : IsSegment (cut raw index (segment_at raw index first))
  unfolding cut
  cut-IsSegment = record { shape = rw begins ShapeOf-segment_at }

segments_from-IsSegment :
    (fuel : ℕ) (raw : Bytes) (index : ℕ) → All IsSegment (segments_from fuel raw index)
segments_from-IsSegment zero raw index = unfold segments_from in tt
segments_from-IsSegment (suc fuel) raw index = elim (Bytes-cases (drop index raw)) [
  | inl empty ↦ rw (segments_from-end fuel raw index empty) tt
  | inr (first, rest, e) ↦ rw (segments_from-round fuel raw index first rest e) (
    cut-IsSegment raw index first rest e,
    segments_from-IsSegment fuel raw (segment_at raw index first).1,
  )
]

-- No segment is empty; markup begins with `<`, an entity with `&`, and text goes on over neither.
pub segment_annotations-IsSegment : (raw : Bytes) → All IsSegment (segment_annotations raw)
unfolding segment_annotations
segment_annotations-IsSegment raw = segments_from-IsSegment (length raw) raw 0
