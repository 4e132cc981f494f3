-- ===== src/Annotation/Scan.antt =====
-- Where the scanners stop: behind the beginning, and inside the text.
use getbiblesword.Prelude.{
  ℕ, suc, ◌+◌, ◌-◌, ◌≤◌, ◌<◌, ◌≡◌, arith, inl, inr, false, ◌||◌, [], ◌∷◌, Bytes, All, length, take,
  drop, length-drop, ◌==◌, Bool-cases,
}
use getbiblesword.Annotation.{markup_scan, entity_scan, text_scan, segment_at}

markup_scan_bounds :
    (quote begin index : ℕ) (bytes : Bytes)
    → begin + 1 ≤ index
    → (begin < markup_scan quote begin index bytes)
      × (markup_scan quote begin index bytes ≤ index + length bytes)
unfolding markup_scan
markup_scan_bounds quote begin index [] h = omega arith
markup_scan_bounds quote begin index (value ∷ rest) h = ground (
  arith,
  markup_scan_bounds 0 begin (index + 1) rest (omega arith),
  markup_scan_bounds value begin (index + 1) rest (omega arith),
  markup_scan_bounds quote begin (index + 1) rest (omega arith),
)

entity_scan_bounds :
    (begin index : ℕ) (bytes : Bytes)
    → begin + 1 ≤ index
    → (begin < entity_scan begin index bytes)
      × (entity_scan begin index bytes ≤ index + length bytes)
unfolding entity_scan
entity_scan_bounds begin index [] h = omega arith
entity_scan_bounds begin index (value ∷ rest) h =
    ground (arith, entity_scan_bounds begin (index + 1) rest (omega arith))

text_scan_bounds :
    (index : ℕ) (bytes : Bytes)
    → (index ≤ text_scan index bytes) × (text_scan index bytes ≤ index + length bytes)
unfolding text_scan
text_scan_bounds index [] = omega arith
text_scan_bounds index (value ∷ rest) = ground (arith, text_scan_bounds (index + 1) rest)

-- A segment takes a byte at least, and ends inside the text.
pub segment_at_bounds :
    (raw : Bytes) (index first : ℕ)
    → index < length raw
    → (index < (segment_at raw index first).1) × ((segment_at raw index first).1 ≤ length raw)
unfolding segment_at
segment_at_bounds raw index first h = ground (
  arith,
  markup_scan_bounds 0 index (index + 1) (drop (index + 1) raw) (omega arith),
  entity_scan_bounds index (index + 1) (drop (index + 1) raw) (omega arith),
  text_scan_bounds (index + 1) (drop (index + 1) raw),
  length-drop (index + 1) raw,
)

-- Text goes on over bytes that open neither markup nor an entity.
abbrev pub OpensNothing : ℕ → Type 0
OpensNothing c = (c == b'<' || c == b'&') ≡ false

pub text_scan-OpensNothing :
    (index : ℕ) (bytes : Bytes) → All OpensNothing (take (text_scan index bytes - index) bytes)
unfolding text_scan
text_scan-OpensNothing index [] = let e : index - index ≡ 0 = omega arith in rw e tt
text_scan-OpensNothing index (value ∷ rest) = elim (Bool-cases (value == b'<' || value == b'&')) [
  | inl stop ↦ let e : index - index ≡ 0 = omega arith in rw stop (rw e tt)
  | inr go ↦
      let bound = text_scan_bounds (index + 1) rest in
      let e : text_scan (index + 1) rest - index ≡ suc (text_scan (index + 1) rest - (index + 1)) =
        omega arith in
      rw go (rw e (go, text_scan-OpensNothing (index + 1) rest))
]
