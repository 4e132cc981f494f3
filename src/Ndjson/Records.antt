-- ===== src/Ndjson/Records.antt =====
-- What a writer has done is the list of its records: its output, its digest, its sequence number
-- and its counts follow from that list.
use native.Mathlib.Nat.{zero-add}
use getbiblesword.Prelude.{
  ℕ, suc, ◌+◌, ◌%◌, ◌^◌, ◌≡◌, refl, sym, ap, ◌∙◌, arith, true, false, List, [], ◌∷◌, ◌++◌,
  append-nil, append_assoc, Bytes, length, length-append, concat,
}
use getbiblesword.OrderedMap.{OrderedMap, upsert}
use getbiblesword.Sha256.Padding.{concat-append}
use getbiblesword.Sha256.Stream.Update.{Streams, new-Streams, update-Streams}
use getbiblesword.Ndjson.{Ostream, JsonFields, increment, record_line, Writer, new, emit_record}

-- What C++ documents of a stream that stays good: it takes in all that is written, in order, and a
-- flush adds nothing.
pub record Collects (o : Ostream) : Type 0 where
  pub written : o.Stream → Bytes
  pub written-write :
      (s : o.Stream) (bytes : Bytes)
      → o.good (o.write s bytes) ≡ true
      → written (o.write s bytes) ≡ written s ++ bytes
  pub good_before_flush : (s : o.Stream) → o.good (o.flush s) ≡ true → o.good s ≡ true
  pub written-flush : (s : o.Stream) → o.good (o.flush s) ≡ true → written (o.flush s) ≡ written s

pub record Record : Type 0 where
  pub type : Bytes
  pub fields : JsonFields

-- The lines of the records, numbered from `n` on; the number is a `std::uint64_t`.
abbrev pub lines_from : ℕ → List Record → List Bytes
lines_from n [] = []
lines_from n (r ∷ rs) = record_line (n % 2 ^ 64) r.type r.fields ∷ lines_from (suc n) rs

abbrev pub text_of : List Record → Bytes
text_of rs = concat (lines_from 0 rs)

abbrev pub counts_from : OrderedMap ℕ → List Record → OrderedMap ℕ
counts_from m [] = m
counts_from m (r ∷ rs) = counts_from (upsert r.type increment m) rs

lines_from-append :
    (n : ℕ) (rs : List Record) (r : Record)
    → lines_from n (rs ++ (r ∷ []))
      ≡ lines_from n rs ++ (record_line ((n + length rs) % 2 ^ 64) r.type r.fields ∷ [])
lines_from-append n [] r = ap (λ (k : ℕ). record_line (k % 2 ^ 64) r.type r.fields ∷ []) (add n)
  where
    add : (n : ℕ) → n ≡ n + 0
    add n = omega arith
lines_from-append n (q ∷ rs) r =
    ap (λ (t : List Bytes). record_line (n % 2 ^ 64) q.type q.fields ∷ t)
      (lines_from-append (suc n) rs r
        ∙ ap (λ (k : ℕ). lines_from (suc n) rs ++ (record_line (k % 2 ^ 64) r.type r.fields ∷ []))
            (shift (length rs)))
  where
    shift : (k : ℕ) → suc n + k ≡ n + suc k
    shift k = omega arith

counts_from-append :
    (m : OrderedMap ℕ) (rs : List Record) (r : Record)
    → counts_from m (rs ++ (r ∷ [])) ≡ upsert r.type increment (counts_from m rs)
counts_from-append m [] r = refl
counts_from-append m (q ∷ rs) r = counts_from-append (upsert q.type increment m) rs r

pub text_of-append :
    (rs : List Record) (r : Record)
    → text_of (rs ++ (r ∷ [])) ≡ text_of rs ++ record_line (length rs % 2 ^ 64) r.type r.fields
text_of-append rs r =
    ap concat (lines_from-append 0 rs r)
    ∙ concat-append (lines_from 0 rs) _
    ∙ ap (λ (t : Bytes). text_of rs ++ t)
        (append-nil _
          ∙ ap (λ (k : ℕ). record_line (k % 2 ^ 64) r.type r.fields) (zero-add (length rs)))

module _ (o : Ostream) (c : Collects o) (start : Bytes) where
  -- The writer has written these records behind `start`, and no footer yet.
  pub record Holds (w : Writer o.Stream) (rs : List Record) : Type 0 where
    pub output_is : c.written w.output ≡ start ++ text_of rs
    pub hashed : Streams w.stream_hash (text_of rs)
    pub numbered : w.sequence ≡ length rs % 2 ^ 64
    pub counted : w.counts ≡ counts_from [] rs
    pub unfinished : w.finished ≡ false

  pub new-Holds : (s : o.Stream) → c.written s ≡ start → Holds (new s) []
  new-Holds s e = record {
    output_is = e ∙ sym (append-nil start);
    hashed = new-Streams;
    numbered = refl;
    counted = refl;
    unfinished = refl;
  }

  module _ (type : Bytes) (fields : JsonFields) (w : Writer o.Stream) (rs : List Record)
      (h : Holds w rs) where
    abbrev line : Bytes
    line = record_line w.sequence type fields

    abbrev next : Record
    next = record { type = type; fields = fields }

    text_of-next : text_of (rs ++ (next ∷ [])) ≡ text_of rs ++ line
    text_of-next = text_of-append rs next ∙ rw (← h.numbered)

    pub emit_record-Holds :
        o.good (o.write w.output line) ≡ true
        → Holds (emit_record o type fields w).1 (rs ++ (next ∷ []))
    unfolding emit_record
    emit_record-Holds good = rw good (record {
      output_is =
          c.written-write w.output line good
          ∙ ap (λ (t : Bytes). t ++ line) h.output_is
          ∙ append_assoc start (text_of rs) line
          ∙ ap (λ (t : Bytes). start ++ t) (sym text_of-next);
      hashed = rw text_of-next (update-Streams w.stream_hash (text_of rs) line h.hashed);
      numbered = omega (arith, h.numbered, length-append rs (next ∷ []));
      counted = ap (upsert type increment) h.counted ∙ sym (counts_from-append [] rs next);
      unfinished = h.unfinished;
    })
