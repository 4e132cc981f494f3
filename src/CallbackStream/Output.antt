-- ===== src/CallbackStream/Output.antt =====
-- A stream on the buffer: a `std::ostream` that stays good has passed everything on.
use getbiblesword.Prelude.{
  ◌≡◌, sym, ap, ◌∙◌, arith, inl, inr, true, false, [], ◌∷◌, ◌++◌, append-nil, append_assoc, Bytes,
  Bool-cases,
}
use getbiblesword.Ndjson.Records.{Collects}
use getbiblesword.CallbackStream.{
  Callback, CallbackStreambuf, sync, put_char, put_all, CallbackOutput, write_output, flush_output,
  callback_ostream,
}
use getbiblesword.CallbackStream.Delivery.{
  Consumes, taken, Bounded, taken-flush_pending, flush_pending-pending, put_char-taken,
  put_char-Bounded,
}

module _ {Context : Type 0} (callback : Callback Context) (c : Consumes callback) where
  put_all-taken :
      (bytes : Bytes) (s : CallbackStreambuf Context)
      → (put_all callback bytes s).0 ≡ true
      → taken callback c (put_all callback bytes s).1 ≡ taken callback c s ++ bytes
  unfolding put_all
  put_all-taken [] s h = sym (append-nil _)
  put_all-taken (x ∷ xs) s h = elim (Bool-cases (put_char callback x s).0) [
    | inl put ↦
        let step : taken callback c (put_char callback x s).1 ≡ taken callback c s ++ (x ∷ []) =
          put_char-taken callback c x s ∙ rw put in
        rw (put, put_all)
          (put_all-taken xs (put_char callback x s).1 (rw (put, put_all) at h)
            ∙ ap (λ (t : Bytes). t ++ xs) step
            ∙ append_assoc (taken callback c s) (x ∷ []) xs)
    | inr refused ↦ absurd (false_ne_true (rw (refused, put_all) at h))
  ]
    where
      false_ne_true : false ≡ true → ⊥
      false_ne_true e = cc

  -- The buffer never holds more than its capacity, however much is written to it.
  pub put_all-Bounded :
      (bytes : Bytes) (s : CallbackStreambuf Context)
      → Bounded callback c s
      → Bounded callback c (put_all callback bytes s).1
  unfolding put_all
  put_all-Bounded [] s h = h
  put_all-Bounded (x ∷ xs) s h =
      let next = put_char-Bounded callback c x s h in
      elim (Bool-cases (put_char callback x s).0) [
        | inl put ↦ rw (put, put_all) (put_all-Bounded xs (put_char callback x s).1 next)
        | inr refused ↦ rw (refused, put_all) next
      ]

  pub write-taken :
      (s : CallbackOutput Context) (bytes : Bytes)
      → (write_output callback s bytes).is_good ≡ true
      → taken callback c (write_output callback s bytes).buffer ≡ taken callback c s.buffer ++ bytes
  unfolding write_output
  write-taken s bytes h = elim (Bool-cases s.is_good) [
    | inl good ↦ rw good (put_all-taken bytes s.buffer (rw good at h))
    | inr bad ↦ absurd (ground arith)
  ]

  pub good_before :
      (s : CallbackOutput Context) → (flush_output callback s).is_good ≡ true → s.is_good ≡ true
  unfolding flush_output
  good_before s h = ground arith

  pub flush-taken :
      (s : CallbackOutput Context)
      → (flush_output callback s).is_good ≡ true
      → taken callback c (flush_output callback s).buffer ≡ taken callback c s.buffer
  unfolding flush_output sync
  flush-taken s h = rw (good_before s h) (taken-flush_pending callback c s.buffer)

  pub flush-pending :
      (s : CallbackOutput Context)
      → (flush_output callback s).is_good ≡ true
      → (flush_output callback s).buffer.pending ≡ []
  unfolding flush_output sync
  flush-pending s h =
      let good = good_before s h in
      rw good (flush_pending-pending callback c s.buffer (rw good at h))

  -- The stream meets what `NdjsonWriter` relies on.
  abbrev pub callback_Collects : Collects (callback_ostream callback)
  callback_Collects = record {
    written = λ s. taken callback c s.buffer;
    written-write = write-taken;
    good_before_flush = good_before;
    written-flush = flush-taken;
  }
