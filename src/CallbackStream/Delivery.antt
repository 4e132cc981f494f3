-- ===== src/CallbackStream/Delivery.antt =====
-- What the callback is given: the bytes written, in order, with nothing left out or repeated.
use getbiblesword.Prelude.{
  ℕ, ◌≤◌, ◌≡◌, refl, sym, ap, ◌∙◌, arith, inl, inr, true, false, [], ◌∷◌, ◌++◌, append-nil,
  append_assoc, Bytes, length, length-append, ltb, ◌==◌, if◌then◌else◌, Bool-cases, eq_of_==,
}
use getbiblesword.CallbackStream.{
  write_continue, buffer_size, Callback, CallbackStreambuf, has_failed, result_of, is_empty,
  flush_pending, overflow, put_char,
}

-- What the contract asks of a callback: where it returns `GBS_WRITE_CONTINUE` it has taken in the
-- whole span, and else nothing of it.
pub record Consumes {Context : Type 0} (callback : Callback Context) : Type 0 where
  pub accepted : Context → Bytes
  pub accepted-continue :
      (context : Context) (span : Bytes)
      → result_of (callback context span).0 ≡ write_continue
      → accepted (callback context span).1 ≡ accepted context ++ span
  pub accepted-refuse :
      (context : Context) (span : Bytes)
      → (result_of (callback context span).0 == write_continue) ≡ false
      → accepted (callback context span).1 ≡ accepted context

module _ {Context : Type 0} (callback : Callback Context) (c : Consumes callback) where
  -- All that was put into the buffer: what the callback took and what is pending.
  abbrev pub taken : CallbackStreambuf Context → Bytes
  taken s = c.accepted s.context ++ s.pending

  pub record Bounded (s : CallbackStreambuf Context) : Type 0 where
    pub fits : length s.pending ≤ buffer_size

  empty-eq-nil : (bytes : Bytes) → is_empty bytes ≡ true → bytes ≡ []
  empty-eq-nil [] h = refl
  empty-eq-nil (x ∷ xs) h = cc

  -- A flush loses no byte and repeats none, whatever a callback that takes in a whole span or nothing
  -- answers.
  pub taken-flush_pending :
      (s : CallbackStreambuf Context) → taken (flush_pending callback s).1 ≡ taken s
  unfolding flush_pending
  taken-flush_pending s = elim (Bool-cases (has_failed s.failure)) [
    | inl failed ↦ rw failed refl
    | inr fine ↦ elim (Bool-cases (is_empty s.pending)) [
      | inl empty ↦ rw (fine, empty) refl
      | inr some_pending ↦
          elim (Bool-cases (result_of (callback s.context s.pending).0 == write_continue)) [
            | inl continues ↦
                rw (fine, some_pending, continues)
                  (append-nil _
                    ∙ c.accepted-continue s.context s.pending (eq_of_== _ write_continue continues))
            | inr refuses ↦
                rw (fine, some_pending, refuses)
                  (ap (λ (t : Bytes). t ++ s.pending)
                    (c.accepted-refuse s.context s.pending refuses))
          ]
    ]
  ]

  -- A flush that succeeds leaves nothing pending.
  pub flush_pending-pending :
      (s : CallbackStreambuf Context)
      → (flush_pending callback s).0 ≡ true
      → (flush_pending callback s).1.pending ≡ []
  unfolding flush_pending
  flush_pending-pending s h = ground (arith, empty-eq-nil s.pending)

  flush_pending-Bounded :
      (s : CallbackStreambuf Context) → Bounded s → Bounded (flush_pending callback s).1
  unfolding flush_pending
  flush_pending-Bounded s h = ground arith

  pub put_char-taken :
      (x : ℕ) (s : CallbackStreambuf Context)
      → taken (put_char callback x s).1
        ≡ (if (put_char callback x s).0 then taken s ++ (x ∷ []) else taken s)
  unfolding put_char overflow
  put_char-taken x s = elim (Bool-cases (ltb (length s.pending) buffer_size)) [
    | inl room ↦ rw room (sym (append_assoc (c.accepted s.context) s.pending (x ∷ [])))
    | inr full ↦ elim (Bool-cases (flush_pending callback s).0) [
      | inl flushed ↦
          rw (full, flushed)
            (sym (append_assoc _ _ (x ∷ []))
              ∙ ap (λ (t : Bytes). t ++ (x ∷ [])) (taken-flush_pending s))
      | inr failed ↦ rw (full, failed) (taken-flush_pending s)
    ]
  ]

  pub put_char-Bounded :
      (x : ℕ) (s : CallbackStreambuf Context) → Bounded s → Bounded (put_char callback x s).1
  unfolding put_char overflow
  put_char-Bounded x s h = ground (
    arith,
    flush_pending-pending s,
    flush_pending-Bounded s h,
    length-append s.pending (x ∷ []),
    length-append (flush_pending callback s).1.pending (x ∷ []),
  )
