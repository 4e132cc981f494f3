-- ===== src/Ndjson/Emits.antt =====
-- What a sequence of calls of `emit` leaves: the records that it adds, or a stream that has failed.
-- Calls are composed by `bind-Emits`, so each operation is proved from the operations that it calls.
use getbiblesword.Prelude.{
  ◌≡◌, refl, subst, arith, Bool, false, ◌||◌, List, [], ◌∷◌, ◌++◌, append-nil, append_assoc, Bytes,
  codes,
}
use getbiblesword.Exec.{Exception, Result, ok, throw, Exec, pure, bind_result, ◌>>=◌, ◌>>◌}
use getbiblesword.OrderedMap.{contains}
use getbiblesword.Ndjson.{Ostream, JsonFields, record_line, Writer, emit_record, emit}
use getbiblesword.Ndjson.Records.{Collects, Record, Holds}
use getbiblesword.Ndjson.Footer.{emit-Holds}

-- What C++ documents of a stream that has failed: it stays so.
pub record StaysBad (o : Ostream) : Type 0 where
  pub write-bad :
      (s : o.Stream) (bytes : Bytes) → o.good s ≡ false → o.good (o.write s bytes) ≡ false

-- `emit` refuses such fields.
abbrev pub is_reserved : JsonFields → Bool
is_reserved fields = contains (codes "sequence") fields || contains (codes "type") fields

module _ (o : Ostream) (c : Collects o) (b : StaysBad o) (start : Bytes) where
  abbrev pub IsBroken : Writer o.Stream → Type 0
  IsBroken w = o.good w.output ≡ false

  -- Where a call returns, it has added records of which `P` holds; where it throws, the stream has failed.
  abbrev pub Outcome :
      {A : Type 0} → (A → List Record → Type 0) → List Record → Result A → Writer o.Stream → Type 0
  Outcome P before (ok a) w = (rs : List Record) × Holds o c start w (before ++ rs) × P a rs
  Outcome P before (throw e) w = IsBroken w

  pub record Emits {A : Type 0} (m : Exec (Writer o.Stream) A) (P : A → List Record → Type 0)
      : Type 0 where
    pub outcome :
        (w : Writer o.Stream) (before : List Record)
        → Holds o c start w before
        → Outcome P before (m w).0 (m w).1

  pub pure-Emits : {A : Type 0} (a : A) (P : A → List Record → Type 0) → P a [] → Emits (pure a) P
  pure-Emits a P p = record { outcome = λ w before h. ([], rw append-nil h, p) }

  pub weaken-Emits :
      {A : Type 0} (m : Exec (Writer o.Stream) A) (P Q : A → List Record → Type 0)
      → ((a : A) (rs : List Record) → P a rs → Q a rs)
      → Emits m P
      → Emits m Q
  weaken-Emits {A} m P Q f em = record {
    outcome = λ w before h. weaker before (m w).0 (m w).1 (em.outcome w before h);
  }
    where
      weaker :
          (before : List Record) (r : Result A) (w : Writer o.Stream)
          → Outcome P before r w
          → Outcome Q before r w
      weaker before (ok a) w (rs, holds, p) = (rs, holds, f a rs p)
      weaker before (throw e) w broken = broken

  module _ {A B : Type 0} (P : A → List Record → Type 0) (Q : B → List Record → Type 0)
      (k : A → Exec (Writer o.Stream) B) where
    abbrev Continues : Type 0
    Continues = (a : A) (rs : List Record) → P a rs → Emits (k a) (λ y later. Q y (rs ++ later))

    bind-Outcome :
        (r : Result A) (w : Writer o.Stream) (before : List Record)
        → Outcome P before r w
        → Continues
        → Outcome Q before (bind_result r w k).0 (bind_result r w k).1
    bind-Outcome (throw e) w before broken f = broken
    bind-Outcome (ok a) w before (rs, holds, p) f =
        joined (k a w).0 ((f a rs p).outcome w (before ++ rs) holds)
      where
        joined :
            (r : Result B)
            → Outcome (λ y later. Q y (rs ++ later)) (before ++ rs) r (k a w).1
            → Outcome Q before r (k a w).1
        joined (ok y) (later, holds, q) = (
          rs ++ later,
          subst (λ (t : List Record). Holds o c start (k a w).1 t) (append_assoc before rs later)
              holds,
          q,
        )
        joined (throw e) broken = broken

    pub bind-Emits : (m : Exec (Writer o.Stream) A) → Emits m P → Continues → Emits (m >>= k) Q
    bind-Emits m em f = record {
      outcome = λ w before h. bind-Outcome (m w).0 (m w).1 before (em.outcome w before h) f;
    }

  emit_throw-IsBroken :
      (type : Bytes) (fields : JsonFields) (w : Writer o.Stream) {x : Exception}
      → w.finished ≡ false
      → is_reserved fields ≡ false
      → (emit o type fields w).0 ≡ throw x
      → IsBroken (emit o type fields w).1
  unfolding emit emit_record
  emit_throw-IsBroken type fields w unfinished free e = ground arith

  pub emit-Emits :
      (type : Bytes) (fields : JsonFields)
      → is_reserved fields ≡ false
      → Emits (emit o type fields) (λ _ rs. rs ≡ record { type = type; fields = fields } ∷ [])
  emit-Emits type fields free = record {
    outcome = λ w before h. by_result w before h (emit o type fields w).0 refl;
  }
    where
      by_result :
          (w : Writer o.Stream) (before : List Record) (h : Holds o c start w before)
          (r : Result (Unit {0}))
          → (emit o type fields w).0 ≡ r
          → Outcome
              (λ _ rs. rs ≡ record { type = type; fields = fields } ∷ [])
              before
              r
              (emit o type fields w).1
      by_result w before h (ok tt) e = (
        record { type = type; fields = fields } ∷ [],
        emit-Holds o c start type fields w before h e,
        refl,
      )
      by_result w before h (throw x) e = emit_throw-IsBroken type fields w h.unfinished free e

  -- Nothing is emitted on a stream that has failed.
  pub emit-IsBroken :
      (type : Bytes) (fields : JsonFields) (w : Writer o.Stream)
      → IsBroken w
      → IsBroken (emit o type fields w).1
  unfolding emit emit_record
  emit-IsBroken type fields w h =
      ground (arith, b.write-bad w.output (record_line w.sequence type fields) h)

  -- A `finish` that returns has found the stream good.
  pub emit-IsBroken_throw :
      (type : Bytes) (fields : JsonFields) (w : Writer o.Stream)
      → IsBroken w
      → (emit o type fields w).0 ≡ ok tt
      → ⊥
  unfolding emit emit_record
  emit-IsBroken_throw type fields w h e =
      ground (arith, b.write-bad w.output (record_line w.sequence type fields) h)

  -- One `emit`, and then the rest.
  pub emit_then-Emits :
      {B : Type 0} (type : Bytes) (fields : JsonFields) (m : Exec (Writer o.Stream) B)
      (Q : B → List Record → Type 0)
      → is_reserved fields ≡ false
      → Emits m (λ y later. Q y (record { type = type; fields = fields } ∷ later))
      → Emits (emit o type fields >> m) Q
  emit_then-Emits type fields m Q free em =
      bind-Emits (λ _ rs. rs ≡ record { type = type; fields = fields } ∷ []) Q (λ _. m)
        (emit o type fields) (emit-Emits type fields free) (λ a rs e. rw e em)
