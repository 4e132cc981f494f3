-- ===== src/Extractor/Tracking.antt =====
-- What the actions of a command leave: a session whose counts are those of its records, or a stream
-- that has failed. Actions are composed by `bind-Keeps`.
pub mod Steps
pub mod Reports
pub mod Configuration
pub mod Entries
pub mod Stages
pub mod Complete
pub mod Commands
pub mod Extraction
use getbiblesword.Prelude.{
  ℕ, ◌≡◌, refl, arith, ◌⊎◌, inl, inr, Bool, true, false, Option, none, some, List, [], ◌∷◌, ◌++◌,
  Bytes, All, if◌then◌else◌,
}
use getbiblesword.Exec.{
  Exception, Result, ok, throw, Exec, pure, bind_result, ◌>>=◌, ◌>>◌, what, handle, caught,
  try_catch,
}
use getbiblesword.Ndjson.{Ostream, Writer}
use getbiblesword.Ndjson.Records.{Collects, Record, Holds}
use getbiblesword.Ndjson.Emits.{StaysBad, IsBroken, Outcome, Emits}
use getbiblesword.Extractor.{Session, on_writer}
use getbiblesword.Extractor.Tallies.{IsTallied, Stage}

module _ (o : Ostream) (c : Collects o) (b : StaysBad o) (start : Bytes) (G : Stage) where
  pub record HasWritten (s : Session o.Stream) (rs : List Record) : Type 0 where
    pub holds : Holds o c start s.writer rs
    pub tallied : IsTallied s.diagnostics s.entries rs
    pub staged : G.of_artifacts rs s.artifacts s.artifact_bytes

  abbrev pub IsTracked : Session o.Stream → Type 0
  IsTracked s = (rs : List Record) × HasWritten s rs

  abbrev pub IsFailed : Session o.Stream → Type 0
  IsFailed s = IsBroken o c b start s.writer

-- `X` tells which exceptions calls of SWORD may throw.
module _ (o : Ostream) (c : Collects o) (b : StaysBad o) (start : Bytes) (G : Stage)
    (X : Exception → Type 0) where
  -- An exception that is not the writer's comes from a call of SWORD, and leaves the counts right.
  abbrev pub IsThrown : Exception → Session o.Stream → Type 0
  IsThrown e s = IsFailed o c b start G s ⊎ (IsTracked o c b start G s × X e)

  abbrev pub After :
      {A : Type 0} → (A → Session o.Stream → Type 0) → Result A → Session o.Stream → Type 0
  After Q (ok a) s = Q a s
  After Q (throw e) s = IsThrown e s

  pub record Keeps {A : Type 0} (m : Exec (Session o.Stream) A) (Q : A → Session o.Stream → Type 0)
      : Type 0 where
    pub run : (s : Session o.Stream) → IsTracked o c b start G s → After Q (m s).0 (m s).1

  abbrev pub Tracks : {A : Type 0} → Exec (Session o.Stream) A → Type 0
  Tracks m = Keeps m (λ a s. IsTracked o c b start G s)

  -- On a stream that has failed it does not return.
  pub record Refuses {A : Type 0} (m : Exec (Session o.Stream) A) : Type 0 where
    pub refused :
        (s : Session o.Stream) → IsFailed o c b start G s → After (λ (a : A) s'. ⊥) (m s).0 (m s).1

  pub pure-Tracks : {A : Type 0} (a : A) → Tracks (pure a)
  pure-Tracks a = record { run = λ s h. h }

  module _ {A B : Type 0} (Q : A → Session o.Stream → Type 0) (R : B → Session o.Stream → Type 0)
      (k : A → Exec (Session o.Stream) B) where
    abbrev Goes : Type 0
    Goes = (a : A) (s : Session o.Stream) → Q a s → After R (k a s).0 (k a s).1

    pub bind-After :
        (r : Result A) (s : Session o.Stream)
        → After Q r s
        → Goes
        → After R (bind_result r s k).0 (bind_result r s k).1
    bind-After (ok a) s q f = f a s q
    bind-After (throw e) s q f = q

    pub bind-Keeps : (m : Exec (Session o.Stream) A) → Keeps m Q → Goes → Keeps (m >>= k) R
    bind-Keeps m em f = record { run = λ s h. bind-After (m s).0 (m s).1 (em.run s h) f }

  pub then-Keeps :
      {A B : Type 0} (R : B → Session o.Stream → Type 0) (m : Exec (Session o.Stream) A)
      (k : A → Exec (Session o.Stream) B)
      → Tracks m
      → ((a : A) → Keeps (k a) R)
      → Keeps (m >>= k) R
  then-Keeps R m k em f =
      bind-Keeps (λ a s. IsTracked o c b start G s) R k m em (λ a s h. (f a).run s h)

  pub if-After :
      {A : Type 0} (Q : A → Session o.Stream → Type 0) (t : Bool)
      (x y : Result A × Session o.Stream)
      → After Q x.0 x.1
      → After Q y.0 y.1
      → After Q (if t then x else y).0 (if t then x else y).1
  if-After Q true x y h g = h
  if-After Q false x y h g = g

  pub if-Keeps :
      {A : Type 0} (Q : A → Session o.Stream → Type 0) (t : Bool) (m n : Exec (Session o.Stream) A)
      → Keeps m Q
      → Keeps n Q
      → Keeps (if t then m else n) Q
  if-Keeps Q true m n h g = h
  if-Keeps Q false m n h g = g

  -- A call of the writer, under the session
  pub on_writer-After :
      {A : Type 0} (m : Exec (Writer o.Stream) A) (P : A → List Record → Type 0)
      (Q : A → Session o.Stream → Type 0) (s : Session o.Stream) (rs : List Record)
      → Emits o c b start m P
      → Holds o c start s.writer rs
      → ((a : A) (w : Writer o.Stream) (added : List Record)
          → P a added
          → Holds o c start w (rs ++ added)
          → Q a (record s { writer = w }))
      → After Q (on_writer o m s).0 (on_writer o m s).1
  unfolding on_writer
  on_writer-After {A} m P Q s rs em h f =
      by_outcome (m s.writer).0 (m s.writer).1 (em.outcome s.writer rs h)
    where
      by_outcome :
          (r : Result A) (w : Writer o.Stream)
          → Outcome o c b start P rs r w
          → After Q r (record s { writer = w })
      by_outcome (ok a) w (added, holds, p) = f a w added p holds
      by_outcome (throw e) w broken = inl broken

  pub bind-Refuses :
      {A B : Type 0} (m : Exec (Session o.Stream) A) (k : A → Exec (Session o.Stream) B)
      → Refuses m
      → Refuses (m >>= k)
  bind-Refuses {A} {B} m k em = record { refused = λ s h. passed (m s).0 (m s).1 (em.refused s h) }
    where
      passed :
          (r : Result A) (s : Session o.Stream)
          → After (λ (a : A) s'. ⊥) r s
          → After (λ (a : B) s'. ⊥) (bind_result r s k).0 (bind_result r s k).1
      passed (ok a) s h = absurd h
      passed (throw e) s h = h

-- Behind a `catch`, only an exception that is no `std::exception` is left.
abbrev pub IsForeign : Exception → Type 0
IsForeign e = what e ≡ none

abbrev pub AnyException : Exception → Type 0
AnyException e = Unit

module _ (o : Ostream) (c : Collects o) (b : StaysBad o) (start : Bytes) (G : Stage) where
  refused-After :
      {A : Type 0} (Q : A → Session o.Stream → Type 0) (r : Result A) (s : Session o.Stream)
      → After o c b start G IsForeign (λ (a : A) s'. ⊥) r s
      → After o c b start G IsForeign Q r s
  refused-After Q (ok a) s h = absurd h
  refused-After Q (throw e) s h = h

  module _ {A : Type 0} (Q : A → Session o.Stream → Type 0)
      (handler : Bytes → Exec (Session o.Stream) A)
      (keeps : (text : Bytes) → Keeps o c b start G IsForeign (handler text) Q)
      (refuses : (text : Bytes) → Refuses o c b start G IsForeign (handler text)) where
    handle-After :
        (text : Option Bytes) (e : Exception) (s : Session o.Stream)
        → what e ≡ text
        → IsThrown o c b start G AnyException e s
        → After o c b start G IsForeign Q (handle text e s handler).0 (handle text e s handler).1
    handle-After none e s foreign (inl failed) = inl failed
    handle-After none e s foreign (inr (tracked, any)) = inr (tracked, foreign)
    handle-After (some text) e s caught (inl failed) =
        refused-After Q (handler text s).0 (handler text s).1 ((refuses text).refused s failed)
    handle-After (some text) e s caught (inr (tracked, any)) = (keeps text).run s (tracked)

    caught-After :
        (r : Result A) (s : Session o.Stream)
        → After o c b start G AnyException Q r s
        → After o c b start G IsForeign Q (caught r s handler).0 (caught r s handler).1
    caught-After (ok a) s q = q
    caught-After (throw e) s h = handle-After (what e) e s refl h

    pub try_catch-Keeps :
        (m : Exec (Session o.Stream) A)
        → Keeps o c b start G AnyException m Q
        → Keeps o c b start G IsForeign (try_catch m handler) Q
    try_catch-Keeps m em = record { run = λ s h. caught-After (m s).0 (m s).1 (em.run s h) }
