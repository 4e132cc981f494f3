-- ===== src/Exec.antt =====
-- Calls that may throw, over a state. A state that an exception leaves behind is kept.
use getbiblesword.Prelude.{◌≡◌, Option, none, some, Bytes}

-- The classes that the sources throw or catch apart; `other` is an exception that is no
-- `std::exception`. The text is `what()`.
pub data Exception : Type 0 where
  logic_error : Bytes → Exception
  invalid_argument : Bytes → Exception
  runtime_error : Bytes → Exception
  other : Exception

pub data Result (A : Type 0) : Type 0 where
  ok : A → Result A
  throw : Exception → Result A

abbrev pub Exec : Type 0 → Type 0 → Type 0
Exec S A = S → Result A × S

abbrev pub pure : {S A : Type 0} → A → Exec S A
pure a s = (ok a, s)

abbrev pub bind_result : {S A B : Type 0} → Result A → S → (A → Exec S B) → Result B × S
bind_result (ok a) s k = k a s
bind_result (throw e) s k = (throw e, s)

infixl 5 ◌>>=◌ ◌>>◌
abbrev pub ◌>>=◌ : {S A B : Type 0} → Exec S A → (A → Exec S B) → Exec S B
◌>>=◌ m k s = bind_result (m s).0 (m s).1 k

abbrev pub ◌>>◌ : {S B : Type 0} → Exec S (Unit {0}) → Exec S B → Exec S B
m >> k = m >>= λ _. k

abbrev pub Done : Result (Unit {0}) → Type 0
Done r = r ≡ ok tt

-- `what()` of an exception that `catch (const std::exception&)` takes
abbrev pub what : Exception → Option Bytes
what (logic_error text) = some text
what (invalid_argument text) = some text
what (runtime_error text) = some text
what other = none

abbrev pub handle :
    {S A : Type 0} → Option Bytes → Exception → S → (Bytes → Exec S A) → Result A × S
handle none e s handler = (throw e, s)
handle (some text) e s handler = handler text s

abbrev pub caught : {S A : Type 0} → Result A → S → (Bytes → Exec S A) → Result A × S
caught (ok a) s handler = (ok a, s)
caught (throw e) s handler = handle (what e) e s handler

-- `try { m } catch (const std::exception& exception) { handler(exception.what()) }`
abbrev pub try_catch : {S A : Type 0} → Exec S A → (Bytes → Exec S A) → Exec S A
try_catch m handler s = caught (m s).0 (m s).1 handler
