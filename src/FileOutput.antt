-- ===== src/FileOutput.antt =====
-- src/main.cpp: the class `FileDescriptorBuffer`. The bytes from `pbase()` to `pptr()` are
-- `pending`. The call `::write` is a parameter. The retries after an interrupt have fuel: a system
-- that interrupts every call is not served by the code either.
pub mod Writes
use getbiblesword.Prelude.{
  ℕ, zero, suc, ◌+◌, ◌*◌, Bool, true, false, not, Option, none, some, List, [], ◌∷◌, ◌++◌, Bytes,
  length, drop, ltb, if◌then◌else◌,
}

-- What `::write` answers: a number of bytes, or -1 with `errno`, which is `EINTR` or another.
pub data Count : Type 0 where
  wrote : ℕ → Count
  interrupted failed : Count

abbrev pub System : Type 0 → Type 0
System File = File → Bytes → Count × File

pub record FileBuffer (File : Type 0) : Type 0 where
  pub pending : Bytes
  pub file : File

-- Whether the call has answered with success.
abbrev pub or_false : Option Bool → Bool
or_false none = false
or_false (some b) = b

module _ {File : Type 0} (system : System File) where
  -- The loop of `flush_pending` over the bytes from `pbase() + written` on. `none` where the fuel is used up.
  unfoldable pub write_rest : ℕ → Bytes → File → Option Bool × File
  write_rest fuel [] file = (some true, file)
  write_rest zero (b ∷ bytes) file = (none, file)
  write_rest (suc fuel) (b ∷ bytes) file = elim (system file (b ∷ bytes)).0 [
    | wrote count ↦ write_rest fuel (drop count (b ∷ bytes)) (system file (b ∷ bytes)).1
    | interrupted ↦ write_rest fuel (b ∷ bytes) (system file (b ∷ bytes)).1
    | failed ↦ (some false, (system file (b ∷ bytes)).1)
  ]

  -- `flush_pending`; a file that fails keeps what is pending in the buffer.
  unfoldable pub flush_file : ℕ → FileBuffer File → Option Bool × FileBuffer File
  unfolding write_rest
  flush_file fuel s =
      let (outcome, file) = write_rest fuel s.pending s.file in
      (outcome, record { pending = if or_false outcome then [] else s.pending; file = file })

  -- `overflow(character)`; `none` stands for `eof()`.
  unfoldable pub overflow_file : ℕ → Option ℕ → FileBuffer File → Option Bool × FileBuffer File
  unfolding flush_file
  overflow_file fuel character s =
      let (outcome, flushed) = flush_file fuel s in
      (
        outcome,
        if or_false outcome
            then record flushed { pending = elim character [ none ↦ [] | some c ↦ c ∷ [] ] }
            else flushed,
      )
