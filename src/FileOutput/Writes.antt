-- ===== src/FileOutput/Writes.antt =====
-- What reaches the file: the bytes of the buffer, in order, over partial writes and interrupts.
use getbiblesword.Prelude.{
  ℕ, zero, suc, ◌≤◌, ◌≡◌, refl, sym, ap, ◌∙◌, arith, Bool, true, false, Option, some, [], ◌∷◌, ◌++◌,
  append-nil, append_assoc, Bytes, length, length-drop, take, drop, take-append-drop,
}
use getbiblesword.OrderedMap.{is_some}
use getbiblesword.FileOutput.{
  Count, wrote, interrupted, failed, System, FileBuffer, write_rest, flush_file,
}

-- What a count says of the file before and behind the call.
abbrev pub Written : Count → Bytes → Bytes → Bytes → Type 0
Written (wrote count) bytes before behind =
    (count ≤ length bytes) × (behind ≡ before ++ take count bytes)
Written interrupted bytes before behind = behind ≡ before
Written failed bytes before behind = behind ≡ before

-- What POSIX documents of `write`.
pub record Writes {File : Type 0} (system : System File) : Type 0 where
  pub stored : File → Bytes
  pub writes :
      (file : File) (bytes : Bytes)
      → Written (system file bytes).0 bytes (stored file) (stored (system file bytes).1)

-- One round of the loop, by the answer of `write`.
abbrev round : {File : Type 0} → System File → ℕ → Bytes → File → Count → Option Bool × File
round system fuel bytes behind (wrote count) = write_rest system fuel (drop count bytes) behind
round system fuel bytes behind interrupted = write_rest system fuel bytes behind
round system fuel bytes behind failed = (some false, behind)

write_rest-round :
    {File : Type 0} (system : System File) (fuel b : ℕ) (bytes : Bytes) (file : File)
    → write_rest system (suc fuel) (b ∷ bytes) file
      ≡ round system fuel (b ∷ bytes) (system file (b ∷ bytes)).1 (system file (b ∷ bytes)).0
unfolding write_rest
write_rest-round system fuel b bytes file = by_count (system file (b ∷ bytes)).0
  where
    by_count :
        (count : Count)
        → elim count [
          | wrote count ↦
              write_rest system fuel (drop count (b ∷ bytes)) (system file (b ∷ bytes)).1
          | interrupted ↦ write_rest system fuel (b ∷ bytes) (system file (b ∷ bytes)).1
          | failed ↦ (some false, (system file (b ∷ bytes)).1)
        ]
          ≡ round system fuel (b ∷ bytes) (system file (b ∷ bytes)).1 count
    by_count (wrote count) = refl
    by_count interrupted = refl
    by_count failed = refl

module _ {File : Type 0} (system : System File) (w : Writes system) where
  abbrev Stores : ℕ → Type 0
  Stores fuel =
      (bytes : Bytes) (file : File)
      → (write_rest system fuel bytes file).0 ≡ some true
      → w.stored (write_rest system fuel bytes file).1 ≡ w.stored file ++ bytes

  round-stored :
      (fuel : ℕ) (bytes : Bytes) (file behind : File) (count : Count)
      → Stores fuel
      → Written count bytes (w.stored file) (w.stored behind)
      → (round system fuel bytes behind count).0 ≡ some true
      → w.stored (round system fuel bytes behind count).1 ≡ w.stored file ++ bytes
  round-stored fuel bytes file behind (wrote count) later written h =
      later (drop count bytes) behind h
      ∙ ap (λ (t : Bytes). t ++ drop count bytes) written.1
      ∙ append_assoc (w.stored file) (take count bytes) (drop count bytes)
      ∙ ap (λ (t : Bytes). w.stored file ++ t) (take-append-drop count bytes)
  round-stored fuel bytes file behind interrupted later written h =
      later bytes behind h ∙ ap (λ (t : Bytes). t ++ bytes) written
  round-stored fuel bytes file behind failed later written h = absurd (ground arith)

  write_rest-stored : (fuel : ℕ) → Stores fuel
  write_rest-stored fuel [] file h = unfold write_rest in sym (append-nil _)
  write_rest-stored zero (b ∷ bytes) file h = absurd (unfold write_rest in ground arith)
  write_rest-stored (suc fuel) (b ∷ bytes) file h =
      let step = write_rest-round system fuel b bytes file in
      rw step (
        round-stored fuel (b ∷ bytes) file (system file (b ∷ bytes)).1 (system file (b ∷ bytes)).0
          (write_rest-stored fuel) (w.writes file (b ∷ bytes)) (rw step at h))

  -- Where `write` stores the bytes that it counts, a flush that succeeds has written all that was pending, once and in order, over any partial
  -- writes and interrupts, and leaves an empty buffer.
  pub flush_file-stored :
      (fuel : ℕ) (s : FileBuffer File)
      → (flush_file system fuel s).0 ≡ some true
      → (w.stored (flush_file system fuel s).1.file ≡ w.stored s.file ++ s.pending)
        × ((flush_file system fuel s).1.pending ≡ [])
  unfolding flush_file
  flush_file-stored fuel s h = (write_rest-stored fuel s.pending s.file h, rw h refl)

-- A call that is not interrupted and does not fail takes a byte at least.
abbrev pub Advances : Count → Type 0
Advances (wrote count) = 1 ≤ count
Advances interrupted = ⊥
Advances failed = Unit

module _ {File : Type 0} (system : System File)
    (advances : (file : File) (b : ℕ) (bytes : Bytes) → Advances (system file (b ∷ bytes)).0) where
  abbrev EndsWithin : ℕ → Type 0
  EndsWithin fuel =
      (bytes : Bytes) (file : File)
      → length bytes ≤ fuel
      → is_some (write_rest system fuel bytes file).0 ≡ true

  round-answers :
      (fuel b : ℕ) (bytes : Bytes) (behind : File) (count : Count)
      → EndsWithin fuel
      → length bytes ≤ fuel
      → Advances count
      → is_some (round system fuel (b ∷ bytes) behind count).0 ≡ true
  round-answers fuel b bytes behind (wrote count) later h a =
      later (drop count (b ∷ bytes)) behind (omega (arith, length-drop count (b ∷ bytes)))
  round-answers fuel b bytes behind interrupted later h a = absurd a
  round-answers fuel b bytes behind failed later h a = refl

  write_rest-answers : (fuel : ℕ) → EndsWithin fuel
  write_rest-answers fuel [] file h = unfold write_rest in refl
  write_rest-answers zero (b ∷ bytes) file h = absurd (omega arith)
  write_rest-answers (suc fuel) (b ∷ bytes) file h =
      rw (write_rest-round system fuel b bytes file) (
        round-answers fuel b bytes (system file (b ∷ bytes)).1 (system file (b ∷ bytes)).0
          (write_rest-answers fuel) (omega arith) (advances file b bytes))

  -- Where no call is interrupted and each takes a byte or fails, the loop ends within as many rounds
  -- as bytes are pending.
  pub flush_file-answers :
      (s : FileBuffer File) → is_some (flush_file system (length s.pending) s).0 ≡ true
  unfolding flush_file
  flush_file-answers s = write_rest-answers (length s.pending) s.pending s.file (omega arith)
