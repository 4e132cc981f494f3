-- ===== src/Tests/Files.antt =====
-- The theorems on the file buffer at a system that writes two bytes at a time.
use getbiblesword.Prelude.{
  ℕ, ◌≡◌, refl, arith, true, some, [], ◌∷◌, ◌++◌, Bytes, codes, length, take, min,
}
use getbiblesword.OrderedMap.{is_some}
use getbiblesword.FileOutput.{wrote, System, FileBuffer, write_rest, flush_file}
use getbiblesword.FileOutput.Writes.{Writes, Advances, flush_file-stored, flush_file-answers}

abbrev two_at_a_time : System Bytes
two_at_a_time file bytes = (wrote (min 2 (length bytes)), file ++ take (min 2 (length bytes)) bytes)

abbrev two_at_a_time-Writes : Writes two_at_a_time
two_at_a_time-Writes = record { stored = λ file. file; writes = λ file bytes. (omega arith, refl) }

two_at_a_time-Advances :
    (file : Bytes) (b : ℕ) (bytes : Bytes) → Advances (two_at_a_time file (b ∷ bytes)).0
two_at_a_time-Advances file b bytes = omega arith

abbrev five_pending : FileBuffer Bytes
five_pending = record { pending = codes "verse"; file = codes "a " }

flush-succeeds : (flush_file two_at_a_time 5 five_pending).0 ≡ some true
unfolding flush_file write_rest
flush-succeeds = refl

flush_file-stored_example :
    ((flush_file two_at_a_time 5 five_pending).1.file ≡ codes "a " ++ codes "verse")
    × ((flush_file two_at_a_time 5 five_pending).1.pending ≡ [])
flush_file-stored_example =
    flush_file-stored two_at_a_time two_at_a_time-Writes 5 five_pending flush-succeeds

flush_file-answers_example : is_some (flush_file two_at_a_time 5 five_pending).0 ≡ true
flush_file-answers_example = flush_file-answers two_at_a_time two_at_a_time-Advances five_pending
