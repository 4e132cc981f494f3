-- ===== src/Artifact/Answers.antt =====
-- What the operating system answers of a candidate, apart from how the code asks: the bytes of an
-- artifact, or none where the candidate is skipped.
use getbiblesword.Prelude.{
  ℕ, ◌+◌, ◌≡◌, refl, Bool, true, false, ◌&&◌, List, [], ◌∷◌, ◌++◌, Bytes, ◌==◌, if◌then◌else◌,
}
use getbiblesword.Artifact.{
  ArtifactCandidate, Stat, Called, answered, failed, Read, received, interrupted, read_error,
  OpenFile, Visit, System, is_directory, is_symlink, is_regular, same_file_state,
}

-- All that the calls of `::read` give until one answers 0 or an error; an interrupted call is made again.
abbrev pub content : List Read → Bytes
content [] = []
content (received [] ∷ reads) = []
content (received (x ∷ xs) ∷ reads) = (x ∷ xs) ++ content reads
content (interrupted ∷ reads) = content reads
content (read_error errno ∷ reads) = []

-- The members that tell one state of a file from another
abbrev pub members : Stat → List ℕ
members s =
    s.device ∷ s.inode ∷ s.mode ∷ s.size ∷ s.modified ∷ s.modified_nanoseconds ∷ s.changed
    ∷ s.changed_nanoseconds ∷ []

abbrev pub same_numbers : List ℕ → List ℕ → Bool
same_numbers [] ys = true
same_numbers (x ∷ xs) [] = false
same_numbers (x ∷ xs) (y ∷ ys) = x == y && same_numbers xs ys

-- A path and the bytes of its artifact
abbrev pub Answer : Type 0
Answer = Bytes × Bytes

abbrev pub of_target : Bytes → Called Bytes → List Answer
of_target path (answered target) = (path, target) ∷ []
of_target path (failed errno) = []

abbrev pub of_opened : ℕ → Bytes → Stat → OpenFile → Called Stat → List Answer
of_opened limit path metadata file (failed errno) = []
of_opened limit path metadata file (answered opened) =
    if same_numbers (members metadata) (members opened)
    then (path, content (file.reads limit)) ∷ []
    else []

abbrev pub of_file : ℕ → Bytes → Stat → Called OpenFile → List Answer
of_file limit path metadata (failed errno) = []
of_file limit path metadata (answered file) = of_opened limit path metadata file file.opened

abbrev pub of_visit : ℕ → Bytes → Visit → Called Stat → List Answer
of_visit limit path v (failed errno) = []
of_visit limit path v (answered metadata) =
    if is_directory metadata.mode
    then (path, []) ∷ []
    else if is_symlink metadata.mode
    then of_target path (v.readlink (metadata.size + 1))
    else if is_regular metadata.mode
    then of_file limit path metadata v.open_file
    else []

-- The artifacts among the candidates, in their order
abbrev pub answers : System → ℕ → List ArtifactCandidate → List Answer
answers system limit [] = []
answers system limit (candidate ∷ candidates) =
    let v = system.visit candidate.absolute_path in
    of_visit limit candidate.relative_path v v.lstat ++ answers system limit candidates

and_true : (t : Bool) → (t && true) ≡ t
and_true true = refl
and_true false = refl

pub same_file_state-members :
    (before after : Stat)
    → same_file_state before after ≡ same_numbers (members before) (members after)
unfolding same_file_state
same_file_state-members before after = simp and_true
