-- ===== src/Extractor/Tracking/Stages.antt =====
-- Where a command is with its artifacts: before `emit_artifacts`, or behind it.
use getbiblesword.Prelude.{
  ℕ, ◌%◌, ◌^◌, ◌≡◌, refl, sym, ap, ◌∙◌, arith, ◌⊎◌, inl, inr, Bytes, List, [], ◌∷◌, ◌++◌,
  append-nil, append_assoc, All, All-append, length,
}
use getbiblesword.CommandLine.{same_text}
use getbiblesword.Ndjson.Records.{Record}
use getbiblesword.Artifact.{ArtifactCandidate, ArtifactResult, Diagnostic}
use getbiblesword.Artifact.Blocks.{Block, AreBlocks, records_of, size_of, contents_of}
use getbiblesword.Artifact.Stream.{diagnostic_records, IsReport}
use getbiblesword.Artifact.Answers.{answers}
use getbiblesword.Artifact.Discovery.{discover_artifacts}
use getbiblesword.Extractor.Commands.{World}
use getbiblesword.Extractor.Tallies.{IsOther, Stage}

abbrev pub no_artifacts : Stage
no_artifacts = record {
  of_artifacts = λ rs artifacts bytes. All IsOther rs × (artifacts ≡ 0) × (bytes ≡ 0);
  of_artifacts-append =
      λ rs added artifacts bytes others h. (All-append IsOther rs added h.0 others, h.1, h.2);
}

-- The candidates are those of a call of `discover_artifacts`.
abbrev pub IsDiscovered : World → List ArtifactCandidate → Type 0
IsDiscovered world candidates =
    (root data_path : Bytes) × (files : List Bytes) × (candidates
      ≡ (discover_artifacts world.paths world.tree root data_path files).output)

-- The blocks of the artifacts stand together among records that are of no artifact, and the two
-- numbers are the number of blocks and the sum of the sizes. The blocks have what the system answers
-- of the candidates.
pub record HasArtifacts (world : World) (limit : ℕ) (rs : List Record) (artifacts bytes : ℕ)
    : Type 0 where
  pub before : List Record
  pub blocks : List Block
  pub behind : List Record
  pub parts : rs ≡ before ++ (records_of blocks ++ behind)
  pub others_before : All IsOther before
  pub others_behind : All IsOther behind
  pub are_blocks : AreBlocks limit 0 blocks
  pub number : artifacts ≡ length blocks % 2 ^ 64
  pub sum : bytes ≡ size_of blocks % 2 ^ 64
  pub candidates : List ArtifactCandidate
  pub discovered : (candidates ≡ []) ⊎ IsDiscovered world candidates
  pub contents : contents_of blocks ≡ answers world.system limit candidates

pub HasArtifacts-append :
    (world : World) (limit : ℕ) (rs added : List Record) (artifacts bytes : ℕ)
    → All IsOther added
    → HasArtifacts world limit rs artifacts bytes
    → HasArtifacts world limit (rs ++ added) artifacts bytes
HasArtifacts-append world limit rs added artifacts bytes others h = record {
  before = h.before;
  blocks = h.blocks;
  behind = h.behind ++ added;
  parts =
      ap (λ (t : List Record). t ++ added) h.parts
      ∙ append_assoc h.before (records_of h.blocks ++ h.behind) added
      ∙ ap (λ (t : List Record). h.before ++ t) (append_assoc (records_of h.blocks) h.behind added);
  others_before = h.others_before;
  others_behind = All-append IsOther h.behind added h.others_behind others;
  are_blocks = h.are_blocks;
  number = h.number;
  sum = h.sum;
  candidates = h.candidates;
  discovered = h.discovered;
  contents = h.contents;
}

abbrev pub with_artifacts : World → ℕ → Stage
with_artifacts world limit = record {
  of_artifacts = HasArtifacts world limit;
  of_artifacts-append = HasArtifacts-append world limit;
}

pub no_artifacts-HasArtifacts :
    (world : World) (limit : ℕ) (rs : List Record) (artifacts bytes : ℕ)
    → no_artifacts.of_artifacts rs artifacts bytes
    → HasArtifacts world limit rs artifacts bytes
no_artifacts-HasArtifacts world limit rs artifacts bytes h = record {
  before = rs;
  blocks = [];
  behind = [];
  parts = sym (append-nil rs);
  others_before = h.0;
  others_behind = tt;
  are_blocks = tt;
  number = omega (arith, h.1);
  sum = omega (arith, h.2);
  candidates = [];
  discovered = inl refl;
  contents = refl;
}

diagnostic_records-AreOther : (ds : List Diagnostic) → All IsOther (diagnostic_records ds)
unfolding same_text
diagnostic_records-AreOther [] = tt
diagnostic_records-AreOther (d ∷ ds) = (refl, diagnostic_records-AreOther ds)

-- Behind `emit_artifacts`
pub report-HasArtifacts :
    (world : World) (limit : ℕ) (candidates : List ArtifactCandidate) (result : ArtifactResult)
    (rs added : List Record)
    → IsDiscovered world candidates
    → All IsOther rs
    → IsReport limit (answers world.system limit candidates) result added
    → HasArtifacts world limit (rs ++ added) result.artifacts result.bytes
report-HasArtifacts world limit candidates result rs added discovered others r = record {
  before = rs;
  blocks = r.blocks;
  behind = diagnostic_records result.diagnostics;
  parts = ap (λ (t : List Record). rs ++ t) r.records;
  others_before = others;
  others_behind = diagnostic_records-AreOther result.diagnostics;
  are_blocks = r.are_blocks;
  number = r.artifacts;
  sum = r.bytes;
  candidates = candidates;
  discovered = inr discovered;
  contents = r.contents;
}
