-- ===== src/Artifact/Blocks.antt =====
-- The records of an artifact in the stream, and the results that go with them.
use getbiblesword.Prelude.{
  ℕ, suc, ◌+◌, ◌%◌, ◌^◌, ◌≤◌, ◌<◌, ◌≡◌, refl, sym, ap, ap₂, subst, ◌∙◌, arith, ◌⊎◌, Bool, true,
  false, some, List, [], ◌∷◌, ◌++◌, append_assoc, Bytes, codes, All, All-append, length,
  length-append, concat,
}
use getbiblesword.OrderedMap.{lookup}
use getbiblesword.Sha256.{hex_bytes}
use getbiblesword.Sha256.Padding.{standard_digest}
use getbiblesword.Json.{json_string, to_string}
use getbiblesword.ByteValue.{byte_value_json}
use getbiblesword.Ndjson.{JsonFields}
use getbiblesword.Ndjson.Records.{Record}
use getbiblesword.Ndjson.Emits.{is_reserved}
use getbiblesword.Artifact.Answers.{Answer}
use getbiblesword.Artifact.{
  Diagnostic, ArtifactResult, Progress, chunk_fields, diagnostic_fields, report,
}

-- The records of the chunks, numbered from `index` on
abbrev pub chunk_records : ℕ → ℕ → List Bytes → List Record
chunk_records artifact_id index [] = []
chunk_records artifact_id index (piece ∷ pieces) =
    record {
      type = codes "artifact_chunk";
      fields = chunk_fields artifact_id piece (index % 2 ^ 64);
    }
    ∷ chunk_records artifact_id (suc index) pieces

abbrev pub begin_record : JsonFields → Record
begin_record fields = record { type = codes "artifact_begin"; fields = fields }

abbrev pub last_record : JsonFields → Record
last_record fields = record { type = codes "artifact_end"; fields = fields }

-- The records of an artifact, with the bytes that they stand for
pub record Block : Type 0 where
  pub records : List Record
  pub path : Bytes
  pub whole : Bytes

-- The bytes are in the chunks, or in the field for the target of a symbolic link; the last record
-- has their size and their digest by FIPS 180-4.
pub record IsBlock (limit artifact_id : ℕ) (b : Block) : Type 0 where
  pub begin_fields : JsonFields
  pub pieces : List Bytes
  pub last_fields : JsonFields
  pub shape :
      b.records
      ≡ begin_record begin_fields
        ∷ (chunk_records artifact_id 0 pieces ++ (last_record last_fields ∷ []))
  pub begin_numbered : lookup (codes "artifact_id") begin_fields ≡ some (to_string artifact_id)
  pub placed : lookup (codes "path") begin_fields ≡ some (byte_value_json b.path)
  pub last_numbered : lookup (codes "artifact_id") last_fields ≡ some (to_string artifact_id)
  pub hashed :
      lookup (codes "sha256") last_fields ≡ some (json_string (hex_bytes (standard_digest b.whole)))
  pub sized : lookup (codes "size") last_fields ≡ some (to_string (length b.whole % 2 ^ 64))
  pub carried :
      (b.whole ≡ concat pieces)
      ⊎ (lookup (codes "target") begin_fields ≡ some (byte_value_json b.whole))
  pub fit : All (λ piece. length piece ≤ limit) pieces

-- Blocks with consecutive numbers
abbrev pub AreBlocks : ℕ → ℕ → List Block → Type 0
AreBlocks limit k [] = Unit
AreBlocks limit k (b ∷ bs) = IsBlock limit (k % 2 ^ 64) b × AreBlocks limit (suc k) bs

abbrev pub records_of : List Block → List Record
records_of [] = []
records_of (b ∷ bs) = b.records ++ records_of bs

abbrev pub size_of : List Block → ℕ
size_of [] = 0
size_of (b ∷ bs) = length b.whole + size_of bs

records_of-append : (bs cs : List Block) → records_of (bs ++ cs) ≡ records_of bs ++ records_of cs
records_of-append [] cs = refl
records_of-append (b ∷ bs) cs =
    ap (λ (t : List Record). b.records ++ t) (records_of-append bs cs)
    ∙ sym (append_assoc b.records (records_of bs) (records_of cs))

size_of-append : (bs cs : List Block) → size_of (bs ++ cs) ≡ size_of bs + size_of cs
size_of-append [] cs = omega arith
size_of-append (b ∷ bs) cs = omega (arith, size_of-append bs cs)

AreBlocks-append :
    (limit k : ℕ) (bs cs : List Block)
    → AreBlocks limit k bs
    → AreBlocks limit (k + length bs) cs
    → AreBlocks limit k (bs ++ cs)
AreBlocks-append limit k [] cs h g = subst (λ (n : ℕ). AreBlocks limit n cs) (omega arith) g
AreBlocks-append limit k (b ∷ bs) cs h g = (
  h.0,
  AreBlocks-append limit (suc k) bs cs h.1
      (subst (λ (n : ℕ). AreBlocks limit n cs) (omega arith) g),
)

abbrev pub is_nil : List Diagnostic → Bool
is_nil [] = true
is_nil (d ∷ ds) = false

-- An error that `emit` accepts
abbrev pub IsError : Diagnostic → Type 0
IsError d =
    (d.severity ≡ codes "error")
    × (is_reserved (diagnostic_fields d) ≡ false)
    × (lookup (codes "severity") (diagnostic_fields d) ≡ some (json_string d.severity))

-- The result fails exactly where it has a diagnostic, and each is an error.
pub record IsConsistent (result : ArtifactResult) : Type 0 where
  pub success_is : result.success ≡ is_nil result.diagnostics
  pub are_errors : All IsError result.diagnostics
  pub artifacts_in_word : result.artifacts < 2 ^ 64
  pub bytes_in_word : result.bytes < 2 ^ 64

is_nil-append : (ds : List Diagnostic) (d : Diagnostic) → is_nil (ds ++ (d ∷ [])) ≡ false
is_nil-append [] d = refl
is_nil-append (e ∷ ds) d = refl

pub report-IsConsistent :
    (result : ArtifactResult) (d : Diagnostic)
    → IsError d
    → IsConsistent result
    → IsConsistent (report result d)
report-IsConsistent result d e h = record {
  success_is = sym (is_nil-append result.diagnostics d);
  are_errors = All-append IsError result.diagnostics (d ∷ []) h.are_errors (e, tt);
  artifacts_in_word = h.artifacts_in_word;
  bytes_in_word = h.bytes_in_word;
}

-- The candidates visited so far are `k` artifacts; these blocks come with some further candidates.
-- The paths and the bytes of the blocks
abbrev pub contents_of : List Block → List Answer
contents_of [] = []
contents_of (b ∷ bs) = (b.path, b.whole) ∷ contents_of bs

contents_of-append :
    (bs cs : List Block) → contents_of (bs ++ cs) ≡ contents_of bs ++ contents_of cs
contents_of-append [] cs = refl
contents_of-append (b ∷ bs) cs =
    ap (λ (t : List Answer). (b.path, b.whole) ∷ t) (contents_of-append bs cs)

pub record Adds (limit : ℕ) (expected : List Answer) (k : ℕ) (result : ArtifactResult)
    (p : Progress) (rs : List Record) : Type 0 where
  pub blocks : List Block
  pub records : rs ≡ records_of blocks
  pub are_blocks : AreBlocks limit k blocks
  pub numbered : p.0 ≡ (k + length blocks) % 2 ^ 64
  pub artifacts : p.1.artifacts ≡ (result.artifacts + length blocks) % 2 ^ 64
  pub bytes : p.1.bytes ≡ (result.bytes + size_of blocks) % 2 ^ 64
  pub consistent : IsConsistent p.1
  pub contents : contents_of blocks ≡ expected

pub Adds-append :
    (limit : ℕ) (expected expected' : List Answer) (k : ℕ) (result : ArtifactResult)
    (p q : Progress) (rs later : List Record)
    → (first : Adds limit expected k result p rs)
    → Adds limit expected' (k + length first.blocks) p.1 q later
    → Adds limit (expected ++ expected') k result q (rs ++ later)
Adds-append limit expected expected' k result p q rs later first second = record {
  blocks = first.blocks ++ second.blocks;
  records =
      ap₂ (λ (s t : List Record). s ++ t) first.records second.records
      ∙ sym (records_of-append first.blocks second.blocks);
  are_blocks =
      AreBlocks-append limit k first.blocks second.blocks first.are_blocks second.are_blocks;
  numbered = omega (arith, second.numbered, length-append first.blocks second.blocks);
  artifacts =
      omega (arith, first.artifacts, second.artifacts, length-append first.blocks second.blocks);
  bytes = omega (arith, first.bytes, second.bytes, size_of-append first.blocks second.blocks);
  consistent = second.consistent;
  contents =
      contents_of-append first.blocks second.blocks
      ∙ ap₂ (λ (s t : List Answer). s ++ t) first.contents second.contents;
}
