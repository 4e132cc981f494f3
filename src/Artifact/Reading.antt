-- ===== src/Artifact/Reading.antt =====
-- The loop over `::read` of src/artifact.cpp, by the records that it adds.
use getbiblesword.Prelude.{
  ℕ, suc, ◌%◌, ◌^◌, ◌≤◌, ◌≡◌, refl, sym, ap, ap₂, subst, ◌∙◌, arith, List, [], ◌∷◌, ◌++◌,
  append-nil, append_assoc, Bytes, codes, All, length, length-append, concat,
}
use getbiblesword.OrderedMap.{lookup, upsert}
use getbiblesword.OrderedMap.Order.{order}
use getbiblesword.Sha256.Stream.Update.{Streams, update-Streams}
use getbiblesword.Ndjson.{Ostream}
use getbiblesword.Ndjson.Records.{Collects, Record}
use getbiblesword.Ndjson.Emits.{StaysBad, Emits, pure-Emits, weaken-Emits, emit_then-Emits}
use getbiblesword.Artifact.{
  ArtifactCandidate, Called, answered, failed, OpenFile, diagnostic_fields, Read, received,
  interrupted, read_error, System, chunk_fields,
}
use getbiblesword.Artifact.Answers.{content}
use getbiblesword.Artifact.Files.{Reading, take_chunk, read_chunks}
use getbiblesword.Artifact.Blocks.{chunk_records, IsConsistent, report-IsConsistent}

-- What POSIX documents of `read`: no more than the capacity is answered.
abbrev pub Fits : ℕ → Read → Type 0
Fits limit (received bytes) = length bytes ≤ limit
Fits limit interrupted = Unit
Fits limit (read_error errno) = Unit

abbrev pub FileFits : ℕ → Called OpenFile → Type 0
FileFits limit (answered file) = All (Fits limit) (file.reads limit)
FileFits limit (failed errno) = Unit

-- The variables of the loop, where `index` chunks with the bytes `done` have been read
pub record IsReading (index : ℕ) (done : Bytes) (r : Reading) : Type 0 where
  pub hashed : Streams r.hash done
  pub summed : r.total ≡ length done % 2 ^ 64
  pub indexed : r.chunk_index ≡ index % 2 ^ 64
  pub consistent : IsConsistent r.result

pub record HasRead (limit : ℕ) (expected : Bytes) (artifact_id index : ℕ) (done : Bytes)
    (r r' : Reading) (rs : List Record) : Type 0 where
  pub pieces : List Bytes
  pub records : rs ≡ chunk_records artifact_id index pieces
  pub hashed : Streams r'.hash (done ++ concat pieces)
  pub summed : r'.total ≡ length (done ++ concat pieces) % 2 ^ 64
  pub consistent : IsConsistent r'.result
  pub same_artifacts : r'.result.artifacts ≡ r.result.artifacts
  pub same_bytes : r'.result.bytes ≡ r.result.bytes
  pub fit : All (λ piece. length piece ≤ limit) pieces
  pub contents : concat pieces ≡ expected

module _ (o : Ostream) (c : Collects o) (b : StaysBad o) (start : Bytes) (limit : ℕ) where
  module _ (system : System) (artifact_id : ℕ) (candidate : ArtifactCandidate) where
    -- Where the loop ends
    end-HasRead :
        (index : ℕ) (done : Bytes) (r r' : Reading)
        → IsReading index done r
        → r'.hash ≡ r.hash
        → r'.total ≡ r.total
        → IsConsistent r'.result
        → r'.result.artifacts ≡ r.result.artifacts
        → r'.result.bytes ≡ r.result.bytes
        → HasRead limit [] artifact_id index done r r' []
    end-HasRead index done r r' h same_hash same_total g count sum = record {
      pieces = [];
      records = refl;
      hashed = rw (same_hash, append-nil) h.hashed;
      summed =
          same_total ∙ h.summed ∙ ap (λ (t : Bytes). length t % 2 ^ 64) (sym (append-nil done));
      consistent = g;
      same_artifacts = count;
      same_bytes = sum;
      fit = tt;
      contents = refl;
    }

    take-IsReading :
        (index : ℕ) (done chunk : Bytes) (r : Reading)
        → IsReading index done r
        → IsReading (suc index) (done ++ chunk) (take_chunk r chunk)
    take-IsReading index done chunk r h = record {
      hashed = update-Streams r.hash done chunk h.hashed;
      summed = omega (arith, h.summed, length-append done chunk);
      indexed = omega (arith, h.indexed);
      consistent = h.consistent;
    }

    take-HasRead :
        (expected : Bytes) (index : ℕ) (done chunk : Bytes) (r r' : Reading) (later : List Record)
        → r.chunk_index ≡ index % 2 ^ 64
        → length chunk ≤ limit
        → HasRead limit expected artifact_id
            (suc index)
            (done ++ chunk)
            (take_chunk r chunk)
            r'
            later
        → HasRead limit (chunk ++ expected) artifact_id index done r r' (
            record {
              type = codes "artifact_chunk";
              fields = chunk_fields artifact_id chunk r.chunk_index;
            }
            ∷ later)
    take-HasRead expected index done chunk r r' later number small h = record {
      pieces = chunk ∷ h.pieces;
      records =
          ap₂
            (λ (i : ℕ) (t : List Record).
              record { type = codes "artifact_chunk"; fields = chunk_fields artifact_id chunk i }
              ∷ t)
            number h.records;
      hashed = subst (Streams r'.hash) (append_assoc done chunk (concat h.pieces)) h.hashed;
      summed =
          h.summed
          ∙ ap (λ (t : Bytes). length t % 2 ^ 64) (append_assoc done chunk (concat h.pieces));
      consistent = h.consistent;
      same_artifacts = h.same_artifacts;
      same_bytes = h.same_bytes;
      fit = (small, h.fit);
      contents = ap (λ (t : Bytes). chunk ++ t) h.contents;
    }

    pub read_chunks-Emits :
        (reads : List Read) (index : ℕ) (done : Bytes) (r : Reading)
        → All (Fits limit) reads
        → IsReading index done r
        → Emits o c b start
            (read_chunks system o artifact_id candidate reads r)
            (HasRead limit (content reads) artifact_id index done r)
    unfolding read_chunks chunk_fields diagnostic_fields lookup upsert order
    read_chunks-Emits [] index done r fits h =
        pure-Emits o c b start _ _ (end-HasRead index done r r h refl refl h.consistent refl refl)
    read_chunks-Emits (received [] ∷ reads) index done r fits h =
        pure-Emits o c b start _ _ (end-HasRead index done r r h refl refl h.consistent refl refl)
    read_chunks-Emits (received (x ∷ xs) ∷ reads) index done r fits h =
        emit_then-Emits o c b start (codes "artifact_chunk") _ _ _ refl (
          weaken-Emits o c b start _ _ _
            (λ r' later g.
              take-HasRead (content reads) index done (x ∷ xs) r r' later h.indexed fits.0 g)
            (read_chunks-Emits reads (suc index) (done ++ (x ∷ xs)) (take_chunk r (x ∷ xs)) fits.1
              (take-IsReading index done (x ∷ xs) r h)))
    read_chunks-Emits (interrupted ∷ reads) index done r fits h =
        read_chunks-Emits reads index done r fits.1 h
    read_chunks-Emits (read_error errno ∷ reads) index done r fits h = pure-Emits o c b start _ _ (
        end-HasRead index done r _ h refl refl
          (report-IsConsistent r.result _ (refl, refl, refl) h.consistent) refl refl)
