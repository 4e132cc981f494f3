-- ===== src/Extractor/Tracking/Complete.antt =====
-- How a command ends, and how it starts.
use getbiblesword.Prelude.{
  ℕ, ap, ap₂, some, ◌∷◌, [], ◌%◌, ◌^◌, ◌≤◌, ◌≡◌, refl, sym, ◌∙◌, arith, inl, Bool, true, false,
  List, [], ◌++◌, Bytes, codes, ◌==◌, if◌then◌else◌, eq_of_==,
}
use getbiblesword.Exec.{Exception, Result, ok, throw, Exec, pure, bind_result}
use getbiblesword.OrderedMap.{lookup, upsert, emplace}
use getbiblesword.OrderedMap.Order.{order}
use getbiblesword.CallbackStream.{is_empty}
use getbiblesword.CommandLine.{same_text}
use getbiblesword.Json.{to_string}
use getbiblesword.Ndjson.{Ostream, JsonFields, object_json, Writer, finish}
use getbiblesword.Ndjson.Records.{Collects, Record, text_of}
use getbiblesword.Ndjson.FooterLine.{
  object_text, object_json-text, IsFooter, IsFree, footer_line-IsFooter,
}
use getbiblesword.Ndjson.Footer.{finish-footer}
use getbiblesword.Ndjson.Emits.{StaysBad, is_reserved, IsBroken}
use getbiblesword.Extractor.{
  DiagnosticCounts, Session, on_writer, emit_header, header_base, header_fields, footer_fields,
  finish_with,
}
use getbiblesword.Extractor.Commands.{World, conclude_command}
use getbiblesword.Extractor.Tallies.{
  Stage, errors_in, warnings_in, entries_in, AreNumbered, IsTallied,
}
use getbiblesword.Extractor.Tracking.{IsTracked, HasWritten, After, Keeps, Tracks}
use getbiblesword.Extractor.Tracking.Steps.{emit_quiet-Tracks}

-- The members of a command's footer beside those of every footer: how many entries and artifacts the
-- records are and the bytes of the artifacts' blocks, and an object with how many diagnostics of each severity
-- the records are. The number of the hints is not stated.
pub record HasCounts (records : List Record) (artifacts artifact_bytes : ℕ) (members : JsonFields)
    : Type 0 where
  pub entries_are :
      lookup (codes "entries") members ≡ some (to_string (entries_in records % 2 ^ 64))
  pub artifacts_are : lookup (codes "artifacts") members ≡ some (to_string artifacts)
  pub artifact_bytes_are : lookup (codes "artifact_bytes") members ≡ some (to_string artifact_bytes)
  pub info : ℕ
  pub diagnostics_are :
      lookup (codes "diagnostics") members
      ≡ some (
          object_text (
            (codes "error", to_string (errors_in records % 2 ^ 64))
            ∷ (codes "info", to_string info)
            ∷ (codes "warning", to_string (warnings_in records % 2 ^ 64))
            ∷ []))

-- Records, the entries among them numbered from 0, and a footer with their counts; success is that no error was counted.
pub record IsStream (G : Stage) (success : Bool) (bytes : Bytes) : Type 0 where
  pub records : List Record
  pub numbered : AreNumbered 0 records
  pub artifacts : ℕ
  pub artifact_bytes : ℕ
  pub staged : G.of_artifacts records artifacts artifact_bytes
  pub footer : Bytes
  pub bytes_are : bytes ≡ text_of records ++ footer
  pub fields : JsonFields
  pub ends : IsFooter records success fields footer
  pub counts : HasCounts records artifacts artifact_bytes ends.members
  pub succeeds : success ≡ true → errors_in records % 2 ^ 64 ≡ 0
  pub fails : success ≡ false → 1 ≤ errors_in records

footer_fields-IsFree :
    (counts : DiagnosticCounts) (entries artifacts artifact_bytes : ℕ)
    → IsFree (footer_fields counts entries artifacts artifact_bytes)
unfolding footer_fields lookup order
footer_fields-IsFree counts entries artifacts artifact_bytes =
    (refl, (refl, (refl, (refl, (refl, tt)))))

footer_fields-HasCounts :
    (diagnostics : DiagnosticCounts) (records : List Record) (entries artifacts artifact_bytes : ℕ)
    (members : JsonFields)
    → IsTallied diagnostics entries records
    → ((name value : Bytes)
        → lookup name (footer_fields diagnostics entries artifacts artifact_bytes) ≡ some value
        → lookup name members ≡ some value)
    → HasCounts records artifacts artifact_bytes members
unfolding footer_fields lookup order
footer_fields-HasCounts diagnostics records entries artifacts artifact_bytes members h kept =
    record {
      entries_are =
          kept (codes "entries") (to_string entries) refl
          ∙ ap (λ (n : ℕ). some (to_string n)) h.counted;
      artifacts_are = kept (codes "artifacts") (to_string artifacts) refl;
      artifact_bytes_are = kept (codes "artifact_bytes") (to_string artifact_bytes) refl;
      info = diagnostics.info;
      diagnostics_are =
          kept (codes "diagnostics")
            (object_json (members_of diagnostics.error diagnostics.warning)) refl
          ∙ ap some (object_json-text (members_of diagnostics.error diagnostics.warning))
          ∙ ap₂ (λ (e w : ℕ). some (object_text (members_of e w))) h.errors h.warnings;
    }
  where
    members_of : ℕ → ℕ → JsonFields
    members_of e w =
        (codes "error", to_string e)
        ∷ (codes "info", to_string diagnostics.info)
        ∷ (codes "warning", to_string w)
        ∷ []

module _ (o : Ostream) (c : Collects o) (b : StaysBad o) (start : Bytes) where
  -- The writer is closed behind such a stream.
  pub record IsComplete (G : Stage) (success : Bool) (w : Writer o.Stream) : Type 0 where
    pub bytes : Bytes
    pub stream : IsStream G success bytes
    pub output_is : c.written w.output ≡ start ++ bytes
    pub closed : w.finished ≡ true

  abbrev pub IsDone : Stage → Bool → Session o.Stream → Type 0
  IsDone G success s = IsComplete G success s.writer

  finish-IsBroken :
      (success : Bool) (fields : JsonFields) (w : Writer o.Stream) {x : Exception}
      → w.finished ≡ false
      → (finish o success fields w).0 ≡ throw x
      → IsBroken o c b start (finish o success fields w).1
  unfolding finish
  finish-IsBroken success fields w unfinished e = ground arith

  module _ (B : Stage) (X : Exception → Type 0) where
    -- The root that a command goes on with
    abbrev pub RootIs : Bytes → Session o.Stream → Type 0
    RootIs root s =
        (rs : List Record) × HasWritten o c b start B s rs
        × (is_empty root ≡ true → 1 ≤ errors_in rs)

    pub emit_header-Tracks :
        (world : World) (command : Bytes) (chunk_size : ℕ)
        → Tracks o c b start B X (emit_header o world.versions command chunk_size)
    unfolding emit_header header_fields lookup upsert order same_text
    emit_header-Tracks world command chunk_size =
        emit_quiet-Tracks o c b start B X (codes "header") _ (free (chunk_size == 0)) (refl, refl)
          refl
      where
        free :
            (t : Bool)
            → is_reserved (
                if t
                then header_base world.versions command
                else emplace
                    (codes "artifact_chunk_size")
                    (to_string chunk_size)
                    (header_base world.versions command))
              ≡ false
        free true = refl
        free false = refl

  -- The command is behind the stage `B`, and ends at the stage `G`.
  module _ (G B : Stage) (X : Exception → Type 0) where
    pub finish_with-After :
        (success : Bool) (s : Session o.Stream) (rs : List Record)
        → HasWritten o c b start G s rs
        → (success ≡ true → errors_in rs % 2 ^ 64 ≡ 0)
        → (success ≡ false → 1 ≤ errors_in rs)
        → After o c b start B X (IsDone G) (finish_with o success s).0 (finish_with o success s).1
    unfolding finish_with on_writer
    finish_with-After success s rs h succeeds fails =
        by_result (finish o success fields s.writer).0 refl
      where
        fields : JsonFields
        fields = footer_fields s.diagnostics s.entries s.artifacts s.artifact_bytes

        by_result :
            (r : Result (Unit {0}))
            → (finish o success fields s.writer).0 ≡ r
            → let s' = record s { writer = (finish o success fields s.writer).1 } in
              let r' = bind_result r s' (λ u. pure success) in
              After o c b start B X (IsDone G) r'.0 r'.1
        by_result (ok tt) e =
            let footer = finish-footer o c start success fields s.writer rs h.holds e in
            let free = footer_fields-IsFree s.diagnostics s.entries s.artifacts s.artifact_bytes in
            let ends = footer_line-IsFooter rs success fields free in
            record {
              bytes = _;
              stream = record {
                records = rs;
                numbered = h.tallied.numbered;
                artifacts = s.artifacts;
                artifact_bytes = s.artifact_bytes;
                staged = h.staged;
                footer = _;
                bytes_are = refl;
                fields = fields;
                ends = ends;
                counts =
                    footer_fields-HasCounts s.diagnostics rs s.entries s.artifacts s.artifact_bytes
                      ends.members h.tallied ends.kept;
                succeeds = succeeds;
                fails = fails;
              };
              output_is = footer.0;
              closed = footer.1;
            }
        by_result (throw x) e = inl (finish-IsBroken success fields s.writer h.holds.unfinished e)

    pub conclude_command-After :
        (world : World) (s : Session o.Stream)
        → IsTracked o c b start G s
        → After o c b start B X
            (IsDone G)
            (conclude_command o world s).0
            (conclude_command o world s).1
    unfolding conclude_command
    conclude_command-After world s h =
        let errors = h.1.tallied.errors in
        finish_with-After (s.diagnostics.error == 0) s h.0 h.1
          (λ e. sym errors ∙ eq_of_== s.diagnostics.error 0 e)
          (λ e. nonzero s.diagnostics.error (errors_in h.0) errors e)
      where
        nonzero : (n m : ℕ) → n ≡ m % 2 ^ 64 → (n == 0) ≡ false → 1 ≤ m
        nonzero n m e h = ground arith

    pub root-After :
        (root : Bytes) (rest : Exec (Session o.Stream) Bool) (s : Session o.Stream)
        → ((rs : List Record) (artifacts bytes : ℕ)
            → B.of_artifacts rs artifacts bytes
            → G.of_artifacts rs artifacts bytes)
        → RootIs B X root s
        → Keeps o c b start B X rest (IsDone G)
        → After o c b start B X
            (IsDone G)
            ((if is_empty root then finish_with o false else rest) s).0
            ((if is_empty root then finish_with o false else rest) s).1
    root-After root rest s grow q em = branch (is_empty root) q.2
      where
        grown : HasWritten o c b start G s q.0
        grown = record {
          holds = q.1.holds;
          tallied = q.1.tallied;
          staged = grow q.0 s.artifacts s.artifact_bytes q.1.staged;
        }

        branch :
            (t : Bool)
            → (t ≡ true → 1 ≤ errors_in q.0)
            → After o c b start B X
                (IsDone G)
                ((if t then finish_with o false else rest) s).0
                ((if t then finish_with o false else rest) s).1
        branch true errors = finish_with-After false s q.0 grown (λ e. cc) (λ e. errors refl)
        branch false errors = em.run s (q.0, q.1)
