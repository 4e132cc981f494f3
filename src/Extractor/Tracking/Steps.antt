-- ===== src/Extractor/Tracking/Steps.antt =====
-- The actions of a command that write records.
use getbiblesword.Prelude.{
  ℕ, ◌≤◌, ◌≡◌, refl, subst, arith, inl, Bool, false, Option, List, [], ◌∷◌, ◌++◌, append_assoc,
  Bytes, codes,
}
use getbiblesword.Exec.{Exception, Result, ok, throw, Exec, ◌>>◌}
use getbiblesword.OrderedMap.{lookup}
use getbiblesword.OrderedMap.Order.{order}
use getbiblesword.CommandLine.{same_text}
use getbiblesword.Ndjson.{Ostream, JsonFields, Writer, emit}
use getbiblesword.Ndjson.Records.{Collects, Record, Holds}
use getbiblesword.Ndjson.Emits.{
  StaysBad, is_reserved, emit-Emits, emit-IsBroken, emit-IsBroken_throw,
}
use getbiblesword.Artifact.{Diagnostic, ArtifactResult, System, diagnostic_fields}
use getbiblesword.Artifact.Answers.{Answer}
use getbiblesword.Artifact.Blocks.{records_of, IsError}
use getbiblesword.Artifact.Stream.{ReadsFit, diagnostic_record, diagnostic_records, IsReport}
use getbiblesword.Extractor.{Session, on_writer, tally, tally_all, emit_diagnostic}
use getbiblesword.Extractor.Entries.{Entry, entry_fields}
use getbiblesword.Extractor.Entries.Loop.{emit_entry_record}
use getbiblesword.Extractor.Tallies.{
  Stage, IsOther, errors_in, has_severity, number_of-append, IsQuiet, IsTallied, IsQuiet-IsTallied,
  entry-IsTallied,
}
use getbiblesword.Extractor.Tracking.{
  HasWritten, After, Keeps, Tracks, Refuses, on_writer-After, bind-After, then-Keeps,
}
use getbiblesword.Extractor.Tracking.Reports.{
  IsCounted, error-errors_in, diagnostic-IsTallied, diagnostics-IsTallied, blocks-IsQuiet,
}

module _ (o : Ostream) (c : Collects o) (b : StaysBad o) (start : Bytes) (G : Stage)
    (X : Exception → Type 0) where
  pub emit_quiet-Tracks :
      (type : Bytes) (fields : JsonFields)
      → is_reserved fields ≡ false
      → IsQuiet (record { type = type; fields = fields })
      → IsOther (record { type = type; fields = fields })
      → Tracks o c b start G X (on_writer o (emit o type fields))
  emit_quiet-Tracks type fields free quiet other = record {
    run = λ s h.
        on_writer-After o c b start G X _ _ _ s h.0 (emit-Emits o c b start type fields free)
          h.1.holds
          (λ a w added e holds. (
            h.0 ++ added,
            record {
              holds = holds;
              tallied =
                  IsQuiet-IsTallied s.diagnostics s.entries h.0 added h.1.tallied
                    (rw e (quiet, tt));
              staged =
                  G.of_artifacts-append h.0 added s.artifacts s.artifact_bytes (rw e (other, tt))
                    h.1.staged;
            },
          ));
  }

  pub emit_diagnostic-Tracks :
      (d : Diagnostic) → IsCounted d → Tracks o c b start G X (emit_diagnostic o d)
  unfolding emit_diagnostic same_text
  emit_diagnostic-Tracks d counted = record {
    run = λ s h.
        on_writer-After o c b start G X _ _ _
          (record s { diagnostics = tally d.severity s.diagnostics }) h.0
          (emit-Emits o c b start (codes "diagnostic") (diagnostic_fields d) counted.1) h.1.holds
          (λ a w added e holds. (
            h.0 ++ added,
            record {
              holds = holds;
              tallied = rw e (
                  diagnostic-IsTallied d counted.2 s.diagnostics s.entries h.0 counted.0
                    h.1.tallied);
              staged =
                  G.of_artifacts-append h.0 added s.artifacts s.artifact_bytes (rw e (refl, tt))
                    h.1.staged;
            },
          ));
  }

  -- At least one error has been written.
  abbrev pub HasError : Session o.Stream → Type 0
  HasError s = (rs : List Record) × HasWritten o c b start G s rs × (1 ≤ errors_in rs)

  pub emit_error-HasError :
      (d : Diagnostic) → IsError d → Keeps o c b start G X (emit_diagnostic o d) (λ u s. HasError s)
  unfolding emit_diagnostic same_text
  emit_error-HasError d error = record {
    run = λ s h.
        on_writer-After o c b start G X _ _ _
          (record s { diagnostics = tally d.severity s.diagnostics }) h.0
          (emit-Emits o c b start (codes "diagnostic") (diagnostic_fields d) error.1) h.1.holds
          (λ a w added e holds. (
            h.0 ++ added,
            record {
              holds = holds;
              tallied = rw e (
                  diagnostic-IsTallied d error.2 s.diagnostics s.entries h.0 (inl error.0)
                    h.1.tallied);
              staged =
                  G.of_artifacts-append h.0 added s.artifacts s.artifact_bytes (rw e (refl, tt))
                    h.1.staged;
            },
            rw e (
                omega (
                  arith,
                  error-errors_in d error,
                  number_of-append (has_severity (codes "error")) h.0 (diagnostic_record d ∷ []),
                )),
          ));
  }

  -- The error is reported, and the rest goes on.
  pub report-Keeps :
      {A : Type 0} (Q : A → Session o.Stream → Type 0) (d : Diagnostic)
      (m : Exec (Session o.Stream) A)
      → IsCounted d
      → Keeps o c b start G X m Q
      → Keeps o c b start G X (emit_diagnostic o d >> m) Q
  report-Keeps Q d m counted em =
      then-Keeps o c b start G X Q (emit_diagnostic o d) (λ u. m) (emit_diagnostic-Tracks d counted)
        (λ u. em)

  pub emit_diagnostic-Refuses : (d : Diagnostic) → Refuses o c b start G X (emit_diagnostic o d)
  unfolding emit_diagnostic on_writer
  emit_diagnostic-Refuses d = record {
    refused = λ s h.
        by_result s.writer (tally d.severity s.diagnostics) s h
          (emit o (codes "diagnostic") (diagnostic_fields d) s.writer).0 refl;
  }
    where
      by_result :
          (w : Writer o.Stream) (counts : _) (s : Session o.Stream)
          → o.good w.output ≡ false
          → (r : Result (Unit {0})) → (emit o (codes "diagnostic") (diagnostic_fields d) w).0 ≡ r
          → After o c b start G X
              (λ (a : Unit {0}) s'. ⊥)
              r
              (record s {
                diagnostics = counts;
                writer = (emit o (codes "diagnostic") (diagnostic_fields d) w).1;
              })
      by_result w counts s h (ok tt) e =
          emit-IsBroken_throw o c b start (codes "diagnostic") (diagnostic_fields d) w h e
      by_result w counts s h (throw x) e =
          inl (emit-IsBroken o c b start (codes "diagnostic") (diagnostic_fields d) w h)

  pub emit_entry_record-Tracks :
      (e : Entry) (normalized stripped : Option Bytes) (available : Bool)
      → Tracks o c b start G X (emit_entry_record o e normalized stripped available)
  unfolding emit_entry_record entry_fields lookup order same_text
  emit_entry_record-Tracks e normalized stripped available = record {
    run = λ s h.
        let fields = entry_fields e normalized stripped available s.entries in
        let r : Record = record { type = codes "entry"; fields = fields } in
        bind-After o c b start G X
          (λ u s'.
            (s'.entries ≡ s.entries)
            × (s'.diagnostics ≡ s.diagnostics)
            × (s'.artifacts ≡ s.artifacts)
            × (s'.artifact_bytes ≡ s.artifact_bytes)
            × Holds o c start s'.writer (h.0 ++ (r ∷ [])))
          _ _ _ _
          (on_writer-After o c b start G X _ _ _ s h.0
            (emit-Emits o c b start (codes "entry") fields refl) h.1.holds
            (λ a w added e holds. (refl, refl, refl, refl, rw (← e) holds)))
          (λ u s' q. (
            h.0 ++ (r ∷ []),
            record {
              holds = q.4;
              tallied =
                  rw (q.0, q.1)
                    (entry-IsTallied s.diagnostics s.entries h.0 r h.1.tallied refl refl);
              staged =
                  rw (q.2, q.3)
                    (G.of_artifacts-append h.0 (r ∷ []) s.artifacts s.artifact_bytes (refl, tt)
                      h.1.staged);
            },
          ));
  }

  -- The counts of the diagnostics are added behind `emit_artifacts`, which has emitted them.
  module _ (limit : ℕ) (system : System) (f : ReadsFit system) where
    pub report-IsTallied :
        (expected : List Answer) (result : ArtifactResult) (s : Session o.Stream)
        (rs added : List Record)
        → IsTallied s.diagnostics s.entries rs
        → IsReport limit expected result added
        → IsTallied (tally_all result.diagnostics s.diagnostics) s.entries (rs ++ added)
    report-IsTallied expected result s rs added h r =
        let quiet =
          IsQuiet-IsTallied s.diagnostics s.entries rs (records_of r.blocks) h
            (blocks-IsQuiet limit 0 r.blocks r.are_blocks) in
        rw r.records (
          subst
            (λ (t : List Record).
              IsTallied (tally_all result.diagnostics s.diagnostics) s.entries t)
            (append_assoc rs (records_of r.blocks) (diagnostic_records result.diagnostics))
            (diagnostics-IsTallied result.diagnostics s.diagnostics s.entries
              (rs ++ records_of r.blocks) r.consistent.are_errors quiet))
