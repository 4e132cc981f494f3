-- ===== src/Extractor/Tracking/Entries.antt =====
-- The traversal of the entries.
use getbiblesword.Prelude.{
  ℕ, suc, refl, inl, inr, Bool, true, false, not, Option, none, some, Bytes, length, ltb, ◌==◌,
}
use getbiblesword.Exec.{Exception, Exec}
use getbiblesword.OrderedMap.{lookup, upsert}
use getbiblesword.OrderedMap.Order.{order}
use getbiblesword.Utf8.{is_valid_utf8}
use getbiblesword.SourceEncoding.{Icu, source_utf8}
use getbiblesword.Ndjson.{Ostream}
use getbiblesword.Ndjson.Records.{Collects}
use getbiblesword.Ndjson.Emits.{StaysBad}
use getbiblesword.Artifact.{diagnostic_fields}
use getbiblesword.Extractor.{Session, safe_c_string}
use getbiblesword.Extractor.Module.{SwordConstants}
use getbiblesword.Extractor.Entries.{
  Entry, Traversal, step, last, throws, Dictionary, entry_limit, Previous, has_nul,
}
use getbiblesword.Extractor.Entries.Loop.{
  int_max, is_stalled, sword_length, strip_valid, strip_sized, strip_normalized, report_encoding,
  emit_entry, visit_entry, end_navigation, ends_early, count_mismatch, navigation_failed,
  previous_of, or_continue, walk_entries, emit_entries,
}
use getbiblesword.Extractor.Tallies.{Stage}
use getbiblesword.Extractor.Tracking.{
  IsTracked, Tracks, pure-Tracks, then-Keeps, if-Keeps, if-After,
}
use getbiblesword.Extractor.Tracking.Steps.{
  emit_diagnostic-Tracks, report-Keeps, emit_entry_record-Tracks,
}

module _ (o : Ostream) (c : Collects o) (b : StaysBad o) (start : Bytes) (G : Stage)
    (X : Exception → Type 0) where
  sword_length-Tracks : (size ordinal : ℕ) → Tracks o c b start G X (sword_length o size ordinal)
  unfolding sword_length diagnostic_fields lookup upsert order
  sword_length-Tracks size ordinal =
      if-Keeps o c b start G X _ (ltb int_max size) _ _
        (report-Keeps o c b start G X _ _ _ (inl refl, refl, refl)
          (pure-Tracks o c b start G X false))
        (pure-Tracks o c b start G X true)

  strip_normalized-Tracks :
      (e : Entry) (ordinal : ℕ) (normalized : Option Bytes)
      → Tracks o c b start G X (strip_normalized o e ordinal normalized)
  unfolding strip_normalized strip_valid strip_sized diagnostic_fields lookup upsert order
  strip_normalized-Tracks e ordinal none = pure-Tracks o c b start G X none
  strip_normalized-Tracks e ordinal (some text) =
      if-Keeps o c b start G X _ (has_nul text) _ _
        (report-Keeps o c b start G X _ _ _ (inr refl, refl, refl)
          (pure-Tracks o c b start G X none))
        (then-Keeps o c b start G X _ _ _ (sword_length-Tracks (length text) ordinal) sized)
    where
      valid : (stripped : Bytes) → Tracks o c b start G X (strip_valid o e ordinal stripped)
      valid stripped =
          if-Keeps o c b start G X _ (is_valid_utf8 stripped) _ _
            (pure-Tracks o c b start G X (some stripped))
            (report-Keeps o c b start G X _ _ _ (inr refl, refl, refl)
              (pure-Tracks o c b start G X none))

      sized : (available : Bool) → Tracks o c b start G X (strip_sized o e ordinal text available)
      sized false = pure-Tracks o c b start G X none
      sized true = valid (safe_c_string (e.strip text))

  report_encoding-Tracks :
      (e : Entry) (ordinal : ℕ) (normalized : Option Bytes)
      → Tracks o c b start G X (report_encoding o e ordinal normalized)
  unfolding report_encoding diagnostic_fields lookup upsert order
  report_encoding-Tracks e ordinal (some text) = pure-Tracks o c b start G X tt
  report_encoding-Tracks e ordinal none =
      emit_diagnostic-Tracks o c b start G X _ (inr refl, refl, refl)

  emit_entry-Tracks :
      (icu : Icu) (e : Entry) (ordinal : ℕ) → Tracks o c b start G X (emit_entry o icu e ordinal)
  unfolding emit_entry
  emit_entry-Tracks icu e ordinal =
      let normalized = source_utf8 icu e.raw (safe_c_string e.encoding) in
      then-Keeps o c b start G X _ _ _ (sword_length-Tracks (length e.raw) ordinal) (λ available.
        then-Keeps o c b start G X _ _ _ (report_encoding-Tracks e ordinal normalized) (λ u.
          then-Keeps o c b start G X _ _ _ (strip_normalized-Tracks e ordinal normalized)
            (λ stripped. emit_entry_record-Tracks o c b start G X e normalized stripped available)))

  visit_entry-Tracks :
      (icu : Icu) (limit : Option ℕ) (previous : Option Previous) (e : Entry)
      → Tracks o c b start G X (visit_entry o icu limit previous e)
  unfolding visit_entry diagnostic_fields lookup upsert order
  visit_entry-Tracks icu limit previous e = record {
    run = λ s h.
        if-After o c b start G X _
          (is_stalled limit s.entries previous (safe_c_string e.key) e.index) _ _
          ((report-Keeps o c b start G X _ _ _ (inl refl, refl, refl)
              (pure-Tracks o c b start G X (some false))).run
            s h)
          (if-After o c b start G X _ (not (e.read_error == 0)) _ _
            ((report-Keeps o c b start G X _ _ _ (inl refl, refl, refl)
                (pure-Tracks o c b start G X (some false))).run
              s h)
            ((then-Keeps o c b start G X _ _ _ (emit_entry-Tracks icu e s.entries)
                (λ u. record { run = λ s' g. g })).run
              s h));
  }

  end_navigation-Tracks :
      (k : SwordConstants) (limit : Option ℕ) (error : ℕ)
      → Tracks o c b start G X (end_navigation o k limit error)
  unfolding end_navigation diagnostic_fields lookup upsert order
  end_navigation-Tracks k limit error = record {
    run = λ s h.
        if-After o c b start G X (λ a t. IsTracked o c b start G t)
          (ends_early o k limit error s.entries) _ (_, _)
          ((report-Keeps o c b start G X _ (count_mismatch o limit s.entries) _
              (inl refl, refl, refl) (pure-Tracks o c b start G X false)).run
            s h)
          (if-After o c b start G X _ (not (error == k.keyerr_outofbounds)) _ _
            ((report-Keeps o c b start G X _ (navigation_failed o error s.entries) _
                (inl refl, refl, refl) (pure-Tracks o c b start G X false)).run
              s h)
            h);
  }

  or_continue-Tracks :
      (result : Option Bool) (later : Exec (Session o.Stream) Bool)
      → Tracks o c b start G X later
      → Tracks o c b start G X (or_continue o result later)
  or_continue-Tracks none later h = h
  or_continue-Tracks (some result) later h = pure-Tracks o c b start G X result

  walk_entries-Tracks :
      (any : (e : Exception) → X e) (k : SwordConstants) (icu : Icu) (limit : Option ℕ)
      (previous : Option Previous) (traversal : Traversal)
      → Tracks o c b start G X (walk_entries o k icu limit previous traversal)
  unfolding walk_entries
  walk_entries-Tracks any k icu limit previous (throws x) = record { run = λ s h. inr (h, any x) }
  walk_entries-Tracks any k icu limit previous (last e code) =
      then-Keeps o c b start G X _ _ _ (visit_entry-Tracks icu limit previous e)
        (λ result. or_continue-Tracks result _ (end_navigation-Tracks k limit (suc code)))
  walk_entries-Tracks any k icu limit previous (step e later) =
      then-Keeps o c b start G X _ _ _ (visit_entry-Tracks icu limit previous e) (λ result.
        or_continue-Tracks result _ (walk_entries-Tracks any k icu limit (previous_of o e) later))

  pub emit_entries-Tracks :
      (any : (e : Exception) → X e) (k : SwordConstants) (icu : Icu) (dictionary : Dictionary)
      (top_error : ℕ) (traversal : Traversal)
      → Tracks o c b start G X (emit_entries o k icu dictionary top_error traversal)
  unfolding emit_entries diagnostic_fields lookup upsert order
  emit_entries-Tracks any k icu dictionary top_error traversal =
      if-Keeps o c b start G X _ (not (top_error == 0)) _ _
        (report-Keeps o c b start G X _ _ _ (inr refl, refl, refl)
          (pure-Tracks o c b start G X true))
        (walk_entries-Tracks any k icu (entry_limit dictionary) none traversal)
