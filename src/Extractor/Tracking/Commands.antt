-- ===== src/Extractor/Tracking/Commands.antt =====
-- The whole of `list_modules`, and what `extract_module` shares with it.
use getbiblesword.Prelude.{◌≡◌, refl, inl, inr, Bool, true, false, [], Bytes, codes}
use getbiblesword.Exec.{Exception, Result, ok, throw}
use getbiblesword.OrderedMap.{lookup, upsert}
use getbiblesword.OrderedMap.Order.{order}
use getbiblesword.CallbackStream.{is_empty}
use getbiblesword.CommandLine.{same_text}
use getbiblesword.Ndjson.{Ostream}
use getbiblesword.Ndjson.Records.{Collects}
use getbiblesword.Ndjson.Emits.{StaysBad}
use getbiblesword.Artifact.{error_diagnostic, diagnostic_fields}
use getbiblesword.Artifact.Discovery.Confined.{Lists}
use getbiblesword.Artifact.Stream.{ReadsFit}
use getbiblesword.Extractor.{emit_diagnostic}
use getbiblesword.Extractor.Module.{module_fields}
use getbiblesword.Extractor.Commands.{
  Root, unusable, canonical, World, ModuleListing, no_more, next_module, listing_throws,
  canonical_root, emit_modules, from_result, list_in, list_session,
}
use getbiblesword.Extractor.Tracking.Stages.{no_artifacts}
use getbiblesword.Extractor.Tracking.{
  Keeps, Tracks, pure-Tracks, bind-Keeps, then-Keeps, IsForeign, AnyException, try_catch-Keeps,
}
use getbiblesword.Extractor.Tracking.Steps.{
  HasError, emit_error-HasError, emit_quiet-Tracks, emit_diagnostic-Tracks, emit_diagnostic-Refuses,
}
use getbiblesword.Extractor.Tracking.Complete.{
  IsDone, conclude_command-After, RootIs, root-After, emit_header-Tracks,
}

-- What the documentation says of the calls: a `::read` gives no more than its capacity, a canonical
-- path is not empty, what is listed below a directory lies below it, and a sort gives the elements in
-- another order.
pub record IsSound (world : World) : Type 1 where
  pub reads_fit : ReadsFit world.system
  pub root_not_empty :
      (path root : Bytes) → world.root path ≡ canonical root → is_empty root ≡ false
  pub lists : Lists world.paths world.tree

both_ways : {x : Bool} → x ≡ true → x ≡ false → ⊥
both_ways h g = cc

module _ (o : Ostream) (c : Collects o) (b : StaysBad o) (start : Bytes) (world : World)
    (sound : IsSound world) where
  pub canonical_root-Keeps :
      (X : Exception → Type 0) (path : Bytes) (root : Root)
      → world.root path ≡ root
      → Keeps o c b start no_artifacts X
          (canonical_root o world root)
          (RootIs o c b start no_artifacts X)
  unfolding canonical_root diagnostic_fields lookup upsert order
  canonical_root-Keeps X path (canonical root) e = record {
    run = λ s h. (h.0, h.1, λ empty. absurd (both_ways empty (sound.root_not_empty path root e)));
  }
  canonical_root-Keeps X path (unusable message) e =
      bind-Keeps o c b start no_artifacts X (λ u s. HasError o c b start no_artifacts X s) _ _ _
        (emit_error-HasError o c b start no_artifacts X _ (refl, refl, refl))
        (λ u s q. (q.0, q.1, λ empty. q.2))

  pub failed-Keeps :
      (code text : Bytes)
      → Tracks o c b start no_artifacts IsForeign
          (emit_diagnostic o (error_diagnostic code text []))
  unfolding diagnostic_fields lookup upsert order
  failed-Keeps code text =
      emit_diagnostic-Tracks o c b start no_artifacts IsForeign _ (inl refl, refl, refl)

  pub from_result-Tracks :
      {A : Type 0} (r : Result A)
      → Tracks o c b start no_artifacts AnyException (from_result o world r)
  from_result-Tracks (ok a) = record { run = λ s h. h }
  from_result-Tracks (throw e) = record { run = λ s h. inr (h, tt) }

  emit_modules-Tracks :
      (modules : ModuleListing)
      → Tracks o c b start no_artifacts AnyException (emit_modules o world modules)
  unfolding emit_modules module_fields lookup order same_text
  emit_modules-Tracks no_more = pure-Tracks o c b start no_artifacts AnyException tt
  emit_modules-Tracks (listing_throws e) = from_result-Tracks (throw e)
  emit_modules-Tracks (next_module info modules) =
      then-Keeps o c b start no_artifacts AnyException _ _ _
        (emit_quiet-Tracks o c b start no_artifacts AnyException (codes "module") _ refl
          (refl, refl) refl)
        (λ u. emit_modules-Tracks modules)

  pub list_session-Keeps :
      (sword_path : Bytes)
      → Keeps o c b start no_artifacts IsForeign
          (list_session o world sword_path)
          (IsDone o c b start no_artifacts)
  unfolding list_session list_in
  list_session-Keeps sword_path =
      then-Keeps o c b start no_artifacts IsForeign _ _ _
        (emit_header-Tracks o c b start no_artifacts IsForeign world (codes "list") 0)
        (λ u.
          bind-Keeps o c b start no_artifacts IsForeign (RootIs o c b start no_artifacts IsForeign)
            _ _ _ (canonical_root-Keeps IsForeign sword_path (world.root sword_path) refl)
            (λ root s q.
              root-After o c b start no_artifacts no_artifacts IsForeign root _ s
                (λ rs artifacts bytes h. h) q
                (then-Keeps o c b start no_artifacts IsForeign _ _ _
                  (try_catch-Keeps o c b start no_artifacts _ _
                    (failed-Keeps (codes "sword.discovery.exception"))
                    (λ text. emit_diagnostic-Refuses o c b start no_artifacts IsForeign _) _
                    (emit_modules-Tracks (world.modules root)))
                  (λ u. record {
                    run =
                        conclude_command-After o c b start no_artifacts no_artifacts IsForeign
                          world;
                  }))))
