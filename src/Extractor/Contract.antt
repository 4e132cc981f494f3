-- ===== src/Extractor/Contract.antt =====
-- What a caller of `list_modules` and `extract_module` gets.
use getbiblesword.Prelude.{◌≡◌, refl, arith, ◌⊎◌, inl, inr, Bool, false, none, [], Bytes}
use getbiblesword.Exec.{Result, ok, throw, what}
use getbiblesword.Ndjson.{Ostream, Writer}
use getbiblesword.Ndjson.Records.{Collects, Holds}
use getbiblesword.Ndjson.Emits.{StaysBad}
use getbiblesword.Extractor.{Session, start_session}
use getbiblesword.Extractor.Commands.{World, list_session, list_modules}
use getbiblesword.Extractor.Tallies.{Stage}
use getbiblesword.Extractor.Tracking.Stages.{no_artifacts}
use getbiblesword.Extractor.Tracking.{IsTracked, After, IsForeign}
use getbiblesword.Extractor.Tracking.Complete.{IsComplete, IsDone}
use getbiblesword.Extractor.Tracking.Commands.{IsSound, list_session-Keeps}

module _ (o : Ostream) (c : Collects o) (b : StaysBad o) (start : Bytes) where
  -- A command returns behind a complete stream. It throws where the stream has failed, or where SWORD
  -- threw what is no `std::exception`.
  abbrev pub Concludes : Stage → Result Bool → Writer o.Stream → Type 0
  Concludes G (ok success) w = IsComplete o c b start G success w
  Concludes G (throw e) w = (o.good w.output ≡ false) ⊎ (what e ≡ none)

  started :
      (w : Writer o.Stream)
      → Holds o c start w []
      → IsTracked o c b start no_artifacts (start_session w)
  started w h = (
    [],
    record {
      holds = h;
      tallied = record {
        errors = omega arith;
        warnings = omega arith;
        counted = omega arith;
        numbered = tt;
      };
      staged = (tt, refl, refl);
    },
  )

  concluded :
      (G : Stage) (r : Result Bool) (s : Session o.Stream)
      → After o c b start no_artifacts IsForeign (IsDone o c b start G) r s
      → Concludes G r s.writer
  concluded G (ok success) s h = h
  concluded G (throw e) s (inl failed) = inl failed
  concluded G (throw e) s (inr (tracked, foreign)) = inr foreign

  module _ (world : World) (sound : IsSound world) (w : Writer o.Stream) (h : Holds o c start w [])
      (sword_path : Bytes) where
    -- On a writer that has written nothing, a call of `list_modules` that returns has written records,
    -- none of them of an artifact, and one footer behind them. The members of the footer are the number
    -- of the records, their counts by type, the digest by FIPS 180-4 of all their lines, the success,
    -- the number of the errors, of the warnings and of the entries among the records, on 64 bits, and
    -- 0 for the artifacts. If
    -- the command says success, the number of errors is 0 on 64 bits; if not, there is an error among
    -- the records. It throws only where the stream has failed, or with an exception that is no
    -- `std::exception`.
    pub list_modules-Concludes :
        Concludes no_artifacts
          (list_modules o world sword_path w).0
          (list_modules o world sword_path w).1
    unfolding list_modules
    list_modules-Concludes =
        concluded no_artifacts (list_session o world sword_path (start_session w)).0
          (list_session o world sword_path (start_session w)).1
          ((list_session-Keeps o c b start world sound sword_path).run (start_session w)
            (started w h))
