-- ===== src/Extractor/Tallies.antt =====
-- What the counts of a command say of the records that it has written.
use getbiblesword.Prelude.{
  ℕ, ◌+◌, ◌%◌, ◌^◌, ◌≡◌, refl, ap, subst, ◌∙◌, arith, Bool, true, false, ◌&&◌, ◌||◌, Option, none,
  some, List, [], ◌∷◌, ◌++◌, Bytes, codes, All,
}
use getbiblesword.OrderedMap.{lookup}
use getbiblesword.Json.{json_string, to_string}
use getbiblesword.CommandLine.{same_text}
use getbiblesword.Ndjson.Records.{Record}
use getbiblesword.Extractor.{DiagnosticCounts}

abbrev pub is_diagnostic : Record → Bool
is_diagnostic r = same_text r.type (codes "diagnostic")

abbrev pub is_entry : Record → Bool
is_entry r = same_text r.type (codes "entry")

abbrev pub text_is : Bytes → Option Bytes → Bool
text_is text none = false
text_is text (some other) = same_text text other

abbrev pub has_severity : Bytes → Record → Bool
has_severity severity r =
    is_diagnostic r && text_is (json_string severity) (lookup (codes "severity") r.fields)

abbrev pub one_if : Bool → ℕ
one_if true = 1
one_if false = 0

abbrev pub number_of : (Record → Bool) → List Record → ℕ
number_of test [] = 0
number_of test (r ∷ rs) = one_if (test r) + number_of test rs

abbrev pub errors_in : List Record → ℕ
errors_in = number_of (has_severity (codes "error"))

abbrev pub warnings_in : List Record → ℕ
warnings_in = number_of (has_severity (codes "warning"))

abbrev pub entries_in : List Record → ℕ
entries_in = number_of is_entry

pub number_of-append :
    (test : Record → Bool) (rs ss : List Record)
    → number_of test (rs ++ ss) ≡ number_of test rs + number_of test ss
number_of-append test [] ss = omega arith
number_of-append test (r ∷ rs) ss = omega (arith, number_of-append test rs ss)

-- The entries have consecutive numbers.
abbrev pub IsNumbered : ℕ → Record → Bool → Type 0
IsNumbered k r true = lookup (codes "ordinal") r.fields ≡ some (to_string (k % 2 ^ 64))
IsNumbered k r false = Unit

abbrev pub AreNumbered : ℕ → List Record → Type 0
AreNumbered k [] = Unit
AreNumbered k (r ∷ rs) = IsNumbered k r (is_entry r) × AreNumbered (k + one_if (is_entry r)) rs

pub AreNumbered-append :
    (k : ℕ) (rs ss : List Record)
    → AreNumbered k rs
    → AreNumbered (k + entries_in rs) ss
    → AreNumbered k (rs ++ ss)
AreNumbered-append k [] ss h g = subst (λ (n : ℕ). AreNumbered n ss) (omega arith) g
AreNumbered-append k (r ∷ rs) ss h g = (
  h.0,
  AreNumbered-append (k + one_if (is_entry r)) rs ss h.1
      (subst (λ (n : ℕ). AreNumbered n ss) (omega arith) g),
)

-- A record that is neither counted nor numbered
abbrev pub IsQuiet : Record → Type 0
IsQuiet r = (is_diagnostic r ≡ false) × (is_entry r ≡ false)

pub IsQuiet-number_of :
    (rs : List Record)
    → All IsQuiet rs
    → (errors_in rs ≡ 0) × (warnings_in rs ≡ 0) × (entries_in rs ≡ 0)
IsQuiet-number_of [] h = omega arith
IsQuiet-number_of (r ∷ rs) h =
    let later = IsQuiet-number_of rs h.1 in rw (h.0.0, h.0.1) (omega (arith, later))

no_entries-AreNumbered :
    (k : ℕ) (rs : List Record) → All (λ r. is_entry r ≡ false) rs → AreNumbered k rs
no_entries-AreNumbered k [] h = tt
no_entries-AreNumbered k (r ∷ rs) h = rw h.0 (tt, no_entries-AreNumbered (k + 0) rs h.1)

-- The counts of the session are those of its records.
pub record IsTallied (diagnostics : DiagnosticCounts) (entries : ℕ) (rs : List Record)
    : Type 0 where
  pub errors : diagnostics.error ≡ errors_in rs % 2 ^ 64
  pub warnings : diagnostics.warning ≡ warnings_in rs % 2 ^ 64
  pub counted : entries ≡ entries_in rs % 2 ^ 64
  pub numbered : AreNumbered 0 rs

-- Records that are not entries
pub add-IsTallied :
    (before after : DiagnosticCounts) (entries : ℕ) (rs added : List Record)
    → IsTallied before entries rs
    → All (λ r. is_entry r ≡ false) added
    → entries_in added ≡ 0
    → after.error ≡ (before.error + errors_in added) % 2 ^ 64
    → after.warning ≡ (before.warning + warnings_in added) % 2 ^ 64
    → IsTallied after entries (rs ++ added)
add-IsTallied before after entries rs added h none_is zero_entries e w = record {
  errors = omega (arith, h.errors, number_of-append (has_severity (codes "error")) rs added);
  warnings = omega (arith, h.warnings, number_of-append (has_severity (codes "warning")) rs added);
  counted = omega (arith, h.counted, number_of-append is_entry rs added);
  numbered =
      AreNumbered-append 0 rs added h.numbered
        (no_entries-AreNumbered (0 + entries_in rs) added none_is);
}

pub IsQuiet-IsTallied :
    (diagnostics : DiagnosticCounts) (entries : ℕ) (rs added : List Record)
    → IsTallied diagnostics entries rs
    → All IsQuiet added
    → IsTallied diagnostics entries (rs ++ added)
IsQuiet-IsTallied diagnostics entries rs added h quiet =
    let none_is = IsQuiet-number_of added quiet in
    add-IsTallied diagnostics diagnostics entries rs added h (no_entries added quiet) none_is.2
      (omega (arith, h.errors, none_is)) (omega (arith, h.warnings, none_is))
  where
    no_entries : (added : List Record) → All IsQuiet added → All (λ r. is_entry r ≡ false) added
    no_entries [] h = tt
    no_entries (r ∷ rs) h = (h.0.1, no_entries rs h.1)

-- An entry with the next number
pub entry-IsTallied :
    (diagnostics : DiagnosticCounts) (entries : ℕ) (rs : List Record) (r : Record)
    → IsTallied diagnostics entries rs
    → r.type ≡ codes "entry"
    → lookup (codes "ordinal") r.fields ≡ some (to_string entries)
    → IsTallied diagnostics ((entries + 1) % 2 ^ 64) (rs ++ (r ∷ []))
unfolding lookup same_text
entry-IsTallied diagnostics entries rs r h e n =
    let entry : is_entry r ≡ true = rw e refl in
    let error : has_severity (codes "error") r ≡ false = rw e refl in
    let warning : has_severity (codes "warning") r ≡ false = rw e refl in
    let one = ap one_if entry in
    let no_error = ap one_if error in
    let no_warning = ap one_if warning in
    record {
      errors =
          omega (
            arith,
            h.errors,
            number_of-append (has_severity (codes "error")) rs (r ∷ []),
            no_error,
          );
      warnings = omega (
        arith,
        h.warnings,
        number_of-append (has_severity (codes "warning")) rs (r ∷ []),
        no_warning,
      );
      counted = omega (arith, h.counted, number_of-append is_entry rs (r ∷ []), one);
      numbered =
          AreNumbered-append 0 rs (r ∷ []) h.numbered
            (rw entry (n ∙ ap (λ (k : ℕ). some (to_string k)) (omega (arith, h.counted)), tt));
    }

-- What a consumer puts artifacts together from
abbrev pub is_artifact : Record → Bool
is_artifact r =
    same_text r.type (codes "artifact_begin")
    || (same_text r.type (codes "artifact_chunk") || same_text r.type (codes "artifact_end"))

abbrev pub IsOther : Record → Type 0
IsOther r = is_artifact r ≡ false

-- What the records say of the artifacts and of their bytes, whatever other records follow
pub record Stage : Type 1 where
  pub of_artifacts : List Record → ℕ → ℕ → Type 0
  pub of_artifacts-append :
      (rs added : List Record) (artifacts bytes : ℕ)
      → All IsOther added
      → of_artifacts rs artifacts bytes
      → of_artifacts (rs ++ added) artifacts bytes
