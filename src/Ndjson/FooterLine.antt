-- ===== src/Ndjson/FooterLine.antt =====
-- A footer as a consumer finds it: the text of a JSON object, and what its members are. This is apart
-- from `footer_line`, `counts_json` and `object_json` of the code.
use getbiblesword.Prelude.{
  ℕ, ◌%◌, ◌^◌, ◌≡◌, refl, ap, subst, ◌∙◌, inl, inr, Bool, true, false, Option, none, some, List, [],
  ◌∷◌, ◌++◌, Bytes, codes, length, All, if◌then◌else◌, append-nil,
}
use getbiblesword.OrderedMap.{OrderedMap, lookup, emplace, or_else}
use getbiblesword.OrderedMap.Laws.{after, Comparison-cases, lookup-upsert}
use getbiblesword.OrderedMap.Order.{Comparison, less, same, greater, order, order_self, eq_of_same}
use getbiblesword.Json.{json_string, to_string}
use getbiblesword.Sha256.{hex_bytes}
use getbiblesword.Sha256.Padding.{standard_digest}
use getbiblesword.Ndjson.{
  JsonFields, object_members, object_json, count_members, counts_json, footer_line,
}
use getbiblesword.Ndjson.Records.{Record, text_of, counts_from}
use getbiblesword.Ndjson.Counts.{occurrences, lookup-counts}

-- The members with a comma between each two of them
abbrev pub members_text : JsonFields → Bytes
members_text [] = []
members_text ((name, value) ∷ []) = json_string name ++ (b':' ∷ value)
members_text ((name, value) ∷ next ∷ members) =
    json_string name ++ (b':' ∷ (value ++ (b',' ∷ members_text (next ∷ members))))

abbrev pub object_text : JsonFields → Bytes
object_text members = b'{' ∷ (members_text members ++ (b'}' ∷ []))

abbrev pub number_members : OrderedMap ℕ → JsonFields
number_members [] = []
number_members ((name, n) ∷ counts) = (name, to_string n) ∷ number_members counts

abbrev pub bool_text : Bool → Bytes
bool_text true = codes "true"
bool_text false = codes "false"

-- The footer of a stream of these records: their number, the digest by FIPS 180-4 of their lines, how
-- many there are of each type, whether the command has succeeded, and the members that the caller gives.
pub record IsFooter (records : List Record) (success : Bool) (fields : JsonFields) (footer : Bytes)
    : Type 0 where
  pub members : JsonFields
  pub printed : footer ≡ object_text members ++ (10 ∷ [])
  pub type_is : lookup (codes "type") members ≡ some (codes "\"footer\"")
  pub success_is : lookup (codes "success") members ≡ some (bool_text success)
  pub sequence_is : lookup (codes "sequence") members ≡ some (to_string (length records % 2 ^ 64))
  pub digest_is :
      lookup (codes "stream_sha256") members
      ≡ some (json_string (hex_bytes (standard_digest (text_of records))))
  pub counts : OrderedMap ℕ
  pub counts_are : lookup (codes "counts") members ≡ some (object_text (number_members counts))
  pub counted : (type : Bytes) → or_else 0 (lookup type counts) ≡ occurrences type records % 2 ^ 64
  pub kept :
      (name value : Bytes) → lookup name fields ≡ some value → lookup name members ≡ some value

-- The names that `finish` gives
abbrev pub IsFree : JsonFields → Type 0
IsFree fields =
    All (λ name. lookup name fields ≡ none)
      (codes "counts"
        ∷ codes "sequence"
        ∷ codes "stream_sha256"
        ∷ codes "success"
        ∷ codes "type"
        ∷ [])

-- The code prints a comma before each member but the first.
abbrev later_text : JsonFields → Bytes
later_text [] = []
later_text (m ∷ members) = b',' ∷ members_text (m ∷ members)

object_members-later : (members : JsonFields) → object_members false members ≡ later_text members
unfolding object_members
object_members-later [] = refl
object_members-later ((name, value) ∷ []) =
    ap (λ (t : Bytes). b',' ∷ (json_string name ++ (b':' ∷ t))) (append-nil value)
object_members-later ((name, value) ∷ next ∷ members) =
    ap (λ (t : Bytes). b',' ∷ (json_string name ++ (b':' ∷ (value ++ t))))
      (object_members-later (next ∷ members))

pub object_json-text : (members : JsonFields) → object_json members ≡ object_text members
unfolding object_json object_members
object_json-text [] = refl
object_json-text ((name, value) ∷ []) =
    ap (λ (t : Bytes). b'{' ∷ ((json_string name ++ (b':' ∷ t)) ++ (b'}' ∷ []))) (append-nil value)
object_json-text ((name, value) ∷ next ∷ members) =
    ap (λ (t : Bytes). b'{' ∷ ((json_string name ++ (b':' ∷ (value ++ t))) ++ (b'}' ∷ [])))
      (object_members-later (next ∷ members))

count_members-object :
    (first : Bool) (counts : OrderedMap ℕ)
    → count_members first counts ≡ object_members first (number_members counts)
unfolding count_members object_members
count_members-object first [] = refl
count_members-object first ((name, n) ∷ counts) =
    ap
      (λ (t : Bytes).
        (if first then [] else codes ",") ++ (json_string name ++ (b':' ∷ (to_string n ++ t))))
      (count_members-object false counts)

counts_json-text :
    (counts : OrderedMap ℕ) → counts_json counts ≡ object_text (number_members counts)
unfolding counts_json object_json
counts_json-text counts =
    ap (λ (t : Bytes). b'{' ∷ (t ++ (b'}' ∷ []))) (count_members-object true counts)
    ∙ object_json-text (number_members counts)

module _ {V : Type 0} (name key : Bytes) (value : V) (m : OrderedMap V) where
  abbrev Differ : Comparison → Type 0
  Differ less = Unit
  Differ same = ⊥
  Differ greater = Unit

  other-emplace : Differ (order name key) → lookup name (emplace key value m) ≡ lookup name m
  other-emplace d = lookup-upsert key name (or_else value) m ∙ by_order (order name key) d
    where
      by_order :
          (c : Comparison)
          → Differ c
          → after c (or_else value (lookup key m)) (lookup name m) ≡ lookup name m
      by_order less d = refl
      by_order same d = absurd d
      by_order greater d = refl

  kept-emplace : (old : V) → lookup name m ≡ some old → lookup name (emplace key value m) ≡ some old
  kept-emplace old e =
      lookup-upsert key name (or_else value) m ∙ (elim (Comparison-cases (order name key)) [
        | inl h ↦ rw h e
        | inr (inl h) ↦ rw h (ap (λ (t : Option V). some (or_else value t)) (found h))
        | inr (inr h) ↦ rw h e
      ])
    where
      found : order name key ≡ same → lookup key m ≡ some old
      found h = subst (λ (t : Bytes). lookup t m ≡ some old) (eq_of_same name key h) e

module _ {V : Type 0} (key : Bytes) (value : V) (m : OrderedMap V) where
  new-emplace : lookup key m ≡ none → lookup key (emplace key value m) ≡ some value
  new-emplace e =
      lookup-upsert key key (or_else value) m
      ∙ rw (order_self key) (ap (λ (t : Option V). some (or_else value t)) e)

abbrev at_counts : Bytes
at_counts = codes "counts"

abbrev at_sequence : Bytes
at_sequence = codes "sequence"

abbrev at_digest : Bytes
at_digest = codes "stream_sha256"

abbrev at_success : Bytes
at_success = codes "success"

abbrev at_type : Bytes
at_type = codes "type"

module _ (fields : JsonFields) (counts sequence digest success type : Bytes) where
  abbrev with_counts : JsonFields
  with_counts = emplace at_counts counts fields

  abbrev with_sequence : JsonFields
  with_sequence = emplace at_sequence sequence with_counts

  abbrev with_digest : JsonFields
  with_digest = emplace at_digest digest with_sequence

  abbrev with_success : JsonFields
  with_success = emplace at_success success with_digest

  abbrev with_type : JsonFields
  with_type = emplace at_type type with_success

  -- The last one that is given has no name in the map before it, and each later one leaves it.
  found_type : IsFree fields → lookup at_type with_type ≡ some type
  unfolding order
  found_type h = new-emplace at_type type with_success (
      other-emplace at_type at_success success with_digest tt
      ∙ other-emplace at_type at_digest digest with_sequence tt
      ∙ other-emplace at_type at_sequence sequence with_counts tt
      ∙ other-emplace at_type at_counts counts fields tt
      ∙ h.1.1.1.1.0)

  found_success : IsFree fields → lookup at_success with_type ≡ some success
  unfolding order
  found_success h =
      other-emplace at_success at_type type with_success tt
      ∙ new-emplace at_success success with_digest (
          other-emplace at_success at_digest digest with_sequence tt
          ∙ other-emplace at_success at_sequence sequence with_counts tt
          ∙ other-emplace at_success at_counts counts fields tt
          ∙ h.1.1.1.0)

  found_digest : IsFree fields → lookup at_digest with_type ≡ some digest
  unfolding order
  found_digest h =
      other-emplace at_digest at_type type with_success tt
      ∙ other-emplace at_digest at_success success with_digest tt
      ∙ new-emplace at_digest digest with_sequence (
          other-emplace at_digest at_sequence sequence with_counts tt
          ∙ other-emplace at_digest at_counts counts fields tt
          ∙ h.1.1.0)

  found_sequence : IsFree fields → lookup at_sequence with_type ≡ some sequence
  unfolding order
  found_sequence h =
      other-emplace at_sequence at_type type with_success tt
      ∙ other-emplace at_sequence at_success success with_digest tt
      ∙ other-emplace at_sequence at_digest digest with_sequence tt
      ∙ new-emplace at_sequence sequence with_counts
          (other-emplace at_sequence at_counts counts fields tt ∙ h.1.0)

  found_counts : IsFree fields → lookup at_counts with_type ≡ some counts
  unfolding order
  found_counts h =
      other-emplace at_counts at_type type with_success tt
      ∙ other-emplace at_counts at_success success with_digest tt
      ∙ other-emplace at_counts at_digest digest with_sequence tt
      ∙ other-emplace at_counts at_sequence sequence with_counts tt
      ∙ new-emplace at_counts counts fields h.0

  found_kept :
      (name value : Bytes) → lookup name fields ≡ some value → lookup name with_type ≡ some value
  found_kept name value e = kept-emplace name at_type type with_success value (
      kept-emplace name at_success success with_digest value (
        kept-emplace name at_digest digest with_sequence value (
          kept-emplace name at_sequence sequence with_counts value
            (kept-emplace name at_counts counts fields value e))))

success_text :
    (success : Bool) → (if success then codes "true" else codes "false") ≡ bool_text success
success_text true = refl
success_text false = refl

pub footer_line-IsFooter :
    (records : List Record) (success : Bool) (fields : JsonFields)
    → IsFree fields
    → IsFooter records success fields (
        footer_line
          (length records % 2 ^ 64)
          (counts_from [] records)
          (hex_bytes (standard_digest (text_of records)))
          success
          fields)
unfolding footer_line
footer_line-IsFooter records success fields h =
    let counts = counts_json (counts_from [] records) in
    let sequence = to_string (length records % 2 ^ 64) in
    let digest = json_string (hex_bytes (standard_digest (text_of records))) in
    let flag = if success then codes "true" else codes "false" in
    let type = codes "\"footer\"" in
    record {
      members = with_type fields counts sequence digest flag type;
      printed =
          ap (λ (t : Bytes). t ++ (10 ∷ []))
            (object_json-text (with_type fields counts sequence digest flag type));
      type_is = found_type fields counts sequence digest flag type h;
      success_is =
          found_success fields counts sequence digest flag type h ∙ ap some (success_text success);
      sequence_is = found_sequence fields counts sequence digest flag type h;
      digest_is = found_digest fields counts sequence digest flag type h;
      counts = counts_from [] records;
      counts_are =
          found_counts fields counts sequence digest flag type h
          ∙ ap some (counts_json-text (counts_from [] records));
      counted = lookup-counts records;
      kept = found_kept fields counts sequence digest flag type;
    }
