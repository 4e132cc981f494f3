-- ===== src/Artifact/Discovery/Confined.antt =====
-- Where the candidates of `discover_artifacts` lie, and its diagnostics.
use getbiblesword.Prelude.{
  Bool, ◌≡◌, refl, ◌⊎◌, inl, inr, true, not, Option, none, some, List, [], ◌∷◌, Bytes, codes, All,
  All-append, if◌then◌else◌, Bool-cases,
}
use getbiblesword.OrderedMap.{lookup, upsert}
use getbiblesword.OrderedMap.Order.{order}
use getbiblesword.CallbackStream.{is_empty}
use getbiblesword.Artifact.{Diagnostic, ArtifactCandidate, diagnostic_fields}
use getbiblesword.Artifact.Blocks.{IsError}
use getbiblesword.Artifact.Discovery.Unique.{HasNoRepeats, unique-HasNoRepeats, unique-All}
use getbiblesword.Artifact.Discovery.{
  Paths, Presence, absent, directory, other_object, Tree, Discovery, add_diagnostic, escapes,
  is_within_root, normalize_candidate, add_candidate, add_configuration, add_configurations,
  add_all, report_enumeration, with_prefix, is_resolved, add_prefixed, add_present, add_normalized,
  add_data, discover_in, discover_artifacts,
}

-- What is documented of the calls: what is listed below a directory within the root is within the
-- root, and `std::sort` gives the elements in another order.
pub record Lists (paths : Paths) (tree : Tree) : Type 1 where
  pub below :
      (root dir : Bytes)
      → is_within_root paths root dir ≡ true
      → All (λ file. is_within_root paths root file ≡ true) (tree.recursive_entries dir).files
  pub sort-All :
      (P : ArtifactCandidate → Type 0) (is_before : ArtifactCandidate → ArtifactCandidate → Bool)
      (cs : List ArtifactCandidate)
      → All P cs
      → All P (tree.sort is_before cs)

module _ (paths : Paths) where
  -- A candidate that is not found by its prefix lies within the root.
  abbrev pub IsPlaced : Bytes → ArtifactCandidate → Type 0
  IsPlaced root c =
      (c.relative_path ≡ paths.lexically_relative c.absolute_path root)
      × ((c.role ≡ codes "module_data_prefix") ⊎ (is_within_root paths root c.absolute_path ≡ true))

  abbrev pub IsSafe : Bytes → Discovery → Type 0
  IsSafe root d = All (IsPlaced root) d.output × All IsError d.diagnostics

  add_diagnostic-IsSafe :
      (root : Bytes) (d : Discovery) (value : Diagnostic)
      → IsError value
      → IsSafe root d
      → IsSafe root (add_diagnostic d value)
  add_diagnostic-IsSafe root d value e h =
      (h.0, All-append IsError d.diagnostics (value ∷ []) h.1 (e, tt))

  add_candidate-IsSafe :
      (root : Bytes) (d : Discovery) (file role : Bytes)
      → (role ≡ codes "module_data_prefix") ⊎ (is_within_root paths root file ≡ true)
      → IsSafe root d
      → IsSafe root (add_candidate paths d root file role)
  unfolding add_candidate
  add_candidate-IsSafe root d file role e h =
      (All-append (IsPlaced root) d.output (_ ∷ []) h.0 ((refl, e), tt), h.1)

  add_all-IsSafe :
      (root role : Bytes) (files : List Bytes) (d : Discovery)
      → All
          (λ file. (role ≡ codes "module_data_prefix") ⊎ (is_within_root paths root file ≡ true))
          files
      → IsSafe root d
      → IsSafe root (add_all paths root role files d)
  unfolding add_all
  add_all-IsSafe root role [] d e h = h
  add_all-IsSafe root role (file ∷ files) d e h =
      add_all-IsSafe root role files _ e.1 (add_candidate-IsSafe root d file role e.0 h)

  -- A path that is normalized is within the root.
  abbrev IsInside : Bytes → Bytes ⊎ Bytes → Type 0
  IsInside root (inl text) = Unit
  IsInside root (inr found) = is_within_root paths root found ≡ true

  normalize_candidate-IsInside :
      (root candidate : Bytes) → IsInside root (normalize_candidate paths root candidate)
  unfolding normalize_candidate
  normalize_candidate-IsInside root candidate = inside (
      if paths.is_absolute candidate
      then paths.lexically_normal candidate
      else paths.lexically_normal (paths.join root candidate))
    where
      inside :
          (found : Bytes)
          → IsInside root (if not (is_within_root paths root found) then inl escapes else inr found)
      inside found = elim (Bool-cases (is_within_root paths root found)) [
        | inl within ↦ rw within within
        | inr outside ↦ rw outside tt
      ]

  add_configurations-IsSafe :
      (root : Bytes) (configs : List Bytes) (d : Discovery)
      → IsSafe root d
      → IsSafe root (add_configurations paths root configs d)
  unfolding add_configurations add_configuration diagnostic_fields lookup upsert order
  add_configurations-IsSafe root [] d h = h
  add_configurations-IsSafe root (config ∷ configs) d h =
      add_configurations-IsSafe root configs _
        (added (normalize_candidate paths root config) (normalize_candidate-IsInside root config))
    where
      added :
          (found : Bytes ⊎ Bytes)
          → IsInside root found
          → IsSafe root (add_configuration paths root config found d)
      added (inl text) e = add_diagnostic-IsSafe root d _ (refl, refl, refl) h
      added (inr found) e = add_candidate-IsSafe root d found (codes "configuration") (inr e) h

  by_prefix :
      (root role : Bytes) (files : List Bytes)
      → role ≡ codes "module_data_prefix"
      → All
          (λ file. (role ≡ codes "module_data_prefix") ⊎ (is_within_root paths root file ≡ true))
          files
  by_prefix root role [] e = tt
  by_prefix root role (file ∷ files) e = (inl e, by_prefix root role files e)

  by_place :
      (root role : Bytes) (files : List Bytes)
      → All (λ file. is_within_root paths root file ≡ true) files
      → All
          (λ file. (role ≡ codes "module_data_prefix") ⊎ (is_within_root paths root file ≡ true))
          files
  by_place root role [] h = tt
  by_place root role (file ∷ files) h = (inr h.0, by_place root role files h.1)

  add_prefixed-IsSafe :
      (root data_path : Bytes) (failure : Option Bytes) (matched : List Bytes) (d : Discovery)
      → IsSafe root d
      → IsSafe root (add_prefixed paths root data_path failure matched d)
  unfolding add_prefixed diagnostic_fields lookup upsert order
  add_prefixed-IsSafe root data_path failure matched d h =
      let found =
        add_all-IsSafe root (codes "module_data_prefix") matched d (by_prefix root _ matched refl)
          h in
      elim (Bool-cases (is_resolved paths failure matched)) [
        | inl resolved ↦ rw resolved found
        | inr unresolved ↦ rw unresolved (add_diagnostic-IsSafe root _ _ (refl, refl, refl) found)
      ]

  report_enumeration-IsSafe :
      (root found : Bytes) (failure : Option Bytes) (d : Discovery)
      → IsSafe root d
      → IsSafe root (report_enumeration paths root found failure d)
  unfolding report_enumeration diagnostic_fields lookup upsert order
  report_enumeration-IsSafe root found none d h = h
  report_enumeration-IsSafe root found (some message) d h =
      add_diagnostic-IsSafe root d _ (refl, refl, refl) h

  module _ (tree : Tree) (lists : Lists paths tree) where
    add_present-IsSafe :
        (root data_path found : Bytes) (presence : Presence) (d : Discovery)
        → is_within_root paths root found ≡ true
        → IsSafe root d
        → IsSafe root (add_present paths tree root data_path found presence d)
    unfolding add_present
    add_present-IsSafe root data_path found absent d e h =
        let siblings = tree.entries (paths.parent_path found) in
        add_prefixed-IsSafe root data_path siblings.failure
          (with_prefix paths (paths.filename found) siblings.files) d h
    add_present-IsSafe root data_path found other_object d e h =
        add_candidate-IsSafe root d found _ (inr e) h
    add_present-IsSafe root data_path found directory d e h =
        report_enumeration-IsSafe root found _ _ (
          add_all-IsSafe root _ (tree.recursive_entries found).files _
            (by_place root _ _ (lists.below root found e))
            (add_candidate-IsSafe root d found _ (inr e) h))

    add_data-IsSafe :
        (root data_path : Bytes) (d : Discovery)
        → IsSafe root d
        → IsSafe root (add_data paths tree root data_path d)
    unfolding add_data add_normalized diagnostic_fields lookup upsert order
    add_data-IsSafe root data_path d h = elim (Bool-cases (is_empty data_path)) [
      | inl empty ↦ rw empty (add_diagnostic-IsSafe root d _ (refl, refl, refl) h)
      | inr present ↦ rw present (
          found (normalize_candidate paths root data_path)
            (normalize_candidate-IsInside root data_path))
    ]
      where
        found :
            (n : Bytes ⊎ Bytes)
            → IsInside root n
            → IsSafe root (add_normalized paths tree root data_path n d)
        found (inl text) e = add_diagnostic-IsSafe root d _ (refl, refl, refl) h
        found (inr path) e = add_present-IsSafe root data_path path (tree.symlink_status path) d e h

    discovered-IsSafe :
        (root data_path : Bytes) (files : List Bytes)
        → IsSafe root (
            add_data paths tree root data_path
              (add_configurations paths root files (record { output = []; diagnostics = [] })))
    discovered-IsSafe root data_path files =
        add_data-IsSafe root data_path _ (add_configurations-IsSafe root files _ (tt, tt))

    -- Where the root has a canonical path, each candidate that `discover_artifacts` gives has its path
    -- relative to that root and, unless it is a sibling found by the prefix of the data path, lies within
    -- the root; and no candidate has the path of the one before it.
    pub discover_artifacts-IsPlaced :
        (sword_root root data_path : Bytes) (files : List Bytes)
        → tree.canonical sword_root ≡ inr root
        → let found = (discover_artifacts paths tree sword_root data_path files).output in
          All (IsPlaced root) found × HasNoRepeats paths found
    unfolding discover_artifacts discover_in
    discover_artifacts-IsPlaced sword_root root data_path files e = rw e (
      unique-All paths (IsPlaced root) _
          (lists.sort-All (IsPlaced root) _ _ (discovered-IsSafe root data_path files).0),
      unique-HasNoRepeats paths _,
    )

    pub discover_artifacts-AreErrors :
        (sword_root data_path : Bytes) (files : List Bytes)
        → All IsError (discover_artifacts paths tree sword_root data_path files).diagnostics
    unfolding discover_artifacts discover_in diagnostic_fields lookup upsert order
    discover_artifacts-AreErrors sword_root data_path files = by_root (tree.canonical sword_root)
      where
        by_root :
            (root : Bytes ⊎ Bytes)
            → All IsError (discover_in paths tree root data_path files).diagnostics
        by_root (inl message) = ((refl, refl, refl), tt)
        by_root (inr root) = (discovered-IsSafe root data_path files).1
