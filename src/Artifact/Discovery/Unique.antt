-- ===== src/Artifact/Discovery/Unique.antt =====
-- `std::unique` as `discover_artifacts` calls it.
use getbiblesword.Prelude.{◌≡◌, inl, inr, false, List, [], ◌∷◌, All, Bool-cases}
use getbiblesword.Artifact.{ArtifactCandidate}
use getbiblesword.Artifact.Discovery.{Paths, drop_repeats, unique}

module _ (paths : Paths) where
  -- No candidate has the path of the one before.
  abbrev pub AreDistinct : ArtifactCandidate → List ArtifactCandidate → Type 0
  AreDistinct c [] = Unit
  AreDistinct c (next ∷ cs) =
      (paths.same_path c.absolute_path next.absolute_path ≡ false) × AreDistinct next cs

  abbrev pub HasNoRepeats : List ArtifactCandidate → Type 0
  HasNoRepeats [] = Unit
  HasNoRepeats (c ∷ cs) = AreDistinct c cs

  drop_repeats-AreDistinct :
      (kept : ArtifactCandidate) (cs : List ArtifactCandidate)
      → AreDistinct kept (drop_repeats paths kept cs)
  unfolding drop_repeats
  drop_repeats-AreDistinct kept [] = tt
  drop_repeats-AreDistinct kept (c ∷ cs) =
      elim (Bool-cases (paths.same_path kept.absolute_path c.absolute_path)) [
        | inl same ↦ rw same (drop_repeats-AreDistinct kept cs)
        | inr other ↦ rw other (other, drop_repeats-AreDistinct c cs)
      ]

  pub unique-HasNoRepeats : (cs : List ArtifactCandidate) → HasNoRepeats (unique paths cs)
  unfolding unique
  unique-HasNoRepeats [] = tt
  unique-HasNoRepeats (c ∷ cs) = drop_repeats-AreDistinct c cs

  drop_repeats-All :
      (P : ArtifactCandidate → Type 0) (kept : ArtifactCandidate) (cs : List ArtifactCandidate)
      → All P cs
      → All P (drop_repeats paths kept cs)
  unfolding drop_repeats
  drop_repeats-All P kept [] h = tt
  drop_repeats-All P kept (c ∷ cs) h =
      elim (Bool-cases (paths.same_path kept.absolute_path c.absolute_path)) [
        | inl same ↦ rw same (drop_repeats-All P kept cs h.1)
        | inr other ↦ rw other (h.0, drop_repeats-All P c cs h.1)
      ]

  pub unique-All :
      (P : ArtifactCandidate → Type 0) (cs : List ArtifactCandidate)
      → All P cs
      → All P (unique paths cs)
  unfolding unique
  unique-All P [] h = tt
  unique-All P (c ∷ cs) h = (h.0, drop_repeats-All P c cs h.1)
