-- ===== src/Chain/Kinship.antt =====
-- What is_kin of core/silkworm/chain/validity.cpp answers.
use silkworm.Common.{
  ℕ, zero, suc, ◌<◌, ◌≡◌, ◌∙◌, refl, true, Option, none, some, List, ◌++◌, arith, Bool-cases,
  Option-cases, inl, inr,
}
use silkworm.Types.{BlockHeader}
use silkworm.Chain.Roots.{Hashing}
use silkworm.Chain.Validity.{ChainReader, get_parent, same_header, same_parent, is_kin}

module _ (state : ChainReader) where
  -- The header that is `k` generations above.
  unfoldable pub ancestor : ℕ → BlockHeader → Option BlockHeader
  ancestor zero header = some header
  ancestor (suc k) header = elim (get_parent state header) [
    | none ↦ none
    | some parent ↦ ancestor k parent
  ]

module _ (hashing : Hashing) (state : ChainReader) where
  step_up :
      (k : ℕ) (header parent : BlockHeader)
      → get_parent state header ≡ some parent
      → ancestor state (suc k) header ≡ ancestor state k parent
  unfolding ancestor
  step_up k header parent e = rw (e, ancestor) refl

  -- If a header is found to be kin to the mainline within `n` generations, then its parent is an
  -- ancestor of the mainline header, at most `n` generations above it.
  pub is_kin-ancestor :
      (branch mainline : BlockHeader) (hash n : ℕ) (old_ommers : List BlockHeader)
      → (is_kin hashing state branch mainline hash n old_ommers).0 ≡ true
      → (k : ℕ) × (k < n)
        × ((parent : BlockHeader) × (ancestor state (suc k) mainline ≡ some parent)
            × (same_parent (get_parent state branch) parent ≡ true))
  unfolding is_kin ancestor
  is_kin-ancestor branch mainline hash zero old_ommers h = absurd cc
  is_kin-ancestor branch mainline hash (suc n) old_ommers h =
      elim (Bool-cases (same_header branch mainline)) [
        | inl same ↦ let never = rw (same, is_kin) at h in absurd cc
        | inr other ↦
            let h = rw (other, is_kin) at h in
            elim (Option-cases (state.read_body mainline.number hash)) [
              | inl missing ↦ let never = rw (missing, is_kin) at h in absurd cc
              | inr (body, has_body) ↦
                  let h = rw (has_body, is_kin) at h in
                  elim (Option-cases (get_parent state mainline)) [
                    | inl missing ↦ let never = rw (missing, is_kin) at h in absurd cc
                    | inr (parent, has_parent) ↦
                        let h = rw (has_parent, is_kin) at h in
                        let up = λ (k : ℕ). step_up k mainline parent has_parent in
                        elim (Bool-cases (same_parent (get_parent state branch) parent)) [
                          | inl siblings ↦ (0, omega arith, (parent, up 0, siblings))
                          | inr apart ↦
                              let h = rw (apart, is_kin) at h in
                              let above =
                                is_kin-ancestor branch parent mainline.parent_hash n
                                  (old_ommers ++ body.ommers) h in
                              (
                                suc above.0,
                                omega (arith, above.1),
                                (above.2.0, up (suc above.0) ∙ above.2.1, above.2.2),
                              )
                        ]
                  ]
            ]
      ]
