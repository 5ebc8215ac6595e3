-- ===== src/Chain/Forks.antt =====
-- What `ChainConfig::revision` of core/silkworm/chain/config.cpp answers.
use silkworm.Common.{
  ℕ, zero, suc, ◌-◌, ◌≤◌, ◌<◌, ◌≡◌, ◌⊎◌, ◌∙◌, sym, refl, true, false, Option, none, some, List,
  ◌==◌, ==_iff, if◌then◌else◌, arith, Bool-cases, inl, inr,
}
use silkworm.Chain.Config.{
  ChainConfig, get_elem?, is_reached, revision_loop, revision, revision_block, max_revision,
}

is_reached-some :
    (n : ℕ) (o : Option (Option ℕ))
    → is_reached n o ≡ true
    → (fork : ℕ) × (o ≡ some (some fork)) × (fork ≤ n)
is_reached-some n none h = cc
is_reached-some n (some none) h = cc
is_reached-some n (some (some fork)) h = (fork, refl, ground arith)

module _ (forks : List (Option ℕ)) (n : ℕ) where
  revision_loop-le : (i : ℕ) → revision_loop i forks n ≤ i
  unfolding revision_loop
  revision_loop-le zero = omega arith
  revision_loop-le (suc i) = elim (Bool-cases (is_reached n (get_elem? forks i))) [
    | inl e ↦ rw e (omega arith)
    | inr e ↦ rw e (omega (arith, revision_loop-le i))
  ]

  revision_loop-reached :
      (i : ℕ)
      → (revision_loop i forks n ≡ 0)
        ⊎ (is_reached n (get_elem? forks (revision_loop i forks n - 1)) ≡ true)
  unfolding revision_loop
  revision_loop-reached zero = inl refl
  revision_loop-reached (suc i) = elim (Bool-cases (is_reached n (get_elem? forks i))) [
    | inl e ↦ rw (e, if◌then◌else◌) (let pred : suc i - 1 ≡ i = omega arith in inr (rw pred e))
    | inr e ↦ rw e (revision_loop-reached i)
  ]

  revision_loop-highest :
      (i j : ℕ) → j < i → is_reached n (get_elem? forks j) ≡ true → j < revision_loop i forks n
  unfolding revision_loop
  revision_loop-highest zero j l h = absurd (omega arith)
  revision_loop-highest (suc i) j l h = elim (Bool-cases (is_reached n (get_elem? forks i))) [
    | inl e ↦ rw e (omega arith)
    | inr e ↦ rw e (elim (Bool-cases (j == i)) [
      | inl same ↦ absurd (let eq = (==_iff j i).0 same in cc)
      | inr other ↦ revision_loop-highest i j (ground arith) h
    ])
  ]

-- The revision at a block is the highest one whose fork the block has reached: its fork block is at
-- or below that block, and so is no higher revision's.
pub record IsHighestFork (config : ChainConfig) (n rev : ℕ) : Type 0 where
  pub known : rev ≤ max_revision
  pub reached : (fork : ℕ) × (revision_block config rev ≡ some (some fork)) × (fork ≤ n)
  pub highest :
      (other fork : ℕ)
      → other ≤ max_revision
      → revision_block config other ≡ some (some fork)
      → fork ≤ n
      → other ≤ rev

block_fork :
    (config : ChainConfig) (rev : ℕ)
    → (rev == 0) ≡ false
    → revision_block config rev ≡ get_elem? config.fork_blocks (rev - 1)
unfolding revision_block
block_fork config rev e = rw (e, if◌then◌else◌) refl

block_reached :
    (config : ChainConfig) (n rev : ℕ)
    → (rev ≡ 0) ⊎ (is_reached n (get_elem? config.fork_blocks (rev - 1)) ≡ true)
    → (fork : ℕ) × (revision_block config rev ≡ some (some fork)) × (fork ≤ n)
unfolding revision_block
block_reached config n rev h = elim (Bool-cases (rev == 0)) [
  | inl zeroth ↦ (0, rw (zeroth, if◌then◌else◌) refl, omega arith)
  | inr later ↦ elim h [
    | inl zeroth ↦ absurd (ground arith)
    | inr r ↦
        let found = is_reached-some n _ r in
        (found.0, block_fork config rev later ∙ found.1, found.2)
  ]
]

le_highest :
    (config : ChainConfig) (n other fork : ℕ)
    → other ≤ max_revision
    → revision_block config other ≡ some (some fork)
    → fork ≤ n
    → other ≤ revision config n
unfolding revision
le_highest config n other fork l is below = elim (Bool-cases (other == 0)) [
  | inl zeroth ↦ ground arith
  | inr later ↦
      let at : get_elem? config.fork_blocks (other - 1) ≡ some (some fork) =
        sym (block_fork config other later) ∙ is in
      let reached : is_reached n (get_elem? config.fork_blocks (other - 1)) ≡ true =
        rw at (ground arith) in
      let positive : 0 < other = ground arith in
      omega (
        arith,
        revision_loop-highest config.fork_blocks n max_revision (other - 1) (omega arith) reached,
      )
]

-- `revision` answers the highest revision whose fork block is reached.
pub revision-IsHighestFork :
    (config : ChainConfig) (n : ℕ) → IsHighestFork config n (revision config n)
unfolding revision revision_block
revision-IsHighestFork config n = record {
  known = revision_loop-le config.fork_blocks n max_revision;
  reached = block_reached config n _ (revision_loop-reached config.fork_blocks n max_revision);
  highest = λ other fork l is below. le_highest config n other fork l is below;
}

-- As blocks go on, the revision never goes back.
pub revision_monotone :
    (config : ChainConfig) (m n : ℕ) → m ≤ n → revision config m ≤ revision config n
revision_monotone config m n l =
    let at_m = revision-IsHighestFork config m in
    (revision-IsHighestFork config n).highest (revision config m) at_m.reached.0 at_m.known
      at_m.reached.1 (omega (arith, at_m.reached.2))
