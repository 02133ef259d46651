-- ===== src/Engine/Apply.antt =====
-- What `apply_decisions` does to the tracker, block by block.
use mathlib.Core.Option
use multie_layer_kache.Prelude.{
  ℕ, ◌≡◌, ◌∙◌, refl, sym, ap, subst, Option, none, List, [], ◌∷◌, arith, nat_key, ◌==◌,
  if◌then◌else◌, inl, inr, Bool-cases, equal-true,
}
use multie_layer_kache.Prelude.Members.{In, Distinct}
use multie_layer_kache.Telemetry.Schema.{
  BlockState, BlockDecision, BlockTier, keep_gpu, quantize, offload_cpu, evict,
}
use multie_layer_kache.Telemetry.Tracker.{Tracker, get_block, update_tier, set_importance_score}
use multie_layer_kache.Telemetry.Tracker.Valid.{IsValid, evict_block-IsValid, update_block-IsValid}
use multie_layer_kache.Telemetry.Tracker.View.{evict_block-view, update_block-view}
use multie_layer_kache.Policies.Base.{PolicyDecision}
use multie_layer_kache.Policies.Heuristic.Contract.{decided}
use multie_layer_kache.Engine.{decision_to_tier, apply_decision, apply_decisions}

module _ {W : Type 0} where
  abbrev pub placed : BlockTier → W → BlockState W → BlockState W
  placed tier s b = record b { current_tier = tier; importance_score = s }

  -- What a decision makes of the block it is about.
  abbrev pub outcome : W → BlockDecision → Option (BlockState W) → Option (BlockState W)
  outcome s evict b = none
  outcome s keep_gpu b = Option.map (placed (decision_to_tier keep_gpu) s) b
  outcome s quantize b = Option.map (placed (decision_to_tier quantize) s) b
  outcome s offload_cpu b = Option.map (placed (decision_to_tier offload_cpu) s) b

  -- What a list of decisions makes of the block with an id.
  abbrev pub outcome_for :
      ℕ → List (PolicyDecision W) → Option (BlockState W) → Option (BlockState W)
  outcome_for i [] b = b
  outcome_for i (x ∷ xs) b =
      if x.block_id == i then outcome x.score x.decision b else outcome_for i xs b

  place-IsValid :
      (t : Tracker W) (i : ℕ) (tier : BlockTier) (s : W)
      → IsValid t
      → IsValid (set_importance_score (update_tier t i tier) i s)
  unfolding update_tier set_importance_score
  place-IsValid t i tier s v =
      update_block-IsValid _ i _ (λ b. refl) (update_block-IsValid t i _ (λ b. refl) v)

  apply_decision-IsValid :
      (t : Tracker W) (i : ℕ) (s : W) (k : BlockDecision)
      → IsValid t
      → IsValid (apply_decision t i s k)
  unfolding apply_decision
  apply_decision-IsValid t i s evict v = evict_block-IsValid t i v
  apply_decision-IsValid t i s keep_gpu v = place-IsValid t i (decision_to_tier keep_gpu) s v
  apply_decision-IsValid t i s quantize v = place-IsValid t i (decision_to_tier quantize) s v
  apply_decision-IsValid t i s offload_cpu v = place-IsValid t i (decision_to_tier offload_cpu) s v

  pub apply_decisions-IsValid :
      (t : Tracker W) (xs : List (PolicyDecision W)) → IsValid t → IsValid (apply_decisions t xs)
  unfolding apply_decisions
  apply_decisions-IsValid t [] v = v
  apply_decisions-IsValid t (x ∷ xs) v =
      apply_decisions-IsValid (apply_decision t x.block_id x.score x.decision) xs
        (apply_decision-IsValid t x.block_id x.score x.decision v)

  place-view :
      (t : Tracker W) (i j : ℕ) (tier : BlockTier) (s : W)
      → get_block (set_importance_score (update_tier t i tier) i s) j
        ≡ (if i == j then Option.map (placed tier s) (get_block t j) else get_block t j)
  unfolding update_tier set_importance_score
  place-view t i j tier s = ground (
    arith,
    update_block-view i (λ b. record b { importance_score = s }) (update_tier t i tier) j,
    update_block-view i (λ b. record b { current_tier = tier }) t j,
  )

  apply_decision-view :
      (t : Tracker W) (i : ℕ) (s : W) (k : BlockDecision) (j : ℕ)
      → get_block (apply_decision t i s k) j
        ≡ (if i == j then outcome s k (get_block t j) else get_block t j)
  unfolding apply_decision
  apply_decision-view t i s evict j = evict_block-view t i j
  apply_decision-view t i s keep_gpu j = place-view t i j (decision_to_tier keep_gpu) s
  apply_decision-view t i s quantize j = place-view t i j (decision_to_tier quantize) s
  apply_decision-view t i s offload_cpu j = place-view t i j (decision_to_tier offload_cpu) s

  outcome_for_undecided :
      (i : ℕ) (xs : List (PolicyDecision W)) (b : Option (BlockState W))
      → (In i (decided xs) → ⊥)
      → outcome_for i xs b ≡ b
  outcome_for_undecided i [] b out = refl
  outcome_for_undecided i (x ∷ xs) b out = elim (Bool-cases (x.block_id == i)) [
    | inl p ↦ absurd (out (inl (sym (equal-true x.block_id i p))))
    | inr p ↦ rw p (outcome_for_undecided i xs b (λ m. out (inr m)))
  ]

  outcome-none : (s : W) (k : BlockDecision) → outcome s k none ≡ none
  outcome-none s evict = refl
  outcome-none s keep_gpu = refl
  outcome-none s quantize = refl
  outcome-none s offload_cpu = refl

  -- No decision makes a block out of nothing.
  pub outcome_for-none : (i : ℕ) (xs : List (PolicyDecision W)) → outcome_for i xs none ≡ none
  outcome_for-none i [] = refl
  outcome_for-none i (x ∷ xs) = elim (Bool-cases (x.block_id == i)) [
    | inl p ↦ rw p (outcome-none x.score x.decision)
    | inr p ↦ rw p (outcome_for-none i xs)
  ]

  outcome_for-cons :
      (x : PolicyDecision W) (xs : List (PolicyDecision W)) (j : ℕ) (b : Option (BlockState W))
      → (In x.block_id (decided xs) → ⊥)
      → outcome_for j xs (if x.block_id == j then outcome x.score x.decision b else b)
        ≡ outcome_for j (x ∷ xs) b
  outcome_for-cons x xs j b out = elim (Bool-cases (x.block_id == j)) [
    | inl p ↦ rw p (
        outcome_for_undecided j xs (outcome x.score x.decision b)
          (subst (λ i. In i (decided xs) → ⊥) (equal-true x.block_id j p) out))
    | inr p ↦ rw p refl
  ]

  -- Given decisions about distinct blocks: after `apply_decisions` an evicted block is untracked, every
  -- other tracked block that was decided about has the tier of its decision and the score of it as its
  -- importance, and all else that is tracked is as before.
  pub apply_decisions_lem :
      (t : Tracker W) (xs : List (PolicyDecision W)) (j : ℕ)
      → Distinct (decided xs)
      → get_block (apply_decisions t xs) j ≡ outcome_for j xs (get_block t j)
  unfolding apply_decisions
  apply_decisions_lem t [] j dist = refl
  apply_decisions_lem t (x ∷ xs) j (out, dist) =
      let rest = apply_decisions_lem (apply_decision t x.block_id x.score x.decision) xs j dist in
      let here = apply_decision-view t x.block_id x.score x.decision j in
      rest ∙ ap (outcome_for j xs) here ∙ outcome_for-cons x xs j (get_block t j) out
