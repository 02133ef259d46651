-- ===== src/Features/Importance.antt =====
-- src/feature_engineering/importance_scorer.py: `ImportanceScorer.score_block` and `score_batch`.
pub mod Range
use multie_layer_kache.Prelude.{
  ℕ, zero, suc, ◌+◌, Bool, true, false, Option, none, some, List, [], ◌∷◌, if◌then◌else◌,
  or_default, ◌>>=◌,
}
use multie_layer_kache.Prelude.Floats.{Double, nought, one, fmin}
use multie_layer_kache.Telemetry.Schema.{BlockState, tier_eq, gpu_quantized}

pub record ImportanceScorer (W : Type 0) : Type 0 where
  pub alpha : W
  pub beta : W
  pub gamma : W
  pub delta : W

-- The signals that a caller may give for a block.
pub record Signals (W : Type 0) : Type 0 where
  pub future_attention : Option W
  pub reuse_probability : Option W
  pub quality_drop : Option W
  pub memory_cost : Option W

module _ {W : Type 0} ⦃d : Double W⦄ where
  -- `np.clip(x, 0.0, 1.0)`
  abbrev pub clip : W → W
  clip x = if d.lt x nought then nought else if d.lt one x then one else x

  -- `min(1.0, block.access_count / 10.0)` for a block without a reused prefix
  abbrev pub reuse_of : BlockState W → W
  reuse_of b =
      if b.prefix_reuse_flag then one else fmin one (d.div (d.of_int b.access_count) (d.of_int 10))

  abbrev pub cost_of : BlockState W → Option W → W
  cost_of b none = if tier_eq b.current_tier gpu_quantized then d.lit 5 1 else one
  cost_of b (some cost) = clip cost

  unfoldable pub score_block : ImportanceScorer W → BlockState W → Signals W → W
  score_block s b given =
      let att = clip (or_default given.future_attention b.avg_attention_score) in
      let reu = clip (or_default given.reuse_probability (reuse_of b)) in
      let qd = clip (or_default given.quality_drop (fmin one b.max_attention_score)) in
      let mc = cost_of b given.memory_cost in
      clip (
        d.sub (d.add (d.add (d.mul s.alpha att) (d.mul s.beta reu)) (d.mul s.gamma qd))
          (d.mul s.delta mc))

-- `values[i] if values else None`, where an absent list is empty; `none` is an index that is out of range
abbrev pub nth {ℓ} : {A : Type ℓ} → List A → ℕ → Option (Option A)
nth [] i = none
nth (x ∷ xs) zero = some (some x)
nth (x ∷ xs) (suc i) = nth xs i

abbrev pub given_at {ℓ} : {A : Type ℓ} → List A → ℕ → Option (Option A)
given_at [] i = some none
given_at (x ∷ xs) i = nth (x ∷ xs) i

module _ {W : Type 0} ⦃d : Double W⦄ where
  abbrev pub signals : Option W → Option W → Signals W
  signals fa rp = record {
    future_attention = fa;
    reuse_probability = rp;
    quality_drop = none;
    memory_cost = none;
  }

  -- the loop from block `i` on, with the rounding to `float32` of the array; `none` is an `IndexError`
  unfoldable pub score_from :
      (W → W) → ImportanceScorer W → List W → List W → ℕ → List (BlockState W) → Option (List W)
  unfolding score_block
  score_from single s future_attentions reuse_probs i [] = some []
  score_from single s future_attentions reuse_probs i (b ∷ blocks) = do
    fa ← given_at future_attentions i
    rp ← given_at reuse_probs i
    rest ← score_from single s future_attentions reuse_probs (suc i) blocks
    some (single (score_block s b (signals fa rp)) ∷ rest)

  unfoldable pub score_batch :
      (W → W) → ImportanceScorer W → List (BlockState W) → List W → List W → Option (List W)
  unfolding score_from
  score_batch single s blocks future_attentions reuse_probs =
      score_from single s future_attentions reuse_probs 0 blocks
