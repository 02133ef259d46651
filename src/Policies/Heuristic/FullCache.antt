-- ===== src/Policies/Heuristic/FullCache.antt =====
-- `FullCachePolicy` under memory pressure evicts the least recently used blocks.
use multie_layer_kache.Prelude.{
  ℕ, ◌≤◌, ◌<◌, ◌≡◌, ◌∙◌, refl, ap, ◌⊎◌, inl, inr, Bool, true, false, not, some, List, arith,
  nat_key, if◌then◌else◌, ltb, leb, length, count_by, count_by-map, count_by-cong, min, Bool-cases,
}
use multie_layer_kache.Prelude.Floats.{Double}
use multie_layer_kache.Prelude.Members.{In, Distinct, member}
use multie_layer_kache.Telemetry.Schema.{BlockState, keep_gpu, evict, decision_eq}
use multie_layer_kache.Policies.Base.{PolicyConfig, PolicyDecision}
use multie_layer_kache.Policies.Base.Answers.{decision_for, decision_for-map}
use multie_layer_kache.Policies.Ids.{ids, first_ids, by_last_access}
use multie_layer_kache.Policies.Ids.Ranking.{by_last_access-IsOrder, count_by-first_ids}
use multie_layer_kache.Policies.Ids.Bounds.{first_ids-In, first_ids-out}
use multie_layer_kache.Policies.Heuristic.{full_cache_decisions, lru_verdict, lru_quota}

not-leb : (a b : ℕ) → not (leb a b) ≡ ltb b a
not-leb a b = ground arith

is_evict : (out : Bool) → decision_eq (if out then evict else keep_gpu) evict ≡ out
is_evict true = refl
is_evict false = refl

module _ {W : Type 0} ⦃d : Double W⦄ (c : PolicyConfig W) (pressure : W)
    (blocks : List (BlockState W)) (dist : Distinct (ids blocks))
    (tight : d.lt pressure c.memory_pressure_high ≡ false) where
  evicted_ids : List ℕ
  evicted_ids = first_ids by_last_access (lru_quota blocks) blocks

  decision_tight :
      (b : BlockState W)
      → In b blocks
      → decision_for b.block_id (full_cache_decisions c pressure blocks)
        ≡ some (if member b.block_id evicted_ids then evict else keep_gpu)
  unfolding full_cache_decisions evicted_ids
  decision_tight b m = rw tight (
      decision_for-map (λ (x : BlockState W). x.block_id) (lru_verdict evicted_ids) blocks b
        (λ x. refl) dist m)

  -- At or above the high threshold, for blocks with distinct ids: a block is evicted only if fewer
  -- blocks than the quota were last accessed strictly before it, and kept only if at least as many as
  -- the quota were last accessed no later than it.
  pub full_cache_lru :
      (b : BlockState W)
      → In b blocks
      → let answer = decision_for b.block_id (full_cache_decisions c pressure blocks) in
        let older = count_by (λ x. ltb (BlockState.last_access_step x) b.last_access_step) blocks in
        let no_newer =
          count_by (λ x. leb (BlockState.last_access_step x) b.last_access_step) blocks in
        ((answer ≡ some evict) × (older < lru_quota blocks))
        ⊎ ((answer ≡ some keep_gpu) × (lru_quota blocks ≤ no_newer))
  unfolding evicted_ids
  full_cache_lru b m =
      let n = lru_quota blocks in
      elim (Bool-cases (member b.block_id evicted_ids)) [
        | inl out ↦ inl (
          decision_tight b m ∙ ap (λ k. some (if k then evict else keep_gpu)) out,
          omega (
            arith,
            first_ids-In by_last_access-IsOrder n blocks b dist m out,
            count_by-cong (λ (x : BlockState W). not (by_last_access b x))
                (λ (x : BlockState W). ltb x.last_access_step b.last_access_step) blocks
                (λ x. not-leb b.last_access_step x.last_access_step),
          ),
        )
        | inr kept ↦ inr (
          decision_tight b m ∙ ap (λ k. some (if k then evict else keep_gpu)) kept,
          first_ids-out by_last_access-IsOrder n blocks b m kept,
        )
      ]

  -- At or above the high threshold, for blocks with distinct ids, exactly the quota of blocks is
  -- evicted, or every block where there are fewer.
  pub full_cache_evictions :
      count_by
        (λ x. decision_eq (PolicyDecision.decision x) evict)
        (full_cache_decisions c pressure blocks)
      ≡ min (lru_quota blocks) (length blocks)
  unfolding full_cache_decisions
  full_cache_evictions =
      let out : BlockState W → Bool =
        λ b. member b.block_id (first_ids by_last_access (lru_quota blocks) blocks) in
      rw tight (
        count_by-map (λ (x : PolicyDecision W). decision_eq x.decision evict) _ blocks
        ∙ count_by-cong _ out blocks (λ b. is_evict (out b))
        ∙ count_by-first_ids by_last_access (lru_quota blocks) blocks dist)
