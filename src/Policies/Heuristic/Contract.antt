-- ===== src/Policies/Heuristic/Contract.antt =====
-- The contract of `BasePolicy.decide` for the rule-based policies: an answer for every block.
use mathlib.Core.List.Perm
use mathlib.Core.List.{Perm}
use multie_layer_kache.Prelude.{
  ℕ, ◌≡◌, refl, sym, ap₂, subst, either_branch, Bool, true, false, not, ◌||◌, List, [], ◌∷◌, map,
  arith, if◌then◌else◌, inl, inr, Bool-cases,
}
use multie_layer_kache.Prelude.Floats.{Double}
use multie_layer_kache.Prelude.Sort.{sorted-perm, sorted-Distinct}
use multie_layer_kache.Prelude.Members.{Distinct}
use multie_layer_kache.Telemetry.Schema.{BlockState}
use multie_layer_kache.Policies.Base.{PolicyConfig, PolicyDecision, keep_all}
use multie_layer_kache.Policies.Ids.{ids, relative_attention, max_attention}
use multie_layer_kache.Policies.Heuristic.{
  full_cache_decisions, sliding_window_decisions, h2o_decisions, prefix_caching_decisions,
  quantize_only_decisions, offload_only_decisions, scored_blocks, by_score, offload_verdict,
  offload_ids,
}

abbrev pub decided : {W : Type 0} → List (PolicyDecision W) → List ℕ
decided ds = map (λ x. PolicyDecision.block_id x) ds

abbrev pub scored_id : {W : Type 0} → BlockState W × W → ℕ
scored_id e = BlockState.block_id e.0

module _ {A B C : Type 0} where
  -- A verdict on each element that carries the element's id.
  pub map-map_of :
      (g : B → C) (f : A → B) (k : A → C)
      → ((x : A) → g (f x) ≡ k x)
      → (xs : List A) → map g (map f xs) ≡ map k xs
  map-map_of g f k h [] = refl
  map-map_of g f k h (x ∷ xs) = ap₂ ◌∷◌ (h x) (map-map_of g f k h xs)

module _ {A B : Type 0} where
  -- Either of two answers in order is in order.
  pub if-in_order :
      (g : A → B) (b : Bool) (xs ys : List A) {zs : List B}
      → map g xs ≡ zs
      → map g ys ≡ zs
      → map g (if b then xs else ys) ≡ zs
  if-in_order g true xs ys h k = h
  if-in_order g false xs ys h k = k

module _ {W : Type 0} ⦃d : Double W⦄ where
  pub keep_all-in_order : (blocks : List (BlockState W)) → decided (keep_all blocks) ≡ ids blocks
  unfolding keep_all
  keep_all-in_order blocks = map-map_of _ _ _ (λ b. refl) blocks

  module _ (c : PolicyConfig W) (pressure : W) (blocks : List (BlockState W)) where
    pub full_cache-in_order : decided (full_cache_decisions c pressure blocks) ≡ ids blocks
    unfolding full_cache_decisions
    full_cache-in_order =
        if-in_order _ _ _ _ (keep_all-in_order blocks) (map-map_of _ _ _ (λ b. refl) blocks)

    pub sliding_window-in_order : decided (sliding_window_decisions c pressure blocks) ≡ ids blocks
    unfolding sliding_window_decisions
    sliding_window-in_order =
        if-in_order _ _ _ _ (keep_all-in_order blocks) (map-map_of _ _ _ (λ b. ground arith) blocks)

    pub h2o-in_order : decided (h2o_decisions c pressure blocks) ≡ ids blocks
    unfolding h2o_decisions
    h2o-in_order =
        if-in_order _ _ _ _ (keep_all-in_order blocks) (map-map_of _ _ _ (λ b. ground arith) blocks)

    pub prefix_caching-in_order : decided (prefix_caching_decisions c pressure blocks) ≡ ids blocks
    unfolding prefix_caching_decisions
    prefix_caching-in_order =
        if-in_order _ _ _ _ (keep_all-in_order blocks) (map-map_of _ _ _ (λ b. ground arith) blocks)

    pub quantize_only-in_order : decided (quantize_only_decisions c pressure blocks) ≡ ids blocks
    unfolding quantize_only_decisions
    quantize_only-in_order =
        if-in_order _ _ _ _ (keep_all-in_order blocks) (map-map_of _ _ _ (λ b. ground arith) blocks)

    scored_blocks-perm : Perm (map scored_id (scored_blocks blocks)) (ids blocks)
    unfolding scored_blocks
    scored_blocks-perm =
        let pairs = map (λ b. (b, relative_attention (max_attention blocks) b)) blocks in
        let same : map scored_id pairs ≡ ids blocks = map-map_of _ _ _ (λ b. refl) blocks in
        rw same at (Perm.map scored_id (sorted-perm by_score pairs))

    -- The offload-only policy answers for every block, in the order of the scores.
    pub offload_only-perm : Perm (decided (offload_only_decisions c pressure blocks)) (ids blocks)
    unfolding offload_only_decisions
    offload_only-perm =
        elim (Bool-cases (not c.offload_enabled || d.lt pressure c.memory_pressure_low)) [
          | inl low ↦ rw (low, keep_all-in_order blocks) (Perm.refl (ids blocks))
          | inr tight ↦
              let answers : decided
                    (map (offload_verdict (offload_ids c blocks)) (scored_blocks blocks))
                  ≡ map scored_id (scored_blocks blocks) =
                map-map_of _ _ _ (λ e. refl) (scored_blocks blocks) in
              rw (tight, answers) scored_blocks-perm
        ]

    -- Distinct blocks get distinct decisions also in the order of the scores.
    pub offload_only-Distinct :
        Distinct (ids blocks) → Distinct (decided (offload_only_decisions c pressure blocks))
    unfolding offload_only_decisions scored_blocks
    offload_only-Distinct dist =
        let pairs = map (λ b. (b, relative_attention (max_attention blocks) b)) blocks in
        let keys : map scored_id pairs ≡ ids blocks = map-map_of _ _ _ (λ b. refl) blocks in
        let answers : decided (map (offload_verdict (offload_ids c blocks)) (scored_blocks blocks))
            ≡ map scored_id (scored_blocks blocks) =
          map-map_of _ _ _ (λ e. refl) (scored_blocks blocks) in
        let Answers : List (PolicyDecision W) → Type 0 = λ out. Distinct (decided out) in
        either_branch Answers (not c.offload_enabled || d.lt pressure c.memory_pressure_low) _ _
          (subst Distinct (sym (keep_all-in_order blocks)) dist)
          (subst Distinct (sym answers)
            (sorted-Distinct by_score scored_id pairs (subst Distinct (sym keys) dist)))
