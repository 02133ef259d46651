-- ===== src/Policies/Heuristic/Offload.antt =====
-- `OffloadOnlyPolicy` offloads no more than its share, and no sink.
use multie_layer_kache.Prelude.{
  ℕ, ◌+◌, ◌≤◌, ◌≡◌, refl, ap, inl, inr, Bool, true, false, not, ◌&&◌, ◌||◌, List, [], ◌∷◌, map,
  arith, nat_key, if◌then◌else◌, ltb, length, count_by, count_by-map, count_by-cong, All, All-map,
  All-map_of, All-if, ◌⊎◌, Bool-cases,
}
use multie_layer_kache.Prelude.Floats.{Double}
use multie_layer_kache.Prelude.Members.{
  In, Distinct, member, member→In, All-of_In, key_injective, count_by-none, count_members-le,
}
use multie_layer_kache.Prelude.Sort.{sorted-Distinct}
use multie_layer_kache.Telemetry.Schema.{BlockState, offload_cpu, keep_gpu, decision_eq}
use multie_layer_kache.Policies.Base.{PolicyConfig, PolicyDecision, keep_all}
use multie_layer_kache.Policies.Ids.{ids, sink_ids, relative_attention, max_attention}
use multie_layer_kache.Policies.Heuristic.{
  offload_only_decisions, offload_ids, offload_quota, pick_offload, scored_blocks, may_offload,
  offload_verdict, by_score,
}
use multie_layer_kache.Policies.Heuristic.Contract.{scored_id, map-map_of}

is_offload : (out : Bool) → decision_eq (if out then offload_cpu else keep_gpu) offload_cpu ≡ out
is_offload true = refl
is_offload false = refl

count_if-le :
    {A : Type 0} (p : A → Bool) (b : Bool) (n : ℕ) (xs ys : List A)
    → count_by p xs ≤ n
    → count_by p ys ≤ n
    → count_by p (if b then xs else ys) ≤ n
count_if-le p true n xs ys h k = h
count_if-le p false n xs ys h k = k

module _ {W : Type 0} ⦃d : Double W⦄ (c : PolicyConfig W) where
  length-pick_offload :
      (sinks : List ℕ) (n : ℕ) (xs : List (BlockState W × W)) (count : ℕ)
      → count ≤ n
      → length (pick_offload c sinks n xs count) + count ≤ n
  unfolding pick_offload
  length-pick_offload sinks n [] count h = omega arith
  length-pick_offload sinks n (e ∷ xs) count h = elim (Bool-cases (may_offload c sinks e)) [
    | inl ok ↦ elim (Bool-cases (ltb count n)) [
      | inl room ↦
          rw (ok, room) (omega (arith, length-pick_offload sinks n xs (count + 1) (ground arith)))
      | inr full ↦ rw (ok, full) (length-pick_offload sinks n xs count h)
    ]
    | inr skip ↦ rw skip (length-pick_offload sinks n xs count h)
  ]

  pick_offload-may :
      (sinks : List ℕ) (n : ℕ) (xs : List (BlockState W × W)) (count i : ℕ)
      → In i (pick_offload c sinks n xs count)
      → (e : BlockState W × W) × In e xs × (may_offload c sinks e ≡ true) × (i ≡ scored_id e)
  unfolding pick_offload
  pick_offload-may sinks n [] count i m = elim m [ ]
  pick_offload-may sinks n (e ∷ xs) count i m =
      elim (Bool-cases (may_offload c sinks e && ltb count n)) [
        | inr skip ↦
            let (f, inside, ok, same) = pick_offload-may sinks n xs count i (rw skip at m) in
            (f, inr inside, ok, same)
        | inl chosen ↦
            let m' : (i ≡ scored_id e) ⊎ In i (pick_offload c sinks n xs (count + 1)) =
              rw chosen at m in
            elim m' [
              | inl here ↦ (e, inl refl, ground arith, here)
              | inr r ↦
                  let (f, inside, ok, same) = pick_offload-may sinks n xs (count + 1) i r in
                  (f, inr inside, ok, same)
            ]
      ]

  module _ (pressure : W) (blocks : List (BlockState W)) (dist : Distinct (ids blocks)) where
    distinct_scored : Distinct (map scored_id (scored_blocks blocks))
    unfolding scored_blocks
    distinct_scored =
        let pairs = map (λ b. (b, relative_attention (max_attention blocks) b)) blocks in
        let same : map scored_id pairs ≡ ids blocks = map-map_of _ _ _ (λ b. refl) blocks in
        sorted-Distinct by_score scored_id pairs (rw same dist)

    length-offload_ids : length (offload_ids c blocks) ≤ offload_quota c blocks
    unfolding offload_ids
    length-offload_ids = omega (
      arith,
      length-pick_offload (sink_ids c blocks) (offload_quota c blocks) (scored_blocks blocks) 0
          (omega arith),
    )

    chosen_may :
        (e : BlockState W × W)
        → In e (scored_blocks blocks)
        → member (scored_id e) (offload_ids c blocks) ≡ true
        → may_offload c (sink_ids c blocks) e ≡ true
    unfolding offload_ids
    chosen_may e m h =
        let (f, inside, ok, same) =
          pick_offload-may (sink_ids c blocks) (offload_quota c blocks) (scored_blocks blocks) 0
            (scored_id e) (member→In (scored_id e) (offload_ids c blocks) h) in
        rw (key_injective scored_id (scored_blocks blocks) e f distinct_scored m inside same) ok

    offloads : PolicyDecision W → Bool
    offloads x = decision_eq x.decision offload_cpu

    keep_all-offloads : count_by offloads (keep_all blocks) ≤ offload_quota c blocks
    unfolding keep_all offloads
    keep_all-offloads = omega (
      arith,
      count_by-none (λ (x : PolicyDecision W). decision_eq x.decision offload_cpu) (keep_all blocks)
          (All-map (λ (x : PolicyDecision W). decision_eq x.decision offload_cpu ≡ false) _
            (λ b. refl) blocks),
    )

    verdict-offloads :
        count_by offloads (map (offload_verdict (offload_ids c blocks)) (scored_blocks blocks))
        ≤ offload_quota c blocks
    unfolding offloads
    verdict-offloads =
        let out : BlockState W × W → Bool = λ e. member (scored_id e) (offload_ids c blocks) in
        omega (
          arith,
          count_by-map offloads (offload_verdict (offload_ids c blocks)) (scored_blocks blocks),
          count_by-cong
              (λ (e : BlockState W × W). offloads (offload_verdict (offload_ids c blocks) e)) out
              (scored_blocks blocks) (λ e. is_offload (out e)),
          count_members-le scored_id (offload_ids c blocks) (scored_blocks blocks) distinct_scored,
          length-offload_ids,
        )

    -- kept on the GPU; or offloaded, and then no sink and with a score of at most the threshold
    abbrev pub IsEligible : PolicyDecision W → Type 0
    IsEligible x =
        (x.decision ≡ keep_gpu)
        ⊎ ((x.decision ≡ offload_cpu)
            × (member x.block_id (sink_ids c blocks) ≡ false)
            × (d.le x.score c.offload_threshold_score ≡ true))

    eligible :
        (e : BlockState W × W)
        → In e (scored_blocks blocks)
        → IsEligible (offload_verdict (offload_ids c blocks) e)
    eligible e m = elim (Bool-cases (member (scored_id e) (offload_ids c blocks))) [
      | inl out ↦
          let ok = chosen_may e m out in
          inr (ap (λ k. if k then offload_cpu else keep_gpu) out, ground arith, ground arith)
      | inr kept ↦ inl (ap (λ k. if k then offload_cpu else keep_gpu) kept)
    ]

    -- Of blocks with distinct ids the offload-only policy offloads at most
    -- `int(len(blocks) * offload_max_fraction)`.
    pub offload_only-le_quota :
        count_by
          (λ x. decision_eq (PolicyDecision.decision x) offload_cpu)
          (offload_only_decisions c pressure blocks)
        ≤ offload_quota c blocks
    unfolding offload_only_decisions offloads
    offload_only-le_quota =
        count_if-le offloads (not c.offload_enabled || d.lt pressure c.memory_pressure_low)
          (offload_quota c blocks) _ _ keep_all-offloads verdict-offloads

    -- Of blocks with distinct ids the offload-only policy keeps every block on the GPU or offloads it,
    -- and it offloads only blocks that are no sink and whose score is at most the threshold.
    pub offload_only-IsEligible : All IsEligible (offload_only_decisions c pressure blocks)
    unfolding offload_only_decisions
    offload_only-IsEligible =
        All-if IsEligible (not c.offload_enabled || d.lt pressure c.memory_pressure_low) _ _
          (unfold keep_all in All-map IsEligible _ (λ b. inl refl) blocks)
          (All-map_of IsEligible (offload_verdict (offload_ids c blocks)) (scored_blocks blocks)
            (All-of_In _ (scored_blocks blocks) eligible))
