-- ===== src/Policies/Base/Stats.antt =====
-- `_make_stats`: the dictionary of counts against the decisions.
use multie_layer_kache.Prelude.{
  ℕ, ◌+◌, ◌≡◌, ◌∙◌, refl, ap, true, some, List, [], ◌∷◌, arith, ◌==◌, string_key, if◌then◌else◌,
  or_default, String, length, count_by, inl, inr, Bool-cases,
}
use multie_layer_kache.Prelude.Dict
use multie_layer_kache.Prelude.Dict.{Dict, get-put}
use multie_layer_kache.Prelude.Floats.{Double}
use multie_layer_kache.Telemetry.Schema.{
  BlockDecision, keep_gpu, quantize, offload_cpu, evict, decision_value, decision_eq,
}
use multie_layer_kache.Policies.Base.{
  BasePolicy, PolicyDecision, PolicyStats, count_decisions, make_stats,
}

decision_value-eq : (u t : BlockDecision) → (decision_value u == decision_value t) ≡ decision_eq u t
unfolding decision_value
decision_value-eq keep_gpu keep_gpu = refl
decision_value-eq quantize quantize = refl
decision_value-eq offload_cpu offload_cpu = refl
decision_value-eq evict evict = refl
decision_value-eq _ _ = refl

module _ {W : Type 0} where
  -- the number of decisions of one kind
  abbrev pub of_kind : BlockDecision → List (PolicyDecision W) → ℕ
  of_kind k xs = count_by (λ x. decision_eq (PolicyDecision.decision x) k) xs

  of_kind-total :
      (xs : List (PolicyDecision W))
      → of_kind keep_gpu xs + of_kind quantize xs + of_kind offload_cpu xs + of_kind evict xs
        ≡ length xs
  of_kind-total [] = refl
  of_kind-total (x ∷ xs) = ground (arith, of_kind-total xs)

abbrev pub tally : BlockDecision → Dict String ℕ → ℕ
tally k counts = or_default (Dict.get (decision_value k) counts) 0

decision_eq→ : (u k : BlockDecision) → decision_eq u k ≡ true → u ≡ k
decision_eq→ u k h = ground arith

tally-put :
    (u k : BlockDecision) (counts : Dict String ℕ)
    → tally k (Dict.put (decision_value u) (tally u counts + 1) counts)
      ≡ tally k counts + (if decision_eq u k then 1 else 0)
tally-put u k counts =
    ap (λ o. or_default o 0)
      (get-put (decision_value u) (decision_value k) (tally u counts + 1) counts)
    ∙ rw (decision_value-eq u k) (elim (Bool-cases (decision_eq u k)) [
      | inl same ↦ rw (same, decision_eq→ u k same)
      | inr other ↦ rw other (omega arith)
    ])

module _ {W : Type 0} ⦃d : Double W⦄ where
  tally-count_decisions :
      (k : BlockDecision) (xs : List (PolicyDecision W)) (counts : Dict String ℕ)
      → tally k (count_decisions xs counts) ≡ tally k counts + of_kind k xs
  unfolding count_decisions
  tally-count_decisions k [] counts = omega arith
  tally-count_decisions k (x ∷ xs) counts = omega (
    arith,
    tally-count_decisions k xs
        (Dict.put (decision_value x.decision) (tally x.decision counts + 1) counts),
    tally-put x.decision k counts,
  )

  -- After a round, the recorded statistics hold, for each kind of decision, the number of decisions of
  -- that kind; the four numbers add up to the number of blocks evaluated, which is the number of
  -- decisions; and the count of evaluations has gone up by one.
  pub make_stats_lem :
      (name : String) (xs : List (PolicyDecision W)) (pressure latency now : W) (p : BasePolicy W)
      → let p' = make_stats name xs pressure latency now p in
        (stats : PolicyStats W) × (p'.last_stats ≡ some stats)
        × ((k : BlockDecision) → tally k stats.decisions ≡ of_kind k xs)
        × (tally keep_gpu stats.decisions
              + tally quantize stats.decisions
              + tally offload_cpu stats.decisions
              + tally evict stats.decisions
            ≡ stats.num_blocks_evaluated)
        × (stats.num_blocks_evaluated ≡ length xs)
        × (p'.eval_count ≡ p.eval_count + 1)
  unfolding make_stats
  make_stats_lem name xs pressure latency now p =
      let count : (k : BlockDecision) → tally k (count_decisions xs []) ≡ of_kind k xs =
        λ k. tally-count_decisions k xs [] ∙ omega arith in
      (
        _,
        refl,
        count,
        omega (
          arith,
          count keep_gpu,
          count quantize,
          count offload_cpu,
          count evict,
          of_kind-total xs,
        ),
        refl,
        refl,
      )
