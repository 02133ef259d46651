-- ===== src/Engine/Cycle.antt =====
-- One cycle of `PolicyEngine`: what it keeps, and what becomes of each block.
use multie_layer_kache.Prelude.{
  ℕ, ◌+◌, ◌-◌, ◌≤◌, ◌≡◌, ◌∙◌, refl, sym, ap, ap₂, subst, Option, none, some, List, [], ◌∷◌, ◌++◌,
  min, arith, length, length-append, length-drop, All, nat_key,
}
use multie_layer_kache.Prelude.Dict
use multie_layer_kache.Prelude.Dict.{Dict}
use multie_layer_kache.Prelude.Floats.{Double}
use multie_layer_kache.Prelude.Members.{Distinct}
use multie_layer_kache.Telemetry.Schema.{BlockState}
use multie_layer_kache.Telemetry.Tracker.{Tracker, get_block, get_all_blocks}
use multie_layer_kache.Telemetry.Tracker.Valid.{IsValid, HasOwnKey}
use multie_layer_kache.Telemetry.Collector.{Storage}
use multie_layer_kache.Policies.Base.{PolicyDecision, Readings}
use multie_layer_kache.Policies.Ids.{ids}
use multie_layer_kache.Policies.Dispatch.{decide}
use multie_layer_kache.Policies.Dispatch.Contract.{HasAlignedScores, decide-Distinct}
use multie_layer_kache.Engine.{
  World, append_bounded, append_some, cycle_metrics, evaluate, cycle_over, run_policy_cycle,
}
use multie_layer_kache.Engine.Apply.{
  outcome_for, outcome_for-none, apply_decisions_lem, apply_decisions-IsValid,
}

length-append_bounded :
    {A : Type 0} (n : ℕ) (xs : List A) (x : A)
    → length (append_bounded n xs x) ≡ min n (length xs + 1)
unfolding append_bounded
length-append_bounded n xs x =
    let longer = xs ++ x ∷ [] in
    omega (arith, length-drop (length longer - n) longer, length-append xs (x ∷ []))

append_some-le :
    {A : Type 0} (n : ℕ) (xs : List A) (x : Option A)
    → length xs ≤ n
    → length (append_some n xs x) ≤ n
append_some-le n xs none h = h
append_some-le n xs (some x) h = omega (arith, length-append_bounded n xs x)

module _ {W : Type 0} where
  ids-entries :
      (blocks : Dict ℕ (BlockState W))
      → All HasOwnKey blocks
      → ids (Dict.values blocks) ≡ Dict.keys blocks
  ids-entries [] h = refl
  ids-entries ((i, b) ∷ blocks) (h, hs) = ap₂ ◌∷◌ h (ids-entries blocks hs)

  -- The blocks of a valid tracker have distinct ids.
  pub get_all_blocks-Distinct : (t : Tracker W) → IsValid t → Distinct (ids (get_all_blocks t))
  unfolding get_all_blocks
  get_all_blocks-Distinct t v = subst Distinct (sym (ids-entries t.blocks v.own_keys)) v.distinct

  values_nothing :
      (blocks : Dict ℕ (BlockState W)) (j : ℕ) → Dict.values blocks ≡ [] → Dict.get j blocks ≡ none
  unfolding Dict.get
  values_nothing [] j e = refl
  values_nothing (x ∷ xs) j e = absurd (ground arith)

  get_block_nothing : (t : Tracker W) (j : ℕ) → get_all_blocks t ≡ [] → get_block t j ≡ none
  unfolding get_all_blocks get_block
  get_block_nothing t j e = values_nothing t.blocks j e

-- What the engine keeps true of the state it works on.
pub record IsConsistent {W S : Type 0} (w : World W S) : Type 0 where
  pub tracker : IsValid w.tracker
  pub history : length w.engine.history ≤ w.engine.stats_buffer_size

-- the decisions of a cycle
abbrev pub cycle_decisions :
    {W S : Type 0} ⦃d : Double W⦄ → Readings W → World W S → List (PolicyDecision W)
cycle_decisions r w =
    (decide w.engine.policy r (get_all_blocks w.tracker) (cycle_metrics w.tracker)).0

module _ {W S : Type 0} ⦃d : Double W⦄ (st : Storage W S) (r : Readings W) (now : ℕ → W) where
  evaluate-IsConsistent : (w : World W S) → IsConsistent w → IsConsistent (evaluate st r now w).0
  unfolding evaluate
  evaluate-IsConsistent w c =
      let answer = decide w.engine.policy r (get_all_blocks w.tracker) (cycle_metrics w.tracker) in
      record {
        tracker = apply_decisions-IsValid w.tracker answer.0 c.tracker;
        history =
            append_some-le w.engine.stats_buffer_size w.engine.history answer.1.base.last_stats
              c.history;
      }

  cycle_over-IsConsistent :
      (w : World W S) (blocks : List (BlockState W))
      → IsConsistent w
      → IsConsistent (cycle_over st r now w blocks).0
  unfolding cycle_over
  cycle_over-IsConsistent w [] c = c
  cycle_over-IsConsistent w (b ∷ bs) c = evaluate-IsConsistent w c

  -- A cycle keeps the tracker valid and the ring of statistics within its size.
  pub run_policy_cycle-IsConsistent :
      (w : World W S) → IsConsistent w → IsConsistent (run_policy_cycle st r now w).0
  unfolding run_policy_cycle
  run_policy_cycle-IsConsistent w c = cycle_over-IsConsistent w (get_all_blocks w.tracker) c

  evaluate-block :
      (w : World W S) (j : ℕ)
      → HasAlignedScores w.engine.policy.class
      → IsValid w.tracker
      → get_block (evaluate st r now w).0.tracker j
        ≡ outcome_for j (cycle_decisions r w) (get_block w.tracker j)
  unfolding evaluate
  evaluate-block w j h v = apply_decisions_lem w.tracker (cycle_decisions r w) j (
      decide-Distinct w.engine.policy r (get_all_blocks w.tracker) (cycle_metrics w.tracker) h
        (get_all_blocks-Distinct w.tracker v))

  cycle_over-block :
      (w : World W S) (blocks : List (BlockState W)) (j : ℕ)
      → get_all_blocks w.tracker ≡ blocks
      → HasAlignedScores w.engine.policy.class
      → IsValid w.tracker
      → get_block (cycle_over st r now w blocks).0.tracker j
        ≡ outcome_for j (cycle_decisions r w) (get_block w.tracker j)
  unfolding cycle_over
  cycle_over-block w (b ∷ bs) j e h v = evaluate-block w j h v
  cycle_over-block w [] j e h v =
      let absent = get_block_nothing w.tracker j e in
      absent
      ∙ sym (
          ap (outcome_for j (cycle_decisions r w)) absent
          ∙ outcome_for-none j (cycle_decisions r w))

  -- On a valid tracker, with a learned scorer (if any) that scores every block: a cycle makes of every
  -- block what the policy decided about it from the blocks and metrics at its start. A block that was
  -- evicted is untracked, any other is in the tier of its decision with its score as importance.
  pub run_policy_cycle_lem :
      (w : World W S) (j : ℕ)
      → HasAlignedScores w.engine.policy.class
      → IsValid w.tracker
      → get_block (run_policy_cycle st r now w).0.tracker j
        ≡ outcome_for j (cycle_decisions r w) (get_block w.tracker j)
  unfolding run_policy_cycle
  run_policy_cycle_lem w j h v = cycle_over-block w (get_all_blocks w.tracker) j refl h v
