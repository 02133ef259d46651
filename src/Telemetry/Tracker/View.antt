-- ===== src/Telemetry/Tracker/View.antt =====
-- What `BlockTracker` promises: a finite map from ids to states, changed pointwise. The view forgets
-- the order of the entries; every method is its specification under the view.
use mathlib.Core.Option
use mathlib.Core.Path.{fun_ext}
use multie_layer_kache.Prelude.{
  ℕ, ◌+◌, String, ◌≡◌, ◌∙◌, refl, sym, ap, Option, none, some, List, [], ◌∷◌, arith, ◌==◌, nat_key,
  string_key, if◌then◌else◌, inl, inr, Option-cases, length, filter_by, not,
}
use multie_layer_kache.Prelude.Dict
use multie_layer_kache.Prelude.Dict.{get-put, get-remove, get-modify, remove_absent}
use multie_layer_kache.Prelude.Floats.{Double}
use multie_layer_kache.Telemetry.Schema.{BlockState, evicted}
use multie_layer_kache.Telemetry.Tracker.{
  Numpy, Tracker, update_block, fresh_block, register_block, evict_block, attended, attend_finite,
  update_attention, mark_accessed, update_tier, update_memory_snapshot, set_importance_score,
  mark_prefix_reuse, get_block, release_request_blocks, increment_age, finite_entries, stale_ids,
  get_all_blocks, size,
}
use multie_layer_kache.Telemetry.Tracker.Entries.{
  Blocks, aged_block, unreleased, get-aged, pop_all-stale, get-filter_by, values-filter_by,
  length-pop_all-stale,
}
use multie_layer_kache.Telemetry.Tracker.Valid.{IsValid, step-IsValid}
use multie_layer_kache.Telemetry.Tracker.Calls.{
  Call, step, run, register, evict, attend, access, move, snapshot, score, reuse, release, grow,
}

abbrev pub View : Type 0 → Type 0
View W = ℕ → Option (BlockState W)

-- `f` at one id, where there is a block
abbrev pub change : {W : Type 0} → ℕ → (BlockState W → BlockState W) → View W → View W
change i f v j = if i == j then Option.map f (v j) else v j

module _ {W : Type 0} ⦃d : Double W⦄ (np : Numpy W) where
  abbrev attend_spec : ℕ → List W → View W → View W
  attend_spec i [] v = v
  attend_spec i (x ∷ xs) v = change i (attended (np.mean (x ∷ xs)) (np.amax (x ∷ xs))) v

  abbrev pub spec : View W → Call W → View W
  spec v (register i l h r) = λ j. if i == j then some (fresh_block i l h r) else v j
  spec v (evict i) = λ j. if i == j then none else v j
  spec v (attend i scores) = attend_spec i (finite_entries scores) v
  spec v (access i s) =
      change i
        (λ b. record b {
          access_count = b.access_count + 1;
          last_access_step = s;
          block_age_steps = s;
        })
        v
  spec v (move i tier) = change i (λ b. record b { current_tier = tier }) v
  spec v (snapshot i u f) = change i (λ b. record b { gpu_mem_used_mb = u; gpu_mem_free_mb = f }) v
  spec v (score i x) = change i (λ b. record b { importance_score = x }) v
  spec v (reuse i x) = change i (λ b. record b { prefix_reuse_flag = x }) v
  spec v (release r) = λ j. unreleased r (v j)
  spec v (grow s) = λ j. Option.map (aged_block s) (v j)

  abbrev pub run_spec : View W → List (Call W) → View W
  run_spec v [] = v
  run_spec v (c ∷ calls) = run_spec (spec v c) calls

module _ {W : Type 0} where
  abbrev pub view : Tracker W → View W
  view t = get_block t

  pub update_block-view :
      (i : ℕ) (f : BlockState W → BlockState W) (t : Tracker W) (j : ℕ)
      → get_block (update_block i f t) j ≡ change i f (view t) j
  unfolding get_block update_block
  update_block-view i f t j = get-modify i j f t.blocks

  pub evict_block-view :
      (t : Tracker W) (i j : ℕ)
      → get_block (evict_block t i).0 j ≡ (if i == j then none else get_block t j)
  unfolding get_block evict_block
  evict_block-view t i j = elim (Option-cases (Dict.get i t.blocks)) [
    | inl e ↦
        rw (e, evict_block)
          (ap (Dict.get j) (sym (remove_absent i t.blocks e)) ∙ get-remove i j t.blocks)
    | inr (b, e) ↦ rw (e, evict_block) (get-remove i j t.blocks)
  ]

module _ {W : Type 0} ⦃d : Double W⦄ (np : Numpy W) where
  attend_finite-view :
      (t : Tracker W) (i : ℕ) (xs : List W) (j : ℕ)
      → get_block (attend_finite np t i xs) j ≡ attend_spec np i xs (view t) j
  unfolding attend_finite
  attend_finite-view t i [] j = refl
  attend_finite-view t i (x ∷ xs) j = update_block-view i _ t j

  step-view_at :
      (t : Tracker W) (c : Call W) (j : ℕ) → IsValid t → view (step np t c) j ≡ spec np (view t) c j
  unfolding step
  step-view_at t (register i l h r) j v =
      unfold register_block get_block in get-put i j (fresh_block i l h r) t.blocks
  step-view_at t (evict i) j v = evict_block-view t i j
  step-view_at t (attend i scores) j v =
      unfold update_attention in attend_finite-view t i (finite_entries scores) j
  step-view_at t (access i s) j v = unfold mark_accessed in update_block-view i _ t j
  step-view_at t (move i tier) j v = unfold update_tier in update_block-view i _ t j
  step-view_at t (snapshot i u f) j v = unfold update_memory_snapshot in update_block-view i _ t j
  step-view_at t (score i x) j v = unfold set_importance_score in update_block-view i _ t j
  step-view_at t (reuse i x) j v = unfold mark_prefix_reuse in update_block-view i _ t j
  step-view_at t (release r) j v =
      unfold release_request_blocks get_block in
      ap (Dict.get j) (pop_all-stale r t.blocks v.distinct) ∙ get-filter_by r t.blocks j v.distinct
  step-view_at t (grow s) j v = unfold increment_age get_block in get-aged s t.blocks j

  -- On a valid tracker any sequence of method calls changes the map from ids to states as the
  -- pointwise specification of the calls says.
  pub run-view :
      (t : Tracker W) (calls : List (Call W))
      → IsValid t
      → view (run np t calls) ≡ run_spec np (view t) calls
  unfolding run
  run-view t [] v = refl
  run-view t (c ∷ calls) v =
      run-view (step np t c) calls (step-IsValid np t c v)
      ∙ ap (λ m. run_spec np m calls) (fun_ext (λ j. step-view_at t c j v))

-- The state that an eviction hands back.
abbrev pub gone : {W : Type 0} → BlockState W → BlockState W
gone b = record b { current_tier = evicted }

module _ {W : Type 0} (t : Tracker W) where
  evict_block-returned : (i : ℕ) → (evict_block t i).1 ≡ Option.map gone (get_block t i)
  unfolding evict_block get_block
  evict_block-returned i = ground arith

  -- Evicting returns the block's last state, marked as evicted, exactly when the block is tracked,
  -- and afterwards the id is not tracked and every other id reads as before.
  pub evict_block_lem :
      (i : ℕ)
      → ((evict_block t i).1 ≡ Option.map gone (get_block t i))
        × ((j : ℕ) → get_block (evict_block t i).0 j ≡ (if i == j then none else get_block t j))
  evict_block_lem i = (evict_block-returned i, evict_block-view t i)

  -- Releasing a request on a valid tracker leaves exactly the blocks of the other requests, in their
  -- order, and returns the number of blocks that it removed.
  pub release_request_blocks_lem :
      (r : String)
      → IsValid t
      → (get_all_blocks (release_request_blocks t r).0
          ≡ filter_by (λ b. not (BlockState.request_id b == r)) (get_all_blocks t))
        × (size (release_request_blocks t r).0 + (release_request_blocks t r).1 ≡ size t)
  unfolding release_request_blocks get_all_blocks size
  release_request_blocks_lem r v = (
    ap Dict.values (pop_all-stale r t.blocks v.distinct) ∙ values-filter_by r t.blocks,
    ap (λ (b : Blocks W). length b + length (stale_ids r t.blocks))
          (pop_all-stale r t.blocks v.distinct)
        ∙ length-pop_all-stale r t.blocks,
  )
