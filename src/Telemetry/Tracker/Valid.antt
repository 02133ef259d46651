-- ===== src/Telemetry/Tracker/Valid.antt =====
-- The invariant of `BlockTracker`: each block stands under its own id, and no id twice.
use multie_layer_kache.Prelude.{
  ℕ, String, ◌≡◌, ◌∙◌, refl, List, [], ◌∷◌, map, arith, string_key, nat_key, All, inl, inr,
  Option-cases,
}
use multie_layer_kache.Prelude.Dict
use multie_layer_kache.Prelude.Dict.{put-Distinct, remove-Distinct, All-put, All-remove, All-modify}
use multie_layer_kache.Prelude.Floats.{Double}
use multie_layer_kache.Prelude.Members.{Distinct}
use multie_layer_kache.Telemetry.Schema.{BlockState}
use multie_layer_kache.Telemetry.Tracker.{
  Numpy, Tracker, init, update_block, register_block, evict_block, attended, attend_finite,
  update_attention, mark_accessed, update_tier, update_memory_snapshot, set_importance_score,
  mark_prefix_reuse, stale_ids, pop_all, release_request_blocks, increment_age, aged,
  finite_entries,
}
use multie_layer_kache.Telemetry.Tracker.Entries.{Blocks, keys-aged}
use multie_layer_kache.Telemetry.Tracker.Calls.{
  Call, step, run, register, evict, attend, access, move, snapshot, score, reuse, release, grow,
}

abbrev pub HasOwnKey : {W : Type 0} → ℕ × BlockState W → Type 0
HasOwnKey e = e.1.block_id ≡ e.0

pub record IsValid {W : Type 0} (t : Tracker W) : Type 0 where
  pub distinct : Distinct (Dict.keys t.blocks)
  pub own_keys : All HasOwnKey t.blocks

module _ {W : Type 0} where
  pub init-IsValid : (l h s k : ℕ) → IsValid (init {W = W} l h s k)
  unfolding init
  init-IsValid l h s k = record { distinct = tt; own_keys = tt }

  -- A change in place that leaves the ids alone.
  pub update_block-IsValid :
      (t : Tracker W) (i : ℕ) (f : BlockState W → BlockState W)
      → ((b : BlockState W) → (f b).block_id ≡ b.block_id)
      → IsValid t
      → IsValid (update_block i f t)
  unfolding update_block
  update_block-IsValid t i f keep v = record {
    distinct = rw (Dict.keys-modify i f t.blocks) v.distinct;
    own_keys = All-modify HasOwnKey i f t.blocks (λ j b h. keep b ∙ h) v.own_keys;
  }

  pub evict_block-IsValid : (t : Tracker W) (i : ℕ) → IsValid t → IsValid (evict_block t i).0
  unfolding evict_block
  evict_block-IsValid t i v = elim (Option-cases (Dict.get i t.blocks)) [
    | inl e ↦ rw (e, evict_block) v
    | inr (b, e) ↦
        rw (e, evict_block)
          (record {
            distinct = remove-Distinct i t.blocks v.distinct;
            own_keys = All-remove HasOwnKey i t.blocks v.own_keys;
          })
  ]

  pop_all-IsValid :
      (ids : List ℕ) (blocks : Blocks W)
      → Distinct (Dict.keys blocks) × All HasOwnKey blocks
      → Distinct (Dict.keys (pop_all ids blocks)) × All HasOwnKey (pop_all ids blocks)
  unfolding pop_all
  pop_all-IsValid [] blocks h = h
  pop_all-IsValid (i ∷ ids) blocks (d, h) =
      pop_all-IsValid ids (Dict.remove i blocks)
        (remove-Distinct i blocks d, All-remove HasOwnKey i blocks h)

  own_keys-aged :
      (s : ℕ) (blocks : Blocks W) → All HasOwnKey blocks → All HasOwnKey (map (aged s) blocks)
  own_keys-aged s [] h = tt
  own_keys-aged s (e ∷ blocks) (h, hs) = (h, own_keys-aged s blocks hs)

module _ {W : Type 0} ⦃d : Double W⦄ (np : Numpy W) where
  register_block-IsValid :
      (t : Tracker W) (i l h : ℕ) (r : String) → IsValid t → IsValid (register_block t i l h r).0
  unfolding register_block
  register_block-IsValid t i l h r v = record {
    distinct = put-Distinct i _ t.blocks v.distinct;
    own_keys = All-put HasOwnKey i _ t.blocks refl v.own_keys;
  }

  attended-block_id : (m x : W) (b : BlockState W) → (attended m x b).block_id ≡ b.block_id
  unfolding attended
  attended-block_id m x b = ground arith

  attend_finite-IsValid :
      (t : Tracker W) (i : ℕ) (xs : List W) → IsValid t → IsValid (attend_finite np t i xs)
  unfolding attend_finite
  attend_finite-IsValid t i [] v = v
  attend_finite-IsValid t i (x ∷ xs) v = update_block-IsValid t i _ (attended-block_id _ _) v

  -- Every method keeps the invariant.
  pub step-IsValid : (t : Tracker W) (c : Call W) → IsValid t → IsValid (step np t c)
  unfolding step
  step-IsValid t (register i l h r) v = register_block-IsValid t i l h r v
  step-IsValid t (evict i) v = evict_block-IsValid t i v
  step-IsValid t (attend i scores) v =
      unfold update_attention in attend_finite-IsValid t i (finite_entries scores) v
  step-IsValid t (access i s) v = unfold mark_accessed in update_block-IsValid t i _ (λ b. refl) v
  step-IsValid t (move i tier) v = unfold update_tier in update_block-IsValid t i _ (λ b. refl) v
  step-IsValid t (snapshot i u f) v =
      unfold update_memory_snapshot in update_block-IsValid t i _ (λ b. refl) v
  step-IsValid t (score i x) v =
      unfold set_importance_score in update_block-IsValid t i _ (λ b. refl) v
  step-IsValid t (reuse i x) v =
      unfold mark_prefix_reuse in update_block-IsValid t i _ (λ b. refl) v
  step-IsValid t (release r) v =
      unfold release_request_blocks in
      (let h = pop_all-IsValid (stale_ids r t.blocks) t.blocks (v.distinct, v.own_keys) in
        record { distinct = h.0; own_keys = h.1 })
  step-IsValid t (grow s) v =
      unfold increment_age in
      record {
        distinct = rw (keys-aged s t.blocks) v.distinct;
        own_keys = own_keys-aged s t.blocks v.own_keys;
      }

  -- Any sequence of method calls keeps the tracker valid: every block stands under its own id, and no
  -- id stands twice.
  pub run-IsValid : (t : Tracker W) (calls : List (Call W)) → IsValid t → IsValid (run np t calls)
  unfolding run
  run-IsValid t [] v = v
  run-IsValid t (c ∷ calls) v = run-IsValid (step np t c) calls (step-IsValid t c v)
