-- ===== src/Policies/Dispatch/Contract.antt =====
-- `BasePolicy.decide` promises one entry for each block, in the order of the blocks.
use mathlib.Core.List.Perm
use mathlib.Core.List.{Perm}
use multie_layer_kache.Prelude.{◌≡◌, refl, sym, subst, Bool, true, false, List, arith}
use multie_layer_kache.Prelude.Floats.{Double}
use multie_layer_kache.Prelude.Members.{Distinct}
use multie_layer_kache.Telemetry.Schema.{BlockState}
use multie_layer_kache.Policies.Base.{PolicyConfig, SystemMetrics, Readings, pressure_of}
use multie_layer_kache.Policies.Ids.{ids}
use multie_layer_kache.Policies.Heuristic.Contract.{
  decided, full_cache-in_order, sliding_window-in_order, h2o-in_order, prefix_caching-in_order,
  quantize_only-in_order, offload_only-perm, offload_only-Distinct,
}
use multie_layer_kache.Policies.Hybrid.Contract.{AreAligned, hybrid-in_order}
use multie_layer_kache.Policies.Dispatch.{
  PolicyClass, Policy, full_cache, sliding_window, h2o, prefix_caching, quantize_only, offload_only,
  hybrid, decisions_of, decide,
}

-- the policy's learned scorer, if it has one, returns a score for each block
abbrev pub HasAlignedScores : {W : Type 0} → PolicyClass W → Type 0
HasAlignedScores (hybrid learned _) = AreAligned learned
HasAlignedScores full_cache = Unit
HasAlignedScores sliding_window = Unit
HasAlignedScores h2o = Unit
HasAlignedScores prefix_caching = Unit
HasAlignedScores quantize_only = Unit
HasAlignedScores offload_only = Unit

abbrev pub is_offload_only : {W : Type 0} → PolicyClass W → Bool
is_offload_only offload_only = true
is_offload_only (hybrid _ _) = false
is_offload_only full_cache = false
is_offload_only sliding_window = false
is_offload_only h2o = false
is_offload_only prefix_caching = false
is_offload_only quantize_only = false

module _ {W : Type 0} ⦃d : Double W⦄ where
  decisions_of-in_order :
      (k : PolicyClass W) (c : PolicyConfig W) (pressure : W) (m : SystemMetrics W)
      (blocks : List (BlockState W))
      → HasAlignedScores k
      → is_offload_only k ≡ false
      → decided (decisions_of k c pressure m blocks) ≡ ids blocks
  unfolding decisions_of
  decisions_of-in_order full_cache c p m bs h n = full_cache-in_order c p bs
  decisions_of-in_order sliding_window c p m bs h n = sliding_window-in_order c p bs
  decisions_of-in_order h2o c p m bs h n = h2o-in_order c p bs
  decisions_of-in_order prefix_caching c p m bs h n = prefix_caching-in_order c p bs
  decisions_of-in_order quantize_only c p m bs h n = quantize_only-in_order c p bs
  decisions_of-in_order offload_only c p m bs h n = absurd (ground arith)
  decisions_of-in_order (hybrid learned _) c p m bs h n = hybrid-in_order c m learned p bs h

  decisions_of-perm :
      (k : PolicyClass W) (c : PolicyConfig W) (pressure : W) (m : SystemMetrics W)
      (blocks : List (BlockState W))
      → HasAlignedScores k
      → Perm (decided (decisions_of k c pressure m blocks)) (ids blocks)
  unfolding decisions_of
  decisions_of-perm offload_only c p m bs h = offload_only-perm c p bs
  decisions_of-perm (hybrid learned x) c p m bs h =
      rw (decisions_of-in_order (hybrid learned x) c p m bs h refl) (Perm.refl (ids bs))
  decisions_of-perm full_cache c p m bs h = rw (full_cache-in_order c p bs) (Perm.refl (ids bs))
  decisions_of-perm sliding_window c p m bs h =
      rw (sliding_window-in_order c p bs) (Perm.refl (ids bs))
  decisions_of-perm h2o c p m bs h = rw (h2o-in_order c p bs) (Perm.refl (ids bs))
  decisions_of-perm prefix_caching c p m bs h =
      rw (prefix_caching-in_order c p bs) (Perm.refl (ids bs))
  decisions_of-perm quantize_only c p m bs h =
      rw (quantize_only-in_order c p bs) (Perm.refl (ids bs))

  decisions_of-Distinct :
      (k : PolicyClass W) (c : PolicyConfig W) (pressure : W) (m : SystemMetrics W)
      (blocks : List (BlockState W))
      → HasAlignedScores k
      → Distinct (ids blocks)
      → Distinct (decided (decisions_of k c pressure m blocks))
  unfolding decisions_of
  decisions_of-Distinct offload_only c p m bs h dist = offload_only-Distinct c p bs dist
  decisions_of-Distinct (hybrid learned x) c p m bs h dist =
      subst Distinct (sym (hybrid-in_order c m learned p bs h)) dist
  decisions_of-Distinct full_cache c p m bs h dist =
      subst Distinct (sym (full_cache-in_order c p bs)) dist
  decisions_of-Distinct sliding_window c p m bs h dist =
      subst Distinct (sym (sliding_window-in_order c p bs)) dist
  decisions_of-Distinct h2o c p m bs h dist = subst Distinct (sym (h2o-in_order c p bs)) dist
  decisions_of-Distinct prefix_caching c p m bs h dist =
      subst Distinct (sym (prefix_caching-in_order c p bs)) dist
  decisions_of-Distinct quantize_only c p m bs h dist =
      subst Distinct (sym (quantize_only-in_order c p bs)) dist

  module _ (p : Policy W) (r : Readings W) (blocks : List (BlockState W))
      (m : SystemMetrics W) where
    -- The hybrid policy, given a learned scorer (if any) with one score for each block, and every
    -- rule-based policy but the offload-only one, answers with one decision for each block, in the
    -- order of the blocks.
    pub decide-in_order :
        HasAlignedScores p.class
        → is_offload_only p.class ≡ false
        → decided (decide p r blocks m).0 ≡ ids blocks
    unfolding decide
    decide-in_order h n = decisions_of-in_order p.class p.base.config (pressure_of m) m blocks h n

    -- Every rule-based policy, and the hybrid one given a learned scorer (if any) with one score for
    -- each block, decides about each block exactly once: the ids of its decisions are a rearrangement
    -- of the ids of the blocks.
    pub decide-perm : HasAlignedScores p.class → Perm (decided (decide p r blocks m).0) (ids blocks)
    unfolding decide
    decide-perm h = decisions_of-perm p.class p.base.config (pressure_of m) m blocks h

    pub decide-Distinct :
        HasAlignedScores p.class
        → Distinct (ids blocks)
        → Distinct (decided (decide p r blocks m).0)
    unfolding decide
    decide-Distinct h dist =
        decisions_of-Distinct p.class p.base.config (pressure_of m) m blocks h dist
