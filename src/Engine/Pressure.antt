-- ===== src/Engine/Pressure.antt =====
-- The memory pressure that the engine computes for its policy.
use multie_layer_kache.Prelude.{
  ◌≡◌, ◌∙◌, refl, ap, Bool, true, false, not, ◌&&◌, arith, if◌then◌else◌, inl, inr, Bool-cases,
}
use multie_layer_kache.Prelude.Floats.{Double, IsExact, IsOrdered, nought, one, fmax}
use multie_layer_kache.Telemetry.Tracker.{Tracker, get_memory_stats, size}
use multie_layer_kache.Policies.Base.{pressure_of, compute_memory_pressure}
use multie_layer_kache.Engine.{cycle_metrics}

if_same : {A : Type 0} (b : Bool) (x : A) → (if b then x else x) ≡ x
if_same true x = refl
if_same false x = refl

module _ {W : Type 0} ⦃d : Double W⦄ (exact : IsExact d) (t : Tracker W) where
  -- the placeholder for the free memory
  free_is_nought : fmax nought (d.mul (d.of_int (size t)) nought) ≡ nought
  free_is_nought =
      ap (λ z. fmax nought z) (exact.mul_nought (size t)) ∙ if_same (d.lt nought nought) nought

  ratio_of_all :
      (used free : W)
      → free ≡ nought
      → compute_memory_pressure used free ≡ (if d.lt nought used then one else nought)
  unfolding compute_memory_pressure
  ratio_of_all used free e =
      let total : d.add used free ≡ used = ap (d.add used) e ∙ exact.add_nought used in
      elim (Bool-cases (d.lt nought used)) [
        | inl positive ↦ rw (total, positive) (exact.div_self used positive)
        | inr none_used ↦ rw (total, none_used) refl
      ]

  cycle_pressure :
      pressure_of (cycle_metrics t)
      ≡ (if d.lt nought (get_memory_stats t).estimated_gpu_mb then one else nought)
  unfolding pressure_of cycle_metrics
  cycle_pressure = ratio_of_all (get_memory_stats t).estimated_gpu_mb _ free_is_nought

  -- In float arithmetic where n * 0, x + 0 and x / x are exact: the pressure that a cycle gives its
  -- policy is 1 if the tracker estimates any GPU memory and 0 otherwise. So for thresholds with
  -- 0 < low and high ≤ 1 it is below the low one or not below the high one, and the policies' range
  -- between the two is never entered.
  pub cycle_pressure_lem :
      (o : IsOrdered d) (low high : W)
      → d.lt nought low ≡ true
      → d.le high one ≡ true
      → (pressure_of (cycle_metrics t)
          ≡ (if d.lt nought (get_memory_stats t).estimated_gpu_mb then one else nought))
        × ((not (d.lt (pressure_of (cycle_metrics t)) low)
              && d.lt (pressure_of (cycle_metrics t)) high)
            ≡ false)
  cycle_pressure_lem o low high h k =
      (cycle_pressure, rw cycle_pressure (ground (arith, o.lt-not-le one high)))
