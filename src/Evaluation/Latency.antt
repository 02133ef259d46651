-- ===== src/Evaluation/Latency.antt =====
-- src/evaluators/system_metrics.py: `LatencyTracker`, and the latencies that `SystemMetricsCollector`
-- keeps. A `deque(maxlen=n)` drops from its front what does not fit; percentiles and means are numpy's.
pub mod Recent
use multie_layer_kache.Prelude.{
  ℕ, ◌+◌, ◌-◌, ltb, leb, Bool, String, List, [], ◌∷◌, ◌++◌, map, if◌then◌else◌, length, drop,
  count_by,
}
use multie_layer_kache.Prelude.Floats.{Double, nought}

-- `append` to a `deque` with this `maxlen`
unfoldable pub append_within {ℓ} : {A : Type ℓ} → ℕ → List A → A → List A
unfolding drop
append_within maxlen l x = let longer = l ++ x ∷ [] in drop (length longer - maxlen) longer

pub record LatencyTracker (W : Type 0) : Type 0 where
  pub window_size : ℕ
  pub window : List W

-- The changes to a tracker.
pub data TrackerCall (W : Type 0) : Type 0 where
  observe : W → TrackerCall W
  clear : TrackerCall W

module _ {W : Type 0} where
  abbrev pub new_tracker : ℕ → LatencyTracker W
  new_tracker window_size = record { window_size = window_size; window = [] }

  unfoldable pub record_value : LatencyTracker W → W → LatencyTracker W
  unfolding append_within
  record_value t value = record t { window = append_within t.window_size t.window value }

  unfoldable pub reset : LatencyTracker W → LatencyTracker W
  reset t = record t { window = [] }

  unfoldable pub count : LatencyTracker W → ℕ
  count t = length t.window

  unfoldable pub get_all : LatencyTracker W → List W
  get_all t = t.window

  unfoldable pub call : LatencyTracker W → TrackerCall W → LatencyTracker W
  unfolding record_value reset
  call t (observe value) = record_value t value
  call t clear = reset t

  unfoldable pub call_all : LatencyTracker W → List (TrackerCall W) → LatencyTracker W
  unfolding call
  call_all t [] = t
  call_all t (c ∷ calls) = call_all (call t c) calls

module _ {W : Type 0} ⦃d : Double W⦄ where
  -- `np` is the percentile or the mean of a list that is not empty
  abbrev pub or_zero : (List W → W) → List W → W
  or_zero np [] = nought
  or_zero np (x ∷ xs) = np (x ∷ xs)

  unfoldable pub percentile : (List W → W) → LatencyTracker W → W
  percentile np t = or_zero np t.window

  unfoldable pub mean : (List W → W) → LatencyTracker W → W
  mean np t = or_zero np t.window
