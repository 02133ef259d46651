-- ===== src/Serving/Requests/Counts.antt =====
-- The counts that `RequestHandler` reports.
use multie_layer_kache.Prelude.{
  ℕ, ◌+◌, ◌≤◌, String, ◌≡◌, ◌∙◌, refl, ap, Bool, false, some, List, [], ◌∷◌, arith, ◌==◌,
  string_key, if◌then◌else◌, length-map, count_by, count_by-le-length, or_default, inl, inr,
  Bool-cases, equal-true,
}
use multie_layer_kache.Prelude.Dict
use multie_layer_kache.Prelude.Dict.{Dict, get-put}
use multie_layer_kache.Telemetry.Schema.{WorkloadType, workload_value}
use multie_layer_kache.Serving.Requests.{
  RequestRecord, RequestHandler, is_in_progress, mark_started, started, get_queue_depth,
  get_active_count, count_workloads, get_workload_distribution,
}
use multie_layer_kache.Serving.Requests.Lists.{count_by-modify}
use multie_layer_kache.Serving.Requests.Lifecycle.{IsValid}

module _ {W : Type 0} where
  -- On a valid registry, starting a queued request makes one more active, whatever `max_concurrent`
  -- is: the active requests are bounded by the requests in flight alone.
  pub mark_started-active :
      (now : W) (h : RequestHandler W) (i : String) (rec : RequestRecord W)
      → IsValid h
      → Dict.get i h.records ≡ some rec
      → is_in_progress rec.status ≡ false
      → (get_active_count (mark_started now h i) ≡ get_active_count h + 1)
        × (get_active_count h ≤ get_queue_depth h)
  unfolding get_active_count mark_started get_queue_depth
  mark_started-active now h i rec v found waiting =
      let active : RequestRecord W → Bool = λ r. is_in_progress r.status in
      (
        ground (arith, count_by-modify active i (started now) rec h.records v.distinct found),
        omega (
          arith,
          count_by-le-length active (Dict.values h.records),
          length-map (λ (e : String × RequestRecord W). e.1) h.records,
        ),
      )

-- the number under a key in a dictionary of counts
abbrev counted_under : String → Dict String ℕ → ℕ
counted_under k counts = or_default (Dict.get k counts) 0

counted_under-put :
    (j k : String) (counts : Dict String ℕ)
    → counted_under k (Dict.put j (counted_under j counts + 1) counts)
      ≡ counted_under k counts + (if j == k then 1 else 0)
counted_under-put j k counts =
    ap (λ o. or_default o 0) (get-put j k (counted_under j counts + 1) counts)
    ∙ elim (Bool-cases (j == k)) [
      | inl same ↦ rw (same, equal-true j k same) refl
      | inr other ↦ rw other (omega arith)
    ]

abbrev pub counted_as : WorkloadType → Dict String ℕ → ℕ
counted_as w counts = counted_under (workload_value w) counts

module _ {W : Type 0} where
  abbrev pub has_type : WorkloadType → RequestRecord W → Bool
  has_type w r = workload_value r.workload_type == workload_value w

  counted_as-count_workloads :
      (w : WorkloadType) (rs : List (RequestRecord W)) (counts : Dict String ℕ)
      → counted_as w (count_workloads rs counts) ≡ counted_as w counts + count_by (has_type w) rs
  unfolding count_workloads
  counted_as-count_workloads w [] counts = omega arith
  counted_as-count_workloads w (r ∷ rs) counts =
      let k = workload_value r.workload_type in
      omega (
        arith,
        counted_as-count_workloads w rs (Dict.put k (counted_under k counts + 1) counts),
        counted_under-put k (workload_value w) counts,
      )

  -- The distribution has, for each workload type, the number of requests in flight whose type has its
  -- value.
  pub get_workload_distribution_lem :
      (h : RequestHandler W) (w : WorkloadType)
      → counted_as w (get_workload_distribution h) ≡ count_by (has_type w) (Dict.values h.records)
  unfolding get_workload_distribution
  get_workload_distribution_lem h w =
      counted_as-count_workloads w (Dict.values h.records) [] ∙ omega arith
