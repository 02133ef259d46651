-- ===== src/Telemetry/Collector/Statistics.antt =====
-- src/telemetry/collector.py: `flush`, `stop` and `get_statistics`.
use multie_layer_kache.Prelude.{
  ℕ, ◌≡◌, String, List, [], ◌∷◌, map, arith, length, length-map, count_by, count_by-map, ◌==◌,
  string_key,
}
use multie_layer_kache.Prelude.Dict
use multie_layer_kache.Prelude.Dict.{Dict}
use multie_layer_kache.Prelude.Counts.{
  sum_of, count_of, count_into, sum_of-count_into, count_of-count_into, count_of-empty,
}
use multie_layer_kache.Prelude.Floats.{Double, nought}
use multie_layer_kache.Telemetry.Schema.{TelemetryRecord}
use multie_layer_kache.Telemetry.Collector.{Storage, Collector, flush_locked}

-- the dictionary of `get_statistics`
pub record CollectorStatistics (W : Type 0) : Type 0 where
  pub buffer_size : ℕ
  pub total_records_collected : ℕ
  pub total_flushes : ℕ
  pub decision_counts : Dict String ℕ
  pub avg_attention_score_in_buffer : W

abbrev pub label_of : {W : Type 0} → TelemetryRecord W → String
label_of r = r.decision_label

module _ {W S : Type 0} where
  unfoldable pub flush : Storage W S → Collector W S → Collector W S
  unfolding flush_locked
  flush st c = flush_locked st c

  -- behind the end of the flush thread
  unfoldable pub stop : Storage W S → Collector W S → Collector W S
  unfolding flush
  stop st c = flush st c

module _ {W : Type 0} ⦃d : Double W⦄ where
  -- `sum(r.avg_attention_score for r in buf)`
  unfoldable pub attention_sum : W → List (TelemetryRecord W) → W
  attention_sum total [] = total
  attention_sum total (r ∷ buf) = attention_sum (d.add total r.avg_attention_score) buf

  unfoldable pub average_attention : List (TelemetryRecord W) → W
  unfolding attention_sum
  average_attention [] = nought
  average_attention (r ∷ buf) = d.div (attention_sum nought (r ∷ buf)) (d.of_int (length (r ∷ buf)))

module _ {W S : Type 0} ⦃d : Double W⦄ where
  -- `round_6` is `round(x, 6)`
  unfoldable pub get_statistics : (W → W) → Collector W S → CollectorStatistics W
  unfolding average_attention count_into
  get_statistics round_6 c = record {
    buffer_size = length c.buffer;
    total_records_collected = c.total_records;
    total_flushes = c.total_flushes;
    decision_counts = count_into [] (map label_of c.buffer);
    avg_attention_score_in_buffer = round_6 (average_attention c.buffer);
  }

  -- The counts of the decisions add up to the size of the buffer, and the count of a decision is the
  -- number of the records in the buffer that have it.
  pub get_statistics_lem :
      (round_6 : W → W) (c : Collector W S) (label : String)
      → let s = get_statistics round_6 c in
        (sum_of (Dict.values s.decision_counts) ≡ s.buffer_size)
        × (count_of label s.decision_counts ≡ count_by (λ r. label_of r == label) c.buffer)
  unfolding get_statistics
  get_statistics_lem round_6 c label = (
    omega (arith, sum_of-count_into [] (map label_of c.buffer), length-map label_of c.buffer),
    omega (
      arith,
      count_of-count_into label [] (map label_of c.buffer),
      count_of-empty label,
      count_by-map (λ x. x == label) label_of c.buffer,
    ),
  )
