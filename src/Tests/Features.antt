-- ===== src/Tests/Features.antt =====
-- The theorems on features, importance and training data at concrete blocks.
use multie_layer_kache.Prelude.{
  ℕ, ◌*◌, ◌≡◌, refl, inr, inl, none, some, List, [], ◌∷◌, arith, length, All, count_by,
}
use multie_layer_kache.Prelude.Fixed.{Fixed, pos, fixed_double, Fixed-IsOrdered}
use multie_layer_kache.Prelude.Floats.{max_default}
use multie_layer_kache.Tests.{blocks, first_block}
use multie_layer_kache.Telemetry.Schema.{BlockState}
use multie_layer_kache.Features.Extractor.{Maths, FeatureExtractor, RequestMetrics}
use multie_layer_kache.Features.Importance.{ImportanceScorer, score_batch}
use multie_layer_kache.Features.Importance.Range.{InRange, score_batch_lem}

abbrev maths : Maths Fixed
maths = record {
  searchsorted = λ l v. count_by (λ x. fixed_double.lt x v) l;
  log1p = λ n. pos (n * 1000);
  sum = λ l. max_default (pos 0) l;
  amax = λ l. max_default (pos 0) l;
  single = λ x. x;
}

abbrev extractor : FeatureExtractor Fixed
extractor = record {
  num_layers = 32;
  num_head_groups = 8;
  max_context_length = 32_768;
  sink_token_blocks = 4;
  heavy_hitter_fraction = pos 200;
  recent_window_blocks = 1;
}

abbrev idle : RequestMetrics
idle = record {
  queue_depth = none;
  context_length = none;
  output_length = some 3;
  workload_type = some "code";
}

abbrev numbered : ℕ → BlockState Fixed
numbered i = record first_block { block_id = i }

-- the ids 2, 1 and 0, of which the window has one
abbrev batch : List (BlockState Fixed)
batch = numbered 2 ∷ numbered 1 ∷ numbered 0 ∷ []

abbrev importance : ImportanceScorer Fixed
importance = record { alpha = pos 400; beta = pos 300; gamma = pos 300; delta = pos 100 }

abbrev attentions : List Fixed
attentions = pos 2000 ∷ pos 100 ∷ pos 300 ∷ []

abbrev same_value : Fixed → Fixed
same_value x = x

score_batch_lem_example :
    (scores : List Fixed) × (score_batch same_value importance blocks attentions [] ≡ some scores)
    × (length scores ≡ length blocks)
    × All InRange scores
score_batch_lem_example =
    score_batch_lem Fixed-IsOrdered refl same_value (λ x y h. h) refl refl importance blocks
      attentions [] (inr (omega arith)) (inl refl)

abbrev shuffled : List ℕ
shuffled = 3 ∷ 0 ∷ 2 ∷ 1 ∷ []
