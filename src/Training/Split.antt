-- ===== src/Training/Split.antt =====
-- src/trainers/label_generator.py: `split_train_val_test`. The permutation is numpy's generator's and an
-- argument; rows of `X` and labels `y` are picked together, so a sample is one element.
use multie_layer_kache.Prelude.{ℕ, ◌+◌, List, take, drop, length}
use multie_layer_kache.Prelude.Floats.{Double}

pub record Split : Type 0 where
  pub train_idx : List ℕ
  pub val_idx : List ℕ
  pub test_idx : List ℕ

module _ {W : Type 0} ⦃d : Double W⦄ where
  -- `int(n * frac)`
  abbrev pub share : ℕ → W → ℕ
  share n frac = d.trunc (d.mul (d.of_int n) frac)

  -- `idx` is `rng.permutation(n)`
  unfoldable pub split_train_val_test : List ℕ → W → W → Split
  unfolding take drop
  split_train_val_test idx val_frac test_frac =
      let n = length idx in
      let n_test = share n test_frac in
      let n_val = share n val_frac in
      record {
        train_idx = drop (n_test + n_val) idx;
        val_idx = take n_val (drop n_test idx);
        test_idx = take n_test idx;
      }
