-- ===== src/Evaluation/Latency/Recent.antt =====
-- What a tracker holds after a sequence of calls.
use multie_layer_kache.Prelude.{
  ℕ, zero, suc, ◌-◌, ◌≤◌, min, ◌≡◌, ◌∙◌, refl, sym, ap, List, [], ◌∷◌, ◌++◌, arith, length, drop,
  length-append, length-drop, drop-drop,
}
use multie_layer_kache.Evaluation.Latency.{
  TrackerCall, observe, clear, new_tracker, append_within, call_all, get_all, count, record_value,
  reset,
}

nothing_left : (n : ℕ) → 0 - n ≡ 0
nothing_left n = omega arith

-- `l` without what is too much at its front
abbrev pub latest : {A : Type 0} → ℕ → List A → List A
latest n l = drop (length l - n) l

module _ {A : Type 0} where
  drop-append_one :
      (k : ℕ) (l : List A) (x : A) → k ≤ length l → drop k l ++ x ∷ [] ≡ drop k (l ++ x ∷ [])
  unfolding drop
  drop-append_one zero l x h = refl
  drop-append_one (suc k) [] x h = absurd (omega arith)
  drop-append_one (suc k) (y ∷ l) x h = drop-append_one k l x (omega arith)

  -- Cutting each time is cutting once.
  append_within-latest :
      (n : ℕ) (l : List A) (x : A) → append_within n (latest n l) x ≡ latest n (l ++ x ∷ [])
  unfolding append_within
  append_within-latest n l x =
      let k = length l - n in
      let m = l ++ x ∷ [] in
      let le : k ≤ length l = omega arith in
      ap (λ t. drop (length t - n) t) (drop-append_one k l x le)
      ∙ sym (drop-drop k (length (drop k m) - n) m)
      ∙ ap (λ i. drop i m) (omega (arith, length-drop k m, length-append l (x ∷ [])))

latest_empty : {A : Type 0} (n : ℕ) → latest {A = A} n [] ≡ []
unfolding drop
latest_empty n = ap (λ k. drop k []) (nothing_left n)

module _ {W : Type 0} where
  -- what was recorded since the last reset, behind what came before
  abbrev pub since_reset : List W → List (TrackerCall W) → List W
  since_reset l [] = l
  since_reset l (observe value ∷ calls) = since_reset (l ++ value ∷ []) calls
  since_reset l (clear ∷ calls) = since_reset [] calls

  call_all-latest :
      (n : ℕ) (l : List W) (calls : List (TrackerCall W))
      → (call_all (record { window_size = n; window = latest n l }) calls).window
        ≡ latest n (since_reset l calls)
  unfolding call_all record_value reset
  call_all-latest n l [] = refl
  call_all-latest n l (observe value ∷ calls) =
      ap (λ w. (call_all (record { window_size = n; window = w }) calls).window)
        (append_within-latest n l value)
      ∙ call_all-latest n (l ++ value ∷ []) calls
  call_all-latest n l (clear ∷ calls) =
      ap (λ w. (call_all (record { window_size = n; window = w }) calls).window)
        (sym (latest_empty n))
      ∙ call_all-latest n [] calls

  -- After any sequence of calls a tracker holds the last `window_size` of the values recorded since the
  -- last reset, in their order; so the number it counts is that of the values or the size, whichever is
  -- less.
  pub call_all-get_all :
      (n : ℕ) (calls : List (TrackerCall W))
      → let t = call_all (new_tracker n) calls in
        let values = since_reset [] calls in
        (get_all t ≡ latest n values) × (count t ≡ min n (length values))
  unfolding get_all count
  call_all-get_all n calls =
      let values = since_reset [] calls in
      let same : (call_all (new_tracker n) calls).window ≡ latest n values =
        ap (λ w. (call_all (record { window_size = n; window = w }) calls).window)
          (sym (latest_empty n))
        ∙ call_all-latest n [] calls in
      (same, ap length same ∙ omega (arith, length-drop (length values - n) values))
