-- ===== src/Benchmarks/Stress/Prompt.antt =====
-- The length of the prompt that `_random_prompt` makes.
use multie_layer_kache.Prelude.{
  ℕ, zero, suc, ◌+◌, ◌≤◌, ◌<◌, ◌≡◌, refl, String, List, [], ◌∷◌, ◌++◌, arith, ltb, inl, inr,
  Bool-cases,
}
use text.Mathlib.TextLemmas.{nil-append, cons-append}
use Prim.Native.String.{[] as empty, ◌∷◌ as push, ◌++◌ as append}
use multie_layer_kache.Serving.Generation.Stream.{char_length}
use multie_layer_kache.Benchmarks.Stress.{spaced_length, choose_words, join_words, random_prompt}

char_length-append : (s t : String) → char_length (append s t) ≡ char_length s + char_length t
unfolding char_length
char_length-append empty t = rw (nil-append t) (omega arith)
char_length-append (push c s) t = rw (cons-append c s t) (omega (arith, char_length-append s t))

spaced_length-append_one :
    (words : List String) (w : String)
    → spaced_length (words ++ w ∷ []) ≡ spaced_length words + char_length w + 1
spaced_length-append_one [] w = omega arith
spaced_length-append_one (v ∷ words) w = omega (arith, spaced_length-append_one words w)

choose_words_enough :
    (fuel target : ℕ) (choice : ℕ → String) (turn : ℕ) (words : List String)
    → target ≤ spaced_length words + fuel
    → target ≤ spaced_length (choose_words fuel target choice turn words)
unfolding choose_words
choose_words_enough zero target choice turn words h = omega (arith, h)
choose_words_enough (suc fuel) target choice turn words h =
    elim (Bool-cases (ltb (spaced_length words) target)) [
      | inl less ↦ rw less (
          choose_words_enough fuel target choice (suc turn) (words ++ choice turn ∷ [])
            (omega (arith, h, spaced_length-append_one words (choice turn))))
      | inr full ↦ rw full (ground (arith, full))
    ]

choose_words_bound :
    (longest fuel target : ℕ) (choice : ℕ → String) (turn : ℕ) (words : List String)
    → ((i : ℕ) → char_length (choice i) ≤ longest)
    → spaced_length words ≤ target + longest
    → spaced_length (choose_words fuel target choice turn words) ≤ target + longest
unfolding choose_words
choose_words_bound longest zero target choice turn words short h = h
choose_words_bound longest (suc fuel) target choice turn words short h =
    elim (Bool-cases (ltb (spaced_length words) target)) [
      | inl less ↦ rw less (
          choose_words_bound longest fuel target choice (suc turn) (words ++ choice turn ∷ []) short
            (ground (arith, less, short turn, spaced_length-append_one words (choice turn))))
      | inr full ↦ rw full h
    ]

one_space : char_length " " ≡ 1
unfolding char_length
one_space = refl

join_words-spaced_length :
    (words : List String)
    → 0 < spaced_length words
    → char_length (join_words words) + 1 ≡ spaced_length words
unfolding join_words
join_words-spaced_length [] h = absurd (omega arith)
join_words-spaced_length (w ∷ []) h = omega arith
join_words-spaced_length (w ∷ v ∷ words) h = omega (
  arith,
  char_length-append w (append " " (join_words (v ∷ words))),
  char_length-append " " (join_words (v ∷ words)),
  one_space,
  join_words-spaced_length (v ∷ words) (omega arith),
)

-- The loop of `_random_prompt` ends within as many turns as characters are asked for, and the prompt has at
-- least `target` - 1 characters and fewer than `target` plus the longest word.
pub random_prompt_lem :
    (choice : ℕ → String) (longest target : ℕ)
    → ((i : ℕ) → char_length (choice i) ≤ longest)
    → 0 < target
    → (target ≤ char_length (random_prompt choice target) + 1)
      × (char_length (random_prompt choice target) < target + longest)
unfolding random_prompt
random_prompt_lem choice longest target short some_chars =
    let words = choose_words target target choice 0 [] in
    let enough = choose_words_enough target target choice 0 [] (omega arith) in
    let bound = choose_words_bound longest target target choice 0 [] short (omega arith) in
    let joined = join_words-spaced_length words (omega (arith, enough, some_chars)) in
    (omega (arith, joined, enough), omega (arith, joined, bound))
