-- ===== src/Prelude/Lists.antt =====
-- Python's lists: lengths and slices by native numbers, filters, and a predicate on every element.
use Prim.Native.Nat.{ℕ, zero, suc, ◌+◌, ◌-◌, ◌≤◌, min}
use mathlib.Core.Path.{◌≡◌, ◌∙◌, refl, sym, ap}
use mathlib.Core.Bool.{Bool, true, false}
use mathlib.Core.List.{List, [], ◌∷◌, ◌++◌, map, reverse, reverse_aux}
use native.Mathlib.Omega.{arith}
use multie_layer_kache.Prelude.Tests.{if◌then◌else◌}

plus_suc : (m n : ℕ) → suc m + n ≡ suc (m + n)
plus_suc m n = omega arith

plus_zero : (n : ℕ) → 0 + n ≡ n
plus_zero n = omega arith

module _ {ℓ} {A : Type ℓ} where
  abbrev pub length : List A → ℕ
  length [] = 0
  length (x ∷ xs) = suc (length xs)

  -- `l[:n]`
  unfoldable pub take : ℕ → List A → List A
  take zero xs = []
  take (suc n) [] = []
  take (suc n) (x ∷ xs) = x ∷ take n xs

  -- `l[n:]`
  unfoldable pub drop : ℕ → List A → List A
  drop zero xs = xs
  drop (suc n) [] = []
  drop (suc n) (x ∷ xs) = drop n xs

  -- `l[-n:]`: at n = 0 it is `l[0:]`, the whole list
  unfoldable pub last_n : ℕ → List A → List A
  last_n zero xs = xs
  last_n (suc n) xs = drop (length xs - suc n) xs

  -- `l[-1]`, for a list that has elements; the first argument stands for none
  abbrev pub last_cell : A → List A → A
  last_cell d [] = d
  last_cell d (x ∷ xs) = last_cell x xs

  -- `[x for x in l if p(x)]`
  abbrev pub filter_by : (A → Bool) → List A → List A
  filter_by p [] = []
  filter_by p (x ∷ xs) = let rest = filter_by p xs in if p x then x ∷ rest else rest

  -- `sum(1 for x in l if p(x))`
  abbrev pub count_by : (A → Bool) → List A → ℕ
  count_by p [] = 0
  count_by p (x ∷ xs) = (if p x then 1 else 0) + count_by p xs

  abbrev pub All {κ} : (A → Type κ) → List A → Type κ
  All P [] = Unit
  All P (x ∷ xs) = P x × All P xs

  pub length-append : (xs ys : List A) → length (xs ++ ys) ≡ length xs + length ys
  length-append [] ys = omega arith
  length-append (x ∷ xs) ys = omega (arith, length-append xs ys)

  length-reverse_aux : (s t : List A) → length (reverse_aux s t) ≡ length s + length t
  length-reverse_aux [] t = omega arith
  length-reverse_aux (x ∷ s) t = omega (arith, length-reverse_aux s (x ∷ t))

  pub length-reverse : (s : List A) → length (reverse s) ≡ length s
  length-reverse s = omega (arith, length-reverse_aux s [])

  pub length-take : (n : ℕ) (l : List A) → length (take n l) ≡ min n (length l)
  unfolding take
  length-take zero xs = omega arith
  length-take (suc n) [] = omega arith
  length-take (suc n) (x ∷ xs) = omega (arith, length-take n xs)

  pub length-drop : (n : ℕ) (l : List A) → length (drop n l) ≡ length l - n
  unfolding drop
  length-drop zero xs = omega arith
  length-drop (suc n) [] = omega arith
  length-drop (suc n) (x ∷ xs) = omega (arith, length-drop n xs)

  drop_empty : (n : ℕ) → drop n [] ≡ []
  unfolding drop
  drop_empty zero = refl
  drop_empty (suc n) = refl

  pub drop-drop : (m n : ℕ) (l : List A) → drop (m + n) l ≡ drop n (drop m l)
  unfolding drop
  drop-drop zero n l = ap (λ k. drop k l) (plus_zero n)
  drop-drop (suc m) n [] = drop_empty (suc m + n) ∙ sym (drop_empty n)
  drop-drop (suc m) n (x ∷ l) = ap (λ k. drop k (x ∷ l)) (plus_suc m n) ∙ drop-drop m n l

  pub take-append-drop : (n : ℕ) (l : List A) → take n l ++ drop n l ≡ l
  unfolding take drop
  take-append-drop zero xs = refl
  take-append-drop (suc n) [] = refl
  take-append-drop (suc n) (x ∷ xs) = ap (◌∷◌ x) (take-append-drop n xs)

  -- A list kept to its last `n` elements holds at most `n`, and all of a list that fits.
  pub length-last_n : (n : ℕ) (l : List A) → length (last_n (suc n) l) ≡ min (suc n) (length l)
  unfolding last_n
  length-last_n n l = omega (arith, length-drop (length l - suc n) l)

  pub count_by-append :
      (p : A → Bool) (xs ys : List A) → count_by p (xs ++ ys) ≡ count_by p xs + count_by p ys
  count_by-append p [] ys = omega arith
  count_by-append p (x ∷ xs) ys = omega (arith, count_by-append p xs ys)

  pub count_by-cong :
      (p q : A → Bool) (xs : List A) → ((x : A) → p x ≡ q x) → count_by p xs ≡ count_by q xs
  count_by-cong p q [] h = refl
  count_by-cong p q (x ∷ xs) h = ground (arith, h x, count_by-cong p q xs h)

  pub length-filter_by : (p : A → Bool) (xs : List A) → length (filter_by p xs) ≡ count_by p xs
  length-filter_by p [] = refl
  length-filter_by p (x ∷ xs) = ground (arith, length-filter_by p xs)

  pub count_by-le-length : (p : A → Bool) (xs : List A) → count_by p xs ≤ length xs
  count_by-le-length p [] = omega arith
  count_by-le-length p (x ∷ xs) = ground (arith, count_by-le-length p xs)

  pub All-mono {κ μ} :
      {P : A → Type κ} {Q : A → Type μ}
      → ((x : A) → P x → Q x)
      → (xs : List A) → All P xs
      → All Q xs
  All-mono f [] h = tt
  All-mono f (x ∷ xs) (h, hs) = (f x h, All-mono f xs hs)

module _ {ℓ κ} {A : Type ℓ} {B : Type κ} where
  pub length-map : (f : A → B) (xs : List A) → length (map f xs) ≡ length xs
  length-map f [] = refl
  length-map f (x ∷ xs) = ap suc (length-map f xs)

  pub count_by-map :
      (p : B → Bool) (f : A → B) (xs : List A) → count_by p (map f xs) ≡ count_by (λ x. p (f x)) xs
  count_by-map p f [] = refl
  count_by-map p f (x ∷ xs) = ap (λ n. (if p (f x) then 1 else 0) + n) (count_by-map p f xs)

  pub take-map : (n : ℕ) (f : A → B) (xs : List A) → take n (map f xs) ≡ map f (take n xs)
  unfolding take
  take-map zero f xs = refl
  take-map (suc n) f [] = refl
  take-map (suc n) f (x ∷ xs) = ap (◌∷◌ (f x)) (take-map n f xs)

  pub length-map-take-le : (n : ℕ) (f : A → B) (xs : List A) → length (map f (take n xs)) ≤ n
  unfolding take
  length-map-take-le zero f xs = omega arith
  length-map-take-le (suc n) f [] = omega arith
  length-map-take-le (suc n) f (x ∷ xs) = omega (arith, length-map-take-le n f xs)

  -- `zip(xs, ys)` stops at the shorter list
  unfoldable pub zip : List A → List B → List (A × B)
  zip (x ∷ xs) (y ∷ ys) = (x, y) ∷ zip xs ys
  zip [] ys = []
  zip (x ∷ xs) [] = []

  pub length-zip :
      (xs : List A) (ys : List B) → length xs ≡ length ys → length (zip xs ys) ≡ length xs
  unfolding zip
  length-zip [] ys h = refl
  length-zip (x ∷ xs) [] h = absurd (omega arith)
  length-zip (x ∷ xs) (y ∷ ys) h = ap suc (length-zip xs ys (omega arith))

  -- Lists of one length are zipped whole.
  pub map-zip_left :
      {C : Type ℓ} (g : A → C) (xs : List A) (ys : List B)
      → length ys ≡ length xs
      → map (λ e. g e.0) (zip xs ys) ≡ map g xs
  unfolding zip
  map-zip_left g [] ys h = refl
  map-zip_left g (x ∷ xs) [] h = absurd (omega arith)
  map-zip_left g (x ∷ xs) (y ∷ ys) h = ap (◌∷◌ (g x)) (map-zip_left g xs ys (omega arith))

module _ {A B : Type 0} (P : B → Type 0) (f : A → B) where
  pub All-map_of : (xs : List A) → All (λ x. P (f x)) xs → All P (map f xs)
  All-map_of [] h = tt
  All-map_of (x ∷ xs) (h, hs) = (h, All-map_of xs hs)

  pub All-map : ((x : A) → P (f x)) → (xs : List A) → All P (map f xs)
  All-map h [] = tt
  All-map h (x ∷ xs) = (h x, All-map h xs)

module _ {A : Type 0} (P : A → Type 0) where
  pub All-if : (b : Bool) (xs ys : List A) → All P xs → All P ys → All P (if b then xs else ys)
  All-if true xs ys h k = h
  All-if false xs ys h k = k
