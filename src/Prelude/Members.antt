-- ===== src/Prelude/Members.antt =====
-- Membership that keeps its witness, and Python's sets of block ids as lists with a Boolean test.
use Prim.Native.Nat.{ℕ, zero, suc, ◌+◌, ◌≤◌, ◌<◌}
use mathlib.Core.Path.{◌≡◌, refl, sym, ap}
use mathlib.Core.Logic.{◌⊎◌, inl, inr, ◌≢◌}
use mathlib.Core.Bool.{Bool, true, false, ◌||◌}
use mathlib.Core.List.{List, [], ◌∷◌, ◌++◌, map}
use native.Mathlib.Omega.{arith}
use multie_layer_kache.Prelude.Tests.{nat_key, Key, ◌==◌, equal_self, equal-true, Bool-cases}
use multie_layer_kache.Prelude.Lists.{
  length, All, take, drop, count_by, filter_by, count_by-le-length,
}

module _ {A : Type 0} where
  abbrev pub In : A → List A → Type 0
  In a [] = ⊥
  In a (x ∷ xs) = (a ≡ x) ⊎ In a xs

  -- A test that all elements pass counts them all, and one that none passes counts none.
  pub count_by-All :
      (p : A → Bool) (xs : List A) → All (λ a. p a ≡ true) xs → count_by p xs ≡ length xs
  count_by-All p [] h = refl
  count_by-All p (x ∷ xs) (h, hs) = ground (arith, count_by-All p xs hs)

  pub count_by-none : (p : A → Bool) (xs : List A) → All (λ a. p a ≡ false) xs → count_by p xs ≡ 0
  count_by-none p [] h = refl
  count_by-none p (x ∷ xs) (h, hs) = ground (arith, count_by-none p xs hs)

  pub count_by-lt :
      (p : A → Bool) (xs : List A) (a : A) → In a xs → p a ≡ false → count_by p xs < length xs
  count_by-lt p (x ∷ xs) a (inl e) h =
      let off : p x ≡ false = rw (← e) h in rw off (omega (arith, count_by-le-length p xs))
  count_by-lt p (x ∷ xs) a (inr m) h = ground (arith, count_by-lt p xs a m h)
  count_by-lt p [] a m h = elim m [ ]

  -- No two elements have the same key.
  abbrev pub Distinct : List A → Type 0
  Distinct [] = Unit {0}
  Distinct (x ∷ xs) = (In x xs → ⊥) × Distinct xs

  pub In-append : (a : A) (xs ys : List A) → In a (xs ++ ys) → In a xs ⊎ In a ys
  In-append a [] ys m = inr m
  In-append a (x ∷ xs) ys (inl e) = inl (inl e)
  In-append a (x ∷ xs) ys (inr m) = elim (In-append a xs ys m) [
    | inl l ↦ inl (inr l)
    | inr r ↦ inr r
  ]

  pub In-append_left : (a : A) (xs ys : List A) → In a xs → In a (xs ++ ys)
  In-append_left a (x ∷ xs) ys (inl e) = inl e
  In-append_left a (x ∷ xs) ys (inr m) = inr (In-append_left a xs ys m)
  In-append_left a [] ys m = elim m [ ]

  pub In-append_right : (a : A) (xs ys : List A) → In a ys → In a (xs ++ ys)
  In-append_right a [] ys m = m
  In-append_right a (x ∷ xs) ys m = inr (In-append_right a xs ys m)

  pub In-take : (a : A) (n : ℕ) (xs : List A) → In a (take n xs) → In a xs
  unfolding take
  In-take a zero xs m = elim m [ ]
  In-take a (suc n) [] m = m
  In-take a (suc n) (x ∷ xs) (inl e) = inl e
  In-take a (suc n) (x ∷ xs) (inr m) = inr (In-take a n xs m)

  pub In-drop : (a : A) (n : ℕ) (xs : List A) → In a (drop n xs) → In a xs
  unfolding drop
  In-drop a zero xs m = m
  In-drop a (suc n) [] m = m
  In-drop a (suc n) (x ∷ xs) m = inr (In-drop a n xs m)

  -- Where something stands behind the cut, the list is longer than the cut.
  pub length-drop-In : (n : ℕ) (xs : List A) (a : A) → In a (drop n xs) → n < length xs
  unfolding drop
  length-drop-In zero [] a m = elim m [ ]
  length-drop-In zero (x ∷ xs) a m = omega arith
  length-drop-In (suc n) [] a m = elim m [ ]
  length-drop-In (suc n) (x ∷ xs) a m = omega (arith, length-drop-In n xs a m)

  -- An element stands before the cut or behind it.
  pub In-take_or_drop :
      (a : A) (n : ℕ) (xs : List A) → In a xs → In a (take n xs) ⊎ In a (drop n xs)
  unfolding take drop
  In-take_or_drop a zero xs m = inr m
  In-take_or_drop a (suc n) [] m = inr m
  In-take_or_drop a (suc n) (x ∷ xs) (inl e) = inl (inl e)
  In-take_or_drop a (suc n) (x ∷ xs) (inr m) = elim (In-take_or_drop a n xs m) [
    | inl l ↦ inl (inr l)
    | inr r ↦ inr r
  ]

  pub In-filter_by :
      (p : A → Bool) (a : A) (xs : List A) → In a (filter_by p xs) → In a xs × (p a ≡ true)
  In-filter_by p a [] m = elim m [ ]
  In-filter_by p a (x ∷ xs) m = go (Bool-cases (p x)) (In-filter_by p a xs) m
    where
      go :
          (p x ≡ true) ⊎ (p x ≡ false)
          → (In a (filter_by p xs) → In a xs × (p a ≡ true))
          → In a (filter_by p (x ∷ xs))
          → In a (x ∷ xs) × (p a ≡ true)
      go (inr off) ih k = let r = ih (rw off at k) in (inr r.0, r.1)
      go (inl on) ih k = hit (rw on at k)
        where
          hit : (a ≡ x) ⊎ In a (filter_by p xs) → In a (x ∷ xs) × (p a ≡ true)
          hit (inl e) = (inl e, rw e on)
          hit (inr r) = let q = ih r in (inr q.0, q.1)

  pub All-In : (P : A → Type 0) (xs : List A) (a : A) → All P xs → In a xs → P a
  All-In P (x ∷ xs) a (h, hs) (inl e) = rw e h
  All-In P (x ∷ xs) a (h, hs) (inr m) = All-In P xs a hs m
  All-In P [] a h m = elim m [ ]

  pub All-of_In : (P : A → Type 0) (xs : List A) → ((a : A) → In a xs → P a) → All P xs
  All-of_In P [] f = tt
  All-of_In P (x ∷ xs) f = (f x (inl refl), All-of_In P xs (λ a m. f a (inr m)))

module _ {A B : Type 0} where
  pub In-map : (f : A → B) (a : A) (xs : List A) → In a xs → In (f a) (map f xs)
  In-map f a (x ∷ xs) (inl e) = inl (ap f e)
  In-map f a (x ∷ xs) (inr m) = inr (In-map f a xs m)
  In-map f a [] m = elim m [ ]

  pub In-map_inv :
      (f : A → B) (b : B) (xs : List A) → In b (map f xs) → (a : A) × In a xs × (b ≡ f a)
  In-map_inv f b (x ∷ xs) (inl e) = (x, inl refl, e)
  In-map_inv f b (x ∷ xs) (inr m) = let (a, h, e) = In-map_inv f b xs m in (a, inr h, e)
  In-map_inv f b [] m = elim m [ ]

  -- With distinct keys an element is determined by its key.
  pub key_injective :
      (f : A → B) (xs : List A) (a b : A)
      → Distinct (map f xs)
      → In a xs
      → In b xs
      → f a ≡ f b
      → a ≡ b
  key_injective f (x ∷ xs) a b d (inl p) (inl q) e = cc
  key_injective f (x ∷ xs) a b (out, d) (inl p) (inr q) e =
      absurd (out (rw (← p, e) (In-map f b xs q)))
  key_injective f (x ∷ xs) a b (out, d) (inr p) (inl q) e =
      absurd (out (rw (← q, ← e) (In-map f a xs p)))
  key_injective f (x ∷ xs) a b (out, d) (inr p) (inr q) e = key_injective f xs a b d p q e
  key_injective f [] a b d p q e = elim p [ ]

  -- With distinct keys no key stands on both sides of a cut.
  pub Distinct-take-drop :
      (f : A → B) (n : ℕ) (xs : List A) (a b : A)
      → Distinct (map f xs)
      → In a (take n xs)
      → In b (drop n xs)
      → f a ≢ f b
  unfolding take drop
  Distinct-take-drop f zero xs a b d m k = λ _. elim m [ ]
  Distinct-take-drop f (suc n) [] a b d m k = λ _. elim m [ ]
  Distinct-take-drop f (suc n) (x ∷ xs) a b (out, d) (inl p) k =
      λ e. out (rw (← p, e) (In-map f b xs (In-drop b n xs k)))
  Distinct-take-drop f (suc n) (x ∷ xs) a b (out, d) (inr m) k = Distinct-take-drop f n xs a b d m k

module _ {A : Type 0} ⦃e : Key A⦄ where
  -- `a in s`
  abbrev pub member : A → List A → Bool
  member a [] = false
  member a (x ∷ xs) = (a == x) || member a xs

  pub member→In : (a : A) (xs : List A) → member a xs ≡ true → In a xs
  member→In a [] h = cc
  member→In a (x ∷ xs) h = elim (Bool-cases (a == x)) [
    | inl p ↦ inl (equal-true a x p)
    | inr p ↦ inr (member→In a xs (rw p at h))
  ]

  pub In→member : (a : A) (xs : List A) → In a xs → member a xs ≡ true
  In→member a (x ∷ xs) (inl p) = rw (p, equal_self x)
  In→member a (x ∷ xs) (inr m) = ground (arith, In→member a xs m)
  In→member a [] m = elim m [ ]

  pub not-In_of_member : (a : A) (xs : List A) → member a xs ≡ false → In a xs → ⊥
  not-In_of_member a xs h m = cc (In→member a xs m)

  pub member-append : (a : A) (xs ys : List A) → member a (xs ++ ys) ≡ (member a xs || member a ys)
  member-append a [] ys = refl
  member-append a (x ∷ xs) ys = ground (arith, member-append a xs ys)

module _ {A : Type 0} (key : A → ℕ) where
  count_key_absent :
      (i : ℕ) (xs : List A) → (In i (map key xs) → ⊥) → count_by (λ x. key x == i) xs ≡ 0
  count_key_absent i [] out = refl
  count_key_absent i (x ∷ xs) out = elim (Bool-cases (key x == i)) [
    | inl p ↦ absurd (out (inl (sym (equal-true (key x) i p))))
    | inr p ↦ rw p (omega (arith, count_key_absent i xs (λ m. out (inr m))))
  ]

  count_key-le : (i : ℕ) (xs : List A) → Distinct (map key xs) → count_by (λ x. key x == i) xs ≤ 1
  count_key-le i [] dist = omega arith
  count_key-le i (x ∷ xs) (out, dist) = elim (Bool-cases (key x == i)) [
    | inl p ↦ rw p (omega (arith, count_key_absent i xs (rw (equal-true (key x) i p) at out)))
    | inr p ↦ rw p (omega (arith, count_key-le i xs dist))
  ]

  count_union :
      (i : ℕ) (s : List ℕ) (xs : List A)
      → count_by (λ x. member (key x) (i ∷ s)) xs
        ≤ count_by (λ x. key x == i) xs + count_by (λ x. member (key x) s) xs
  count_union i s [] = omega arith
  count_union i s (x ∷ xs) = ground (arith, count_union i s xs)

  -- With distinct keys no more elements have their key in a set than the set has entries.
  pub count_members-le :
      (s : List ℕ) (xs : List A)
      → Distinct (map key xs)
      → count_by (λ x. member (key x) s) xs ≤ length s
  count_members-le [] xs dist = count_none xs
    where
      count_none : (xs : List A) → count_by (λ x. false) xs ≤ 0
      count_none [] = omega arith
      count_none (x ∷ xs) = omega (arith, count_none xs)
  count_members-le (i ∷ s) xs dist =
      omega (arith, count_union i s xs, count_key-le i xs dist, count_members-le s xs dist)
