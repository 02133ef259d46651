-- ===== src/Prelude/Dict.antt =====
-- Python's `dict`: entries in the order of insertion. Writing to a key that is there keeps its
-- place; a new key goes to the end.
use mathlib.Core.Path.{◌≡◌, refl, ap, sym}
use mathlib.Core.Logic.{◌⊎◌, inl, inr}
use mathlib.Core.Bool.{false}
use mathlib.Core.Option
use mathlib.Core.Option.{Option, none, some}
use mathlib.Core.List.{List, [], ◌∷◌, map}
use native.Mathlib.Omega.{arith}
use multie_layer_kache.Prelude.Tests.{Key, ◌==◌, if◌then◌else◌, equal_self, equal-true, Bool-cases}
use multie_layer_kache.Prelude.Lists.{All}
use multie_layer_kache.Prelude.Members.{In, Distinct, In-map}

abbrev pub Dict : Type 0 → Type 0 → Type 0
Dict K V = List (K × V)

module _ {K V : Type 0} where
  -- `d.keys()`
  abbrev pub keys : Dict K V → List K
  keys d = map (λ e. e.0) d

  -- `d.values()`
  abbrev pub values : Dict K V → List V
  values d = map (λ e. e.1) d

module _ {K V : Type 0} ⦃e : Key K⦄ where
  -- `d.get(k)`
  unfoldable pub get : K → Dict K V → Option V
  get k [] = none
  get k ((j, v) ∷ d) = if j == k then some v else get k d

  -- `d[k] = v`
  unfoldable pub put : K → V → Dict K V → Dict K V
  put k v [] = (k, v) ∷ []
  put k v ((j, w) ∷ d) = if j == k then (j, v) ∷ d else (j, w) ∷ put k v d

  -- `d.pop(k, None)`, without the value
  unfoldable pub remove : K → Dict K V → Dict K V
  remove k [] = []
  remove k ((j, v) ∷ d) = let rest = remove k d in if j == k then rest else (j, v) ∷ rest

  -- a change made to the object that `d.get(k)` returns
  unfoldable pub modify : K → (V → V) → Dict K V → Dict K V
  modify k f [] = []
  modify k f ((j, v) ∷ d) = (j, if j == k then f v else v) ∷ modify k f d

module _ {K V : Type 0} ⦃e : Key K⦄ where
  pub get-put :
      (k j : K) (v : V) (d : Dict K V) → get j (put k v d) ≡ (if k == j then some v else get j d)
  unfolding get put
  get-put k j v [] = refl
  get-put k j v ((i, w) ∷ d) =
      ground (arith, e.equal_iff k j, e.equal_iff i k, e.equal_iff i j, get-put k j v d)

  pub get-remove :
      (k j : K) (d : Dict K V) → get j (remove k d) ≡ (if k == j then none else get j d)
  unfolding get remove
  get-remove k j [] = ground arith
  get-remove k j ((i, w) ∷ d) =
      ground (arith, e.equal_iff k j, e.equal_iff i k, e.equal_iff i j, get-remove k j d)

  pub get-modify :
      (k j : K) (f : V → V) (d : Dict K V)
      → get j (modify k f d) ≡ (if k == j then Option.map f (get j d) else get j d)
  unfolding get modify
  get-modify k j f [] = ground arith
  get-modify k j f ((i, w) ∷ d) =
      ground (arith, e.equal_iff k j, e.equal_iff i k, e.equal_iff i j, get-modify k j f d)

  pub keys-modify : (k : K) (f : V → V) (d : Dict K V) → keys (modify k f d) ≡ keys d
  unfolding modify
  keys-modify k f [] = refl
  keys-modify k f ((i, w) ∷ d) = ap (◌∷◌ i) (keys-modify k f d)

  -- An absent key is changed by nothing.
  pub modify_absent : (k : K) (f : V → V) (d : Dict K V) → get k d ≡ none → modify k f d ≡ d
  unfolding get modify
  modify_absent k f [] h = refl
  modify_absent k f ((i, w) ∷ d) h = ground (arith, modify_absent k f d)

  In-keys-put : (k j : K) (v : V) (d : Dict K V) → In j (keys (put k v d)) → (j ≡ k) ⊎ In j (keys d)
  unfolding put
  In-keys-put k j v [] m = m
  In-keys-put k j v ((i, w) ∷ d) m = elim (Bool-cases (i == k)) [
    | inl p ↦ inr (rw p at m)
    | inr p ↦
        let m' : (j ≡ i) ⊎ In j (keys (put k v d)) = rw p at m in
        elim m' [
          | inl q ↦ inr (inl q)
          | inr r ↦ elim (In-keys-put k j v d r) [ inl q ↦ inl q | inr q ↦ inr (inr q) ]
        ]
  ]

  pub In-keys-remove :
      (k j : K) (d : Dict K V) → In j (keys (remove k d)) → In j (keys d) × ((k == j) ≡ false)
  unfolding remove
  In-keys-remove k j [] m = elim m [ ]
  In-keys-remove k j ((i, w) ∷ d) m = elim (Bool-cases (i == k)) [
    | inl p ↦ let r = In-keys-remove k j d (rw p at m) in (inr r.0, r.1)
    | inr p ↦
        let m' : (j ≡ i) ⊎ In j (keys (remove k d)) = rw p at m in
        elim m' [
          | inl q ↦ (inl q, ground (arith, e.equal_iff k j, e.equal_iff i k))
          | inr r ↦ let r' = In-keys-remove k j d r in (inr r'.0, r'.1)
        ]
  ]

  -- Every write keeps the keys distinct.
  pub put-Distinct :
      (k : K) (v : V) (d : Dict K V) → Distinct (keys d) → Distinct (keys (put k v d))
  unfolding put
  put-Distinct k v [] h = (λ m. elim m [ ], tt)
  put-Distinct k v ((i, w) ∷ d) (out, h) = elim (Bool-cases (i == k)) [
    | inl p ↦ rw p (out, h)
    | inr p ↦ rw p (
      λ m. elim (In-keys-put k i v d m) [ inl q ↦ cc ((e.equal_iff i k).1 q) | inr r ↦ out r ],
      put-Distinct k v d h,
    )
  ]

  pub remove-Distinct : (k : K) (d : Dict K V) → Distinct (keys d) → Distinct (keys (remove k d))
  unfolding remove
  remove-Distinct k [] h = tt
  remove-Distinct k ((i, w) ∷ d) (out, h) = elim (Bool-cases (i == k)) [
    | inl p ↦ rw p (remove-Distinct k d h)
    | inr p ↦ rw p (λ m. out (In-keys-remove k i d m).0, remove-Distinct k d h)
  ]

  pub get-some-In : (k : K) (v : V) (d : Dict K V) → get k d ≡ some v → In (k, v) d
  unfolding get
  get-some-In k v [] h = cc
  get-some-In k v ((i, w) ∷ d) h = elim (Bool-cases (i == k)) [
    | inl p ↦ inl (ground (arith, e.equal_iff i k))
    | inr p ↦ inr (get-some-In k v d (rw p at h))
  ]

  pub In-get : (k : K) (v : V) (d : Dict K V) → Distinct (keys d) → In (k, v) d → get k d ≡ some v
  unfolding get
  In-get k v [] h m = elim m [ ]
  In-get k v ((i, w) ∷ d) (out, h) (inl p) = ground (arith, e.equal_iff i k)
  In-get k v ((i, w) ∷ d) (out, h) (inr m) = elim (Bool-cases (i == k)) [
    | inl q ↦ absurd (out (rw (equal-true i k q) (In-map (λ (x : K × V). x.0) (k, v) d m)))
    | inr q ↦ rw q (In-get k v d h m)
  ]

module _ {K V : Type 0} ⦃e : Key K⦄ (P : K × V → Type 0) where
  pub All-put : (k : K) (v : V) (d : Dict K V) → P (k, v) → All P d → All P (put k v d)
  unfolding put
  All-put k v [] p h = (p, tt)
  All-put k v ((i, w) ∷ d) p (q, h) = elim (Bool-cases (i == k)) [
    | inl same ↦ rw same (rw (equal-true i k same) p, h)
    | inr other ↦ rw other (q, All-put k v d p h)
  ]

  pub All-remove : (k : K) (d : Dict K V) → All P d → All P (remove k d)
  unfolding remove
  All-remove k [] h = tt
  All-remove k ((i, w) ∷ d) (q, h) = elim (Bool-cases (i == k)) [
    | inl same ↦ rw same (All-remove k d h)
    | inr other ↦ rw other (q, All-remove k d h)
  ]

  pub All-modify :
      (k : K) (f : V → V) (d : Dict K V)
      → ((i : K) (w : V) → P (i, w) → P (i, f w))
      → All P d
      → All P (modify k f d)
  unfolding modify
  All-modify k f [] keep h = tt
  All-modify k f ((i, w) ∷ d) keep (q, h) = elim (Bool-cases (i == k)) [
    | inl same ↦ rw same (keep i w q, All-modify k f d keep h)
    | inr other ↦ rw other (q, All-modify k f d keep h)
  ]

module _ {K V : Type 0} ⦃e : Key K⦄ where
  pub get_absent : (k : K) (d : Dict K V) → (In k (keys d) → ⊥) → get k d ≡ none
  unfolding get
  get_absent k [] out = refl
  get_absent k ((i, w) ∷ d) out = elim (Bool-cases (i == k)) [
    | inl same ↦ absurd (out (inl (sym (equal-true i k same))))
    | inr other ↦ rw other (get_absent k d (λ m. out (inr m)))
  ]

  pub remove_absent : (k : K) (d : Dict K V) → get k d ≡ none → remove k d ≡ d
  unfolding get remove
  remove_absent k [] h = refl
  remove_absent k ((i, w) ∷ d) h = ground (arith, remove_absent k d)

  pub remove_self : (k : K) (v : V) (d : Dict K V) → remove k ((k, v) ∷ d) ≡ remove k d
  unfolding remove
  remove_self k v d = rw (equal_self k)
