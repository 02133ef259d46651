-- ===== src/Serving/Requests/Lists.antt =====
-- The archive: the end of a list that is cut at its front.
use multie_layer_kache.Prelude.{
  ℕ, zero, suc, ◌+◌, ◌-◌, ◌≤◌, ◌≡◌, refl, subst, Bool, some, List, [], ◌∷◌, ◌++◌, arith, ◌==◌,
  string_key, Key, equal_self, equal-true, count_by, if◌then◌else◌, ltb, length, length-append,
  drop, last_n, length-last_n, All, inl, inr, Bool-cases, either_branch,
}
use multie_layer_kache.Prelude.Dict
use multie_layer_kache.Prelude.Dict.{Dict, get_absent, remove_absent, modify_absent}
use multie_layer_kache.Prelude.Members.{In, Distinct}
use multie_layer_kache.Serving.Requests.{RequestRecord, last_with, archived, max_completed}

module _ {A : Type 0} (P : A → Type 0) where
  All-append_one : (xs : List A) (x : A) → All P xs → P x → All P (xs ++ x ∷ [])
  All-append_one [] x hs h = (h, tt)
  All-append_one (y ∷ xs) x (k, hs) h = (k, All-append_one xs x hs h)

  All-drop : (n : ℕ) (xs : List A) → All P xs → All P (drop n xs)
  unfolding drop
  All-drop zero xs hs = hs
  All-drop (suc n) [] hs = tt
  All-drop (suc n) (x ∷ xs) (h, hs) = All-drop n xs hs

  All-last_n : (n : ℕ) (xs : List A) → All P xs → All P (last_n n xs)
  unfolding last_n
  All-last_n zero xs hs = hs
  All-last_n (suc n) xs hs = All-drop (length xs - suc n) xs hs

module _ {W : Type 0} where
  pub All-archived :
      (P : RequestRecord W → Type 0) (r : RequestRecord W) (records : List (RequestRecord W))
      → All P records
      → P r
      → All P (archived r records)
  unfolding archived
  All-archived P r records hs h =
      let longer = records ++ r ∷ [] in
      let all = All-append_one P records r hs h in
      either_branch (λ l. All P l) (ltb max_completed (length longer)) (last_n max_completed longer)
        longer (All-last_n P max_completed longer all) all

  pub length-archived-le :
      (r : RequestRecord W) (records : List (RequestRecord W))
      → length records ≤ max_completed
      → length (archived r records) ≤ max_completed
  unfolding archived
  length-archived-le r records h =
      let longer = records ++ r ∷ [] in
      elim (Bool-cases (ltb max_completed (length longer))) [
        | inl over ↦ rw over (omega (arith, length-last_n 9_999 longer))
        | inr fits ↦ rw fits (ground (arith, length-append records (r ∷ [])))
      ]

  last_with_end :
      (records : List (RequestRecord W)) (r : RequestRecord W)
      → last_with r.request_id (records ++ r ∷ []) ≡ some r
  unfolding last_with
  last_with_end [] r = rw (equal_self r.request_id) refl
  last_with_end (x ∷ records) r = rw (last_with_end records r) refl

  last_with_cut :
      (k : ℕ) (records : List (RequestRecord W)) (r : RequestRecord W)
      → k ≤ length records
      → last_with r.request_id (drop k (records ++ r ∷ [])) ≡ some r
  unfolding drop
  last_with_cut zero records r h = last_with_end records r
  last_with_cut (suc k) [] r h = absurd (omega arith)
  last_with_cut (suc k) (x ∷ records) r h = last_with_cut k records r (omega arith)

  -- What was archived last is found under its id, also after the cut.
  pub last_with-archived :
      (r : RequestRecord W) (records : List (RequestRecord W))
      → last_with r.request_id (archived r records) ≡ some r
  unfolding archived last_n
  last_with-archived r records =
      let longer = records ++ r ∷ [] in
      elim (Bool-cases (ltb max_completed (length longer))) [
        | inl over ↦ rw over (
            last_with_cut (length longer - max_completed) records r
              (omega (arith, length-append records (r ∷ []))))
        | inr fits ↦ rw fits (last_with_end records r)
      ]

module _ {K V : Type 0} ⦃e : Key K⦄ where
  -- Removing an entry makes a dictionary shorter by one.
  pub length-remove :
      (k : K) (v : V) (d : Dict K V)
      → Distinct (Dict.keys d)
      → Dict.get k d ≡ some v
      → length (Dict.remove k d) + 1 ≡ length d
  unfolding Dict.get Dict.remove
  length-remove k v [] dist found = absurd (ground arith)
  length-remove k v ((i, w) ∷ d) (out, dist) found = elim (Bool-cases (i == k)) [
    | inl p ↦
        let absent = get_absent k d (subst (λ j. In j (Dict.keys d) → ⊥) (equal-true i k p) out) in
        rw (p, remove_absent k d absent) (omega arith)
    | inr p ↦ rw p (omega (arith, length-remove k v d dist (rw p at found)))
  ]

  -- A change to one entry changes a count by what it changes for that entry.
  pub count_by-modify :
      (p : V → Bool) (k : K) (f : V → V) (v : V) (d : Dict K V)
      → Distinct (Dict.keys d)
      → Dict.get k d ≡ some v
      → count_by p (Dict.values (Dict.modify k f d)) + (if p v then 1 else 0)
        ≡ count_by p (Dict.values d) + (if p (f v) then 1 else 0)
  unfolding Dict.get Dict.modify
  count_by-modify p k f v [] dist found = absurd (ground arith)
  count_by-modify p k f v ((i, w) ∷ d) (out, dist) found = elim (Bool-cases (i == k)) [
    | inl q ↦
        let absent = get_absent k d (subst (λ j. In j (Dict.keys d) → ⊥) (equal-true i k q) out) in
        let here : w ≡ v = ground (arith, (rw q at found)) in
        rw (q, modify_absent k f d absent, here) (ground arith)
    | inr q ↦ rw q (ground (arith, count_by-modify p k f v d dist (rw q at found)))
  ]
