-- ===== src/Evaluation/Pareto/Dominance.antt =====
-- Lemmas on dominance, and on tests over the elements of a list.
use multie_layer_kache.Prelude.{
  ◌≤◌, ◌<◌, ◌≡◌, refl, Bool, true, false, List, [], ◌∷◌, arith, inl, inr, count_by, Bool-cases,
}
use multie_layer_kache.Prelude.Members.{In}
use multie_layer_kache.Prelude.Floats.{Double, IsOrdered}
use multie_layer_kache.Evaluation.Pareto.{Point, any_of, oriented, dominates}

module _ {A : Type 0} where
  pub any_of-true :
      (p : A → Bool) (l : List A) → any_of p l ≡ true → (a : A) × In a l × (p a ≡ true)
  any_of-true p [] h = cc
  any_of-true p (x ∷ xs) h = elim (Bool-cases (p x)) [
    | inl e ↦ (x, inl refl, e)
    | inr e ↦ let (a, m, f) = any_of-true p xs (rw e at h) in (a, inr m, f)
  ]

  pub any_of-In : (p : A → Bool) (l : List A) (a : A) → In a l → p a ≡ true → any_of p l ≡ true
  any_of-In p (x ∷ xs) a (inl e) h = rw (← e, h) refl
  any_of-In p (x ∷ xs) a (inr m) h = ground (arith, any_of-In p xs a m h)
  any_of-In p [] a m h = elim m [ ]

  -- A test that implies another holds less often, and strictly so where only the other holds.
  pub count_by_le :
      (p q : A → Bool) (l : List A)
      → ((a : A) → p a ≡ true → q a ≡ true)
      → count_by p l ≤ count_by q l
  count_by_le p q [] h = omega arith
  count_by_le p q (x ∷ xs) h = ground (arith, h x, count_by_le p q xs h)

  pub count_by_lt :
      (p q : A → Bool) (l : List A) (b : A)
      → ((a : A) → p a ≡ true → q a ≡ true)
      → In b l
      → p b ≡ false
      → q b ≡ true
      → count_by p l < count_by q l
  count_by_lt p q (x ∷ xs) b h (inl e) off on =
      let off' : p x ≡ false = rw (← e) off in
      let on' : q x ≡ true = rw (← e) on in rw (off', on') (omega (arith, count_by_le p q xs h))
  count_by_lt p q (x ∷ xs) b h (inr m) off on = ground (arith, h x, count_by_lt p q xs b h m off on)
  count_by_lt p q [] b h m off on = elim m [ ]

module _ {W : Type 0} ⦃d : Double W⦄ (o : IsOrdered d) (hx hy : Bool) where
  pub dominates_irrefl : (p : Point W) → dominates hx hy p p ≡ false
  unfolding dominates
  dominates_irrefl p = ground (
    arith,
    o.lt-not-le (oriented hx p.x) (oriented hx p.x),
    o.lt-not-le (oriented hy p.y) (oriented hy p.y),
    o.le_refl (oriented hx p.x),
    o.le_refl (oriented hy p.y),
  )

  pub dominates_trans :
      (p q r : Point W)
      → dominates hx hy p q ≡ true
      → dominates hx hy q r ≡ true
      → dominates hx hy p r ≡ true
  unfolding dominates
  dominates_trans p q r h k =
      let px = oriented hx p.x in
      let qx = oriented hx q.x in
      let rx = oriented hx r.x in
      let py = oriented hy p.y in
      let qy = oriented hy q.y in
      let ry = oriented hy r.y in
      ground (
        arith,
        o.le_trans rx qx px,
        o.le_trans ry qy py,
        o.le_trans px rx qx,
        o.le_trans qx px rx,
        o.le_trans py ry qy,
        o.le_trans qy py ry,
        o.lt-not-le qx px,
        o.lt-not-le qy py,
        o.lt-not-le rx qx,
        o.lt-not-le ry qy,
        o.lt-not-le rx px,
        o.lt-not-le ry py,
      )
