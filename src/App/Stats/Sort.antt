-- ===== src/App/Stats/Sort.antt =====
-- `Array.prototype.sort`, which is stable: the list that it gives is the one that insertion gives.
use kassandra.Base.{
  ◌≡◌, refl, Bool, true, false, List, [], ◌∷◌, All, Bool-cases, inl, inr, arith, sym, ap, ◌∙◌,
}
use mathlib.Core.Path.{subst}
use mathlib.Core.List.{Perm}
use mathlib.Core.List as List

-- `after x y` where the comparison of `x` with `y` is positive: `y` comes before `x`.
module _ {ℓ} {A : Type ℓ} (after : A → A → Bool) where
  unfoldable pub insert : A → List A → List A
  insert x [] = x ∷ []
  insert x (y ∷ ys) = elim (after x y) [ true ↦ y ∷ insert x ys | false ↦ x ∷ y ∷ ys ]

  unfoldable pub sort : List A → List A
  sort [] = []
  sort (x ∷ xs) = insert x (sort xs)

  -- No element stands after one that it ought to come before.
  abbrev pub Ordered : List A → Type ℓ
  Ordered [] = Unit
  Ordered (x ∷ xs) = All (λ y. after x y ≡ false) xs × Ordered xs

  insert-after : (x y : A) (ys : List A) → after x y ≡ true → insert x (y ∷ ys) ≡ y ∷ insert x ys
  unfolding insert
  insert-after x y ys e = ground arith

  insert_here : (x y : A) (ys : List A) → after x y ≡ false → insert x (y ∷ ys) ≡ x ∷ y ∷ ys
  unfolding insert
  insert_here x y ys e = ground arith

  insert-Perm : (x : A) (xs : List A) → Perm (x ∷ xs) (insert x xs)
  insert-Perm x [] = unfold insert in List.Perm.refl _
  insert-Perm x (y ∷ ys) = elim (Bool-cases (after x y)) [
    | inl e ↦
        subst (Perm (x ∷ y ∷ ys)) (sym (insert-after x y ys e))
          (List.Perm.trans (List.Perm.swap y x ys) (List.Perm.cons y (insert-Perm x ys)))
    | inr e ↦ subst (Perm (x ∷ y ∷ ys)) (sym (insert_here x y ys e)) (List.Perm.refl _)
  ]

  pub sort-Perm : (xs : List A) → Perm xs (sort xs)
  unfolding sort
  sort-Perm [] = List.Perm.refl _
  sort-Perm (x ∷ xs) = List.Perm.trans (List.Perm.cons x (sort-Perm xs)) (insert-Perm x (sort xs))

  All-insert {κ} : (P : A → Type κ) (x : A) (xs : List A) → P x → All P xs → All P (insert x xs)
  All-insert P x [] h hs = unfold insert in (h, tt)
  All-insert P x (y ∷ ys) h (h', hs) = elim (Bool-cases (after x y)) [
    | inl e ↦ subst (All P) (sym (insert-after x y ys e)) (h', All-insert P x ys h hs)
    | inr e ↦ subst (All P) (sym (insert_here x y ys e)) (h, (h', hs))
  ]

  module _ (asym : (x y : A) → after x y ≡ true → after y x ≡ false)
      (neg_trans : (x y z : A) → after x y ≡ false → after y z ≡ false → after x z ≡ false) where
    All-later :
        (x y : A) (ys : List A)
        → after x y ≡ false
        → All (λ z. after y z ≡ false) ys
        → All (λ z. after x z ≡ false) ys
    All-later x y [] e h = tt
    All-later x y (z ∷ zs) e (h, hs) = (neg_trans x y z e h, All-later x y zs e hs)

    insert-Ordered : (x : A) (xs : List A) → Ordered xs → Ordered (insert x xs)
    insert-Ordered x [] o = unfold insert in (tt, tt)
    insert-Ordered x (y ∷ ys) (h, o) = elim (Bool-cases (after x y)) [
      | inl e ↦
          subst Ordered (sym (insert-after x y ys e))
            (All-insert (λ z. after y z ≡ false) x ys (asym x y e) h, insert-Ordered x ys o)
      | inr e ↦ subst Ordered (sym (insert_here x y ys e)) ((e, All-later x y ys e h), (h, o))
    ]

    pub sort-Ordered : (xs : List A) → Ordered (sort xs)
    unfolding sort
    sort-Ordered [] = tt
    sort-Ordered (x ∷ xs) = insert-Ordered x (sort xs) (sort-Ordered xs)

  -- The elements that a test picks, in their order.
  abbrev pub picked : (A → Bool) → List A → List A
  picked q [] = []
  picked q (x ∷ xs) = elim (q x) [ true ↦ x ∷ picked q xs | false ↦ picked q xs ]

  module _ (q : A → Bool) (ties : (x y : A) → q x ≡ true → q y ≡ true → after x y ≡ false) where
    picked-insert : (x : A) (xs : List A) → picked q (insert x xs) ≡ picked q (x ∷ xs)
    picked-insert x [] = unfold insert in refl
    picked-insert x (y ∷ ys) = elim (Bool-cases (after x y)) [
      | inl e ↦ ap (picked q) (insert-after x y ys e) ∙ ground (arith, picked-insert x ys, ties x y)
      | inr e ↦ ap (picked q) (insert_here x y ys e)
    ]

    pub sort_stable : (xs : List A) → picked q (sort xs) ≡ picked q xs
    unfolding sort
    sort_stable [] = refl
    sort_stable (x ∷ xs) = ground (arith, picked-insert x (sort xs), sort_stable xs)
