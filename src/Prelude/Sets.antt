-- ===== src/Prelude/Sets.antt =====
-- Python's sets as lists: equality of two sets, and what sorting does to a set.
use hammerhead_bench.Prelude.{
  ==_comm, ==_iff, ==_refl, All-of-contains, Bool, Bool-ext, Eq, List, [], all, arith, contains,
  count, count_none, false, filter, if◌then◌else◌, not, refl, sym, true, ◌&&◌, ◌+◌, ◌==◌, ◌||◌, ◌↔◌,
  ◌∙◌, ◌∷◌, ◌≡◌,
}
use hammerhead_bench.Prelude.Order.{Order}
use hammerhead_bench.Prelude.Sort.{insert, sort}
use hammerhead_bench.Prelude.Dict.{Distinct, contains-filter, filter-Distinct}

module _ {ℓ} {A : Type ℓ} ⦃e : Eq A⦄ where
  all_in : List A → List A → Bool
  all_in xs ys = all (λ x. contains x ys) xs

  -- `frozenset(xs) == frozenset(ys)`
  unfoldable pub set_eq : List A → List A → Bool
  unfolding all_in
  set_eq xs ys = all_in xs ys && all_in ys xs

  all_in_sound :
      (xs ys : List A) (a : A) → all_in xs ys ≡ true → contains a xs ≡ true → contains a ys ≡ true
  unfolding all_in all contains
  all_in_sound [] ys a h m = cc
  all_in_sound (x ∷ xs) ys a h m = ground (arith, ==_iff a x, all_in_sound xs ys a)

  all_in_complete :
      (xs ys : List A)
      → ((a : A) → contains a xs ≡ true → contains a ys ≡ true)
      → all_in xs ys ≡ true
  unfolding all_in all contains
  all_in_complete [] ys f = refl
  all_in_complete (x ∷ xs) ys f =
      ground (arith, f x, ==_refl x, all_in_complete xs ys (λ a m. f a (ground arith)))

  -- Two sets are equal exactly when they have the same members.
  pub set_eq_iff :
      (xs ys : List A) → (set_eq xs ys ≡ true) ↔ ((a : A) → contains a xs ≡ contains a ys)
  unfolding set_eq
  set_eq_iff xs ys = (
    λ h a.
        Bool-ext (contains a xs) (contains a ys) (all_in_sound xs ys a (ground arith))
          (all_in_sound ys xs a (ground arith)),
    λ f. ground (
      arith,
      all_in_complete xs ys (λ a m. ground (arith, f a)),
      all_in_complete ys xs (λ a m. ground (arith, f a)),
    ),
  )

  pub set_eq_refl : (xs : List A) → set_eq xs xs ≡ true
  set_eq_refl xs = (set_eq_iff xs xs).1 (λ a. refl)

  pub set_eq_comm : (xs ys : List A) → set_eq xs ys ≡ set_eq ys xs
  unfolding set_eq
  set_eq_comm xs ys = ground arith

  pub set_eq_trans :
      (xs ys zs : List A) → set_eq xs ys ≡ true → set_eq ys zs ≡ true → set_eq xs zs ≡ true
  set_eq_trans xs ys zs h k =
      (set_eq_iff xs zs).1 (λ a. (set_eq_iff xs ys).0 h a ∙ (set_eq_iff ys zs).0 k a)

module _ {ℓ κ} {A : Type ℓ} {K : Type κ} ⦃e : Eq A⦄ ⦃o : Order K⦄ (key : A → K) where
  contains-insert :
      (a x : A) (xs : List A) → contains a (insert key x xs) ≡ (a == x || contains a xs)
  unfolding contains insert
  contains-insert a x [] = refl
  contains-insert a x (y ∷ ys) = ground (arith, contains-insert a x ys)

  pub contains-sort : (a : A) (xs : List A) → contains a (sort key xs) ≡ contains a xs
  unfolding contains sort
  contains-sort a [] = refl
  contains-sort a (x ∷ xs) = ground (arith, contains-insert a x (sort key xs), contains-sort a xs)

  insert-Distinct :
      (x : A) (xs : List A) → contains x xs ≡ false → Distinct xs → Distinct (insert key x xs)
  unfolding contains insert
  insert-Distinct x [] m h = ground arith
  insert-Distinct x (y ∷ ys) m h =
      ground (arith, contains-insert y x ys, ==_comm x y, insert-Distinct x ys)

  pub sort-Distinct : (xs : List A) → Distinct xs → Distinct (sort key xs)
  unfolding sort
  sort-Distinct [] h = tt
  sort-Distinct (x ∷ xs) h =
      insert-Distinct x (sort key xs) (contains-sort x xs ∙ h.0) (sort-Distinct xs h.1)

module _ {ℓ} {A : Type ℓ} ⦃e : Eq A⦄ where
  count-remove :
      (p : A → Bool) (x : A) (ys : List A)
      → Distinct ys
      → count p ys
        ≡ count p (filter (λ y. not (y == x)) ys) + (if p x && contains x ys then 1 else 0)
  unfolding count filter contains
  count-remove p x [] h = ground arith
  count-remove p x (y ∷ ys) h =
      ground (arith, count-remove p x ys h.1, ==_iff x y, ==_comm x y, h.0)

  -- A count over a set depends on its members alone.
  pub count_of_members :
      (p : A → Bool) (xs ys : List A)
      → Distinct xs
      → Distinct ys
      → ((a : A) → contains a xs ≡ contains a ys)
      → count p xs ≡ count p ys
  unfolding count contains
  count_of_members p [] ys hx hy f =
      sym (count_none p ys (All-of-contains (λ a. p a ≡ false) ys (λ a m. absurd (no_members a m))))
    where
      no_members : (a : A) → contains a ys ≡ true → ⊥
      no_members a m = cc (f a, m)
  count_of_members p (x ∷ xs) ys hx hy f = ground (
    arith,
    count-remove p x ys hy,
    f x,
    ==_refl x,
    count_of_members p xs (filter (λ y. not (y == x)) ys) hx.1
        (filter-Distinct (λ y. not (y == x)) ys hy)
        (λ a. ground (arith, contains-filter (λ y. not (y == x)) a ys, f a, ==_iff a x, hx.0)),
  )
