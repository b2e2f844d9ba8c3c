-- ===== src/Prelude/Sort.antt =====
-- Python's `sorted(xs, key=f)`: the stable sort by a key.
use mathlib.Core.List.{Perm}
use mathlib.Core.List.Perm
use hammerhead_bench.Prelude.Order.{Order}
use hammerhead_bench.Prelude.{
  ◌≡◌, refl, Bool, true, false, List, [], ◌∷◌, map, arith, All, All-filter, any, filter, ◌||◌,
  if◌then◌else◌,
}

module _ {ℓ κ} {A : Type ℓ} {K : Type κ} ⦃o : Order K⦄ (key : A → K) where
  -- `x` goes in front of the elements that are not below it, so equal keys keep their order.
  unfoldable pub insert : A → List A → List A
  insert x [] = x ∷ []
  insert x (y ∷ ys) = if o.le (key x) (key y) then x ∷ y ∷ ys else y ∷ insert x ys

  unfoldable pub sort : List A → List A
  unfolding insert
  sort [] = []
  sort (x ∷ xs) = insert x (sort xs)

  -- Every element is at most each later one.
  abbrev pub IsSorted : List A → Type 0
  IsSorted [] = Unit
  IsSorted (x ∷ xs) = All (λ y. o.le (key x) (key y) ≡ true) xs × IsSorted xs

  All-insert {μ} : (P : A → Type μ) (x : A) (xs : List A) → P x → All P xs → All P (insert x xs)
  unfolding insert
  All-insert P x [] p h = (p, tt)
  All-insert P x (y ∷ ys) p h = go (o.le (key x) (key y)) (All-insert P x ys p h.1)
    where
      go : (b : Bool) → All P (insert x ys) → All P (if b then x ∷ y ∷ ys else y ∷ insert x ys)
      go true t = (p, h)
      go false t = (h.0, t)

  pub All-sort {μ} : (P : A → Type μ) (xs : List A) → All P xs → All P (sort xs)
  unfolding sort
  All-sort P [] h = tt
  All-sort P (x ∷ xs) h = All-insert P x (sort xs) h.0 (All-sort P xs h.1)

  All-le_trans :
      (x y : A) (ys : List A)
      → o.le (key x) (key y) ≡ true
      → All (λ z. o.le (key y) (key z) ≡ true) ys
      → All (λ z. o.le (key x) (key z) ≡ true) ys
  All-le_trans x y [] p h = tt
  All-le_trans x y (z ∷ zs) p h =
      (o.le_trans (key x) (key y) (key z) p h.0, All-le_trans x y zs p h.1)

  insert-IsSorted : (x : A) (xs : List A) → IsSorted xs → IsSorted (insert x xs)
  unfolding insert
  insert-IsSorted x [] h = (tt, tt)
  insert-IsSorted x (y ∷ ys) h = go (o.le (key x) (key y)) refl (insert-IsSorted x ys h.1)
    where
      go :
          (b : Bool)
          → o.le (key x) (key y) ≡ b
          → IsSorted (insert x ys)
          → IsSorted (if b then x ∷ y ∷ ys else y ∷ insert x ys)
      go true p t = ((p, All-le_trans x y ys p h.0), h)
      go false p t = (
        All-insert (λ z. o.le (key y) (key z) ≡ true) x ys
            (ground (arith, o.le_total (key x) (key y))) h.0,
        t,
      )

  pub sort-IsSorted : (xs : List A) → IsSorted (sort xs)
  unfolding sort
  sort-IsSorted [] = tt
  sort-IsSorted (x ∷ xs) = insert-IsSorted x (sort xs) (sort-IsSorted xs)

  insert_of_le :
      (x : A) (xs : List A) → All (λ y. o.le (key x) (key y) ≡ true) xs → insert x xs ≡ x ∷ xs
  unfolding insert
  insert_of_le x [] h = refl
  insert_of_le x (y ∷ ys) h = ground (arith, h.0)

  -- Sorting a sorted list changes nothing.
  pub sort_of_IsSorted : (xs : List A) → IsSorted xs → sort xs ≡ xs
  unfolding sort
  sort_of_IsSorted [] h = refl
  sort_of_IsSorted (x ∷ xs) h = ground (arith, sort_of_IsSorted xs h.1, insert_of_le x xs h.0)

  insert-perm : (x : A) (xs : List A) → Perm (insert x xs) (x ∷ xs)
  unfolding insert
  insert-perm x [] = Perm.refl (x ∷ [])
  insert-perm x (y ∷ ys) = go (o.le (key x) (key y)) (insert-perm x ys)
    where
      go :
          (b : Bool)
          → Perm (insert x ys) (x ∷ ys)
          → Perm (if b then x ∷ y ∷ ys else y ∷ insert x ys) (x ∷ y ∷ ys)
      go true t = Perm.refl (x ∷ y ∷ ys)
      go false t = Perm.trans (Perm.cons y t) (Perm.swap x y ys)

  -- The sort only moves elements.
  pub sort-perm : (xs : List A) → Perm (sort xs) xs
  unfolding sort
  sort-perm [] = Perm.refl []
  sort-perm (x ∷ xs) = Perm.trans (insert-perm x (sort xs)) (Perm.cons x (sort-perm xs))

  pub All-map {μ} :
      (P : A → Type μ) (f : A → A) (xs : List A) → All (λ x. P (f x)) xs → All P (map f xs)
  All-map P f [] h = tt
  All-map P f (x ∷ xs) h = (h.0, All-map P f xs h.1)

  pub filter-IsSorted : (p : A → Bool) (xs : List A) → IsSorted xs → IsSorted (filter p xs)
  unfolding filter
  filter-IsSorted p [] h = tt
  filter-IsSorted p (x ∷ xs) h = go (p x) (filter-IsSorted p xs h.1)
    where
      go :
          (b : Bool)
          → IsSorted (filter p xs)
          → IsSorted (if b then x ∷ filter p xs else filter p xs)
      go true t = (All-filter (λ y. o.le (key x) (key y) ≡ true) p xs h.0, t)
      go false t = t

  any-insert : (p : A → Bool) (x : A) (xs : List A) → any p (insert x xs) ≡ (p x || any p xs)
  unfolding any insert
  any-insert p x [] = refl
  any-insert p x (y ∷ ys) = ground (arith, any-insert p x ys)

  pub any-sort : (p : A → Bool) (xs : List A) → any p (sort xs) ≡ any p xs
  unfolding any sort
  any-sort p [] = refl
  any-sort p (x ∷ xs) = ground (arith, any-insert p x (sort xs), any-sort p xs)
