-- ===== src/Prelude/Dict.antt =====
-- Python's `dict` as the list of its items in the order of insertion, and sets of keys.
use hammerhead_bench.Prelude.{
  ==_comm, ==_iff, ==_refl, All, All-zip, Bool, Eq, List, Option, [], arith, contains, false,
  filter, if◌then◌else◌, is_some, none, not, refl, some, true, ◌++◌, ◌==◌, ◌||◌, ◌∷◌, ◌≡◌,
}

module _ {ℓ} {A : Type ℓ} ⦃e : Eq A⦄ where
  -- No element stands in the list twice.
  abbrev pub Distinct : List A → Type 0
  Distinct [] = Unit
  Distinct (x ∷ xs) = (contains x xs ≡ false) × Distinct xs

  -- `list(dict.fromkeys(xs))`: the first occurrence of each element.
  unfoldable pub dedup : List A → List A
  dedup [] = []
  dedup (x ∷ xs) = x ∷ filter (λ y. not (y == x)) (dedup xs)

  pub contains-filter :
      (p : A → Bool) (a : A) (xs : List A)
      → contains a (filter p xs) ≡ (if p a then contains a xs else false)
  unfolding contains filter
  contains-filter p a [] = ground arith
  contains-filter p a (x ∷ xs) = ground (arith, ==_iff a x, contains-filter p a xs)

  pub contains-append :
      (a : A) (xs ys : List A) → contains a (xs ++ ys) ≡ (contains a xs || contains a ys)
  unfolding contains
  contains-append a [] ys = refl
  contains-append a (x ∷ xs) ys = ground (arith, contains-append a xs ys)

  pub filter-Distinct : (p : A → Bool) (xs : List A) → Distinct xs → Distinct (filter p xs)
  unfolding filter
  filter-Distinct p [] h = tt
  filter-Distinct p (x ∷ xs) h = ground (arith, filter-Distinct p xs h.1, contains-filter p x xs)

  pub append-Distinct :
      (xs ys : List A)
      → Distinct xs
      → Distinct ys
      → ((a : A) → contains a xs ≡ true → contains a ys ≡ false)
      → Distinct (xs ++ ys)
  unfolding contains
  append-Distinct [] ys hx hy d = hy
  append-Distinct (x ∷ xs) ys hx hy d = (
    ground (arith, contains-append x xs ys, hx.0, d x, ==_refl x),
    append-Distinct xs ys hx.1 hy (λ a h. d a (ground arith)),
  )

  pub contains-dedup : (a : A) (xs : List A) → contains a (dedup xs) ≡ contains a xs
  unfolding dedup contains
  contains-dedup a [] = refl
  contains-dedup a (x ∷ xs) =
      ground (arith, contains-dedup a xs, contains-filter (λ y. not (y == x)) a (dedup xs))

  pub dedup-Distinct : (xs : List A) → Distinct (dedup xs)
  unfolding dedup
  dedup-Distinct [] = tt
  dedup-Distinct (x ∷ xs) = (
    ground (arith, contains-filter (λ y. not (y == x)) x (dedup xs), ==_refl x),
    filter-Distinct (λ y. not (y == x)) (dedup xs) (dedup-Distinct xs),
  )

  -- `set(xs) | set(ys)`, for lists without repetition.
  unfoldable pub union : List A → List A → List A
  union xs ys = xs ++ filter (λ y. not (contains y xs)) ys

  pub contains-union :
      (a : A) (xs ys : List A) → contains a (union xs ys) ≡ (contains a xs || contains a ys)
  unfolding union
  contains-union a xs ys = ground (
    arith,
    contains-append a xs (filter (λ y. not (contains y xs)) ys),
    contains-filter (λ y. not (contains y xs)) a ys,
  )

  pub union-Distinct : (xs ys : List A) → Distinct xs → Distinct ys → Distinct (union xs ys)
  unfolding union
  union-Distinct xs ys hx hy =
      append-Distinct xs (filter (λ y. not (contains y xs)) ys) hx
        (filter-Distinct (λ y. not (contains y xs)) ys hy)
        (λ a h. ground (arith, contains-filter (λ y. not (contains y xs)) a ys))

abbrev pub Dict {ℓ κ} : Type ℓ → Type κ → Type (ℓ ⊔ κ)
Dict K V = List (K × V)

module _ {ℓ κ} {K : Type ℓ} {V : Type κ} where
  abbrev pub keys : Dict K V → List K
  keys [] = []
  keys ((k, v) ∷ d) = k ∷ keys d

module _ {ℓ κ} {K : Type ℓ} {V : Type κ} ⦃e : Eq K⦄ where
  -- `d.get(k)`
  unfoldable pub get : K → Dict K V → Option V
  get k [] = none
  get k ((j, v) ∷ d) = if k == j then some v else get k d

  -- `k in d`
  abbrev pub has_key : K → Dict K V → Bool
  has_key k d = is_some (get k d)

  -- `d[k] = v`: an old key keeps its place.
  unfoldable pub put : K → V → Dict K V → Dict K V
  put k v [] = (k, v) ∷ []
  put k v ((j, w) ∷ d) = if k == j then (j, v) ∷ d else (j, w) ∷ put k v d

  pub get-put :
      (k j : K) (v : V) (d : Dict K V) → get j (put k v d) ≡ (if j == k then some v else get j d)
  unfolding get put
  get-put k j v [] = refl
  get-put k j v ((i, w) ∷ d) = ground (arith, ==_iff k i, ==_iff j i, ==_iff j k, get-put k j v d)

  pub contains-keys : (k : K) (d : Dict K V) → contains k (keys d) ≡ has_key k d
  unfolding contains get
  contains-keys k [] = refl
  contains-keys k ((j, v) ∷ d) = ground (arith, contains-keys k d)

  -- A dictionary holds each key once.
  abbrev pub IsDict : Dict K V → Type 0
  IsDict d = Distinct (keys d)

  put-has_key : (k j : K) (v : V) (d : Dict K V) → has_key j (put k v d) ≡ (j == k || has_key j d)
  put-has_key k j v d = ground (arith, get-put k j v d)

  pub put-IsDict : (k : K) (v : V) (d : Dict K V) → IsDict d → IsDict (put k v d)
  unfolding put contains
  put-IsDict k v [] h = ground arith
  put-IsDict k v ((j, w) ∷ d) h = ground (
    arith,
    put-IsDict k v d h.1,
    contains-keys j (put k v d),
    contains-keys j d,
    put-has_key k j v d,
    ==_comm k j,
  )

  keys_ne :
      (k : K) (d : Dict K V)
      → contains k (keys d) ≡ false
      → All (λ (item : K × V). (item.0 == k) ≡ false) d
  unfolding contains
  keys_ne k [] h = tt
  keys_ne k ((j, v) ∷ d) h = (ground (arith, ==_comm j k), keys_ne k d (ground arith))

  -- Each item of a dictionary is what a lookup of its key finds.
  pub get-items : (d : Dict K V) → IsDict d → All (λ (item : K × V). get item.0 d ≡ some item.1) d
  unfolding get
  get-items [] h = tt
  get-items ((k, v) ∷ d) h = (
    ground (arith, ==_refl k),
    All-zip (λ (item : K × V). (item.0 == k) ≡ false) (λ (item : K × V). get item.0 d ≡ some item.1)
        (λ (item : K × V). (if item.0 == k then some v else get item.0 d) ≡ some item.1) d
        (λ item p q. ground arith) (keys_ne k d h.0) (get-items d h.1),
  )
