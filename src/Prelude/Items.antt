-- ===== src/Prelude/Items.antt =====
-- Dictionaries that are filtered, merged and compared by their keys.
use mathlib.Core.List.{append-nil, append_assoc}
use mathlib.Core.Path.{subst}
use hammerhead_bench.Prelude.{
  ==_comm, ==_iff, ==_refl, Bool, Bool-cases, Eq, List, Option, [], ap, arith, contains, false,
  filter, if◌then◌else◌, inl, inr, none, not, refl, some, sym, true, ◌++◌, ◌==◌, ◌∙◌, ◌∷◌, ◌≡◌,
}
use hammerhead_bench.Prelude.Dict.{
  Dict, Distinct, IsDict, append-Distinct, contains-append, contains-keys, dedup, get, has_key,
  keys, put,
}

module _ {ℓ} {A : Type ℓ} ⦃e : Eq A⦄ where
  -- `set(xs) & set(ys)`, for lists without repetition.
  unfoldable pub inter : List A → List A → List A
  inter xs ys = filter (λ x. contains x ys) xs

  filter_absent : (x : A) (xs : List A) → contains x xs ≡ false → filter (λ y. not (y == x)) xs ≡ xs
  unfolding filter contains
  filter_absent x [] h = refl
  filter_absent x (y ∷ ys) h = ground (arith, ==_comm x y, filter_absent x ys)

  pub dedup_of_Distinct : (xs : List A) → Distinct xs → dedup xs ≡ xs
  unfolding dedup
  dedup_of_Distinct [] h = refl
  dedup_of_Distinct (x ∷ xs) h =
      rw (dedup_of_Distinct xs h.1) (ap (λ l. x ∷ l) (filter_absent x xs h.0))

module _ {ℓ κ} {K : Type ℓ} {V : Type κ} ⦃e : Eq K⦄ where
  -- `for k, v in items: d[k] = v`
  unfoldable pub put_all : Dict K V → Dict K V → Dict K V
  put_all [] d = d
  put_all ((k, v) ∷ items) d = put_all items (put k v d)

  -- The value of a key, if it passes the test.
  abbrev pub guarded : (K × V → Bool) → K → Option V → Option V
  guarded p k none = none
  guarded p k (some v) = if p (k, v) then some v else none

  has_key-filter :
      (p : K × V → Bool) (k : K) (d : Dict K V)
      → contains k (keys d) ≡ false
      → contains k (keys (filter p d)) ≡ false
  unfolding contains filter
  has_key-filter p k [] h = refl
  has_key-filter p k ((j, v) ∷ d) h = ground (arith, has_key-filter p k d)

  pub filter-IsDict : (p : K × V → Bool) (d : Dict K V) → IsDict d → IsDict (filter p d)
  unfolding filter
  filter-IsDict p [] h = tt
  filter-IsDict p ((j, v) ∷ d) h = ground (arith, has_key-filter p j d h.0, filter-IsDict p d h.1)

  pub get_absent : (k : K) (d : Dict K V) → contains k (keys d) ≡ false → get k d ≡ none
  get_absent k d h = ground (arith, contains-keys k d)

  pub get-filter :
      (p : K × V → Bool) (k : K) (d : Dict K V)
      → IsDict d
      → get k (filter p d) ≡ guarded p k (get k d)
  unfolding get filter
  get-filter p k [] h = refl
  get-filter p k ((j, v) ∷ d) h =
      ground (
        arith,
        get-filter p k d h.1,
        ==_iff k j,
        get_absent j (filter p d),
        has_key-filter p j d h.0,
      )

  -- A key that is not in a dictionary is put at its end.
  put_fresh :
      (k : K) (v : V) (d : Dict K V) → contains k (keys d) ≡ false → put k v d ≡ d ++ (k, v) ∷ []
  unfolding put contains
  put_fresh k v [] h = refl
  put_fresh k v ((j, w) ∷ d) h = ground (arith, put_fresh k v d)

  keys-append : (c d : Dict K V) → keys (c ++ d) ≡ keys c ++ keys d
  keys-append [] d = refl
  keys-append ((k, v) ∷ c) d = ap (λ l. k ∷ l) (keys-append c d)

  abbrev pub IsFresh : Dict K V → Dict K V → Type ℓ
  IsFresh items d = (k : K) → contains k (keys items) ≡ true → contains k (keys d) ≡ false

  fresh_head :
      (k : K) (v : V) (items d : Dict K V)
      → IsFresh ((k, v) ∷ items) d
      → contains k (keys d) ≡ false
  unfolding contains
  fresh_head k v items d f = f k (ground (arith, ==_refl k))

  IsFresh-tail :
      (k : K) (v : V) (items d : Dict K V)
      → IsDict ((k, v) ∷ items)
      → IsFresh ((k, v) ∷ items) d
      → IsFresh items (d ++ (k, v) ∷ [])
  unfolding contains
  IsFresh-tail k v items d h f j m =
      let old : contains j (keys d) ≡ false = f j (ground arith) in
      rw keys-append (ground (arith, contains-append j (keys d) (k ∷ []), ==_iff j k, h.0, old))

  -- Fresh items are put at the end, in their order.
  pub put_all_fresh :
      (items d : Dict K V) → IsDict items → IsFresh items d → put_all items d ≡ d ++ items
  unfolding put_all
  put_all_fresh [] d h f = sym (append-nil d)
  put_all_fresh ((k, v) ∷ items) d h f =
      ap (put_all items) (put_fresh k v d (fresh_head k v items d f))
      ∙ put_all_fresh items (d ++ (k, v) ∷ []) h.1 (IsFresh-tail k v items d h f)
      ∙ append_assoc d ((k, v) ∷ []) items

  pub get-append :
      (k : K) (c d : Dict K V) → get k (c ++ d) ≡ (if has_key k c then get k c else get k d)
  unfolding get
  get-append k [] d = refl
  get-append k ((j, v) ∷ c) d = ground (arith, get-append k c d)

  pub append-IsDict : (c d : Dict K V) → IsDict c → IsDict d → IsFresh d c → IsDict (c ++ d)
  append-IsDict c d hc hd f = subst Distinct (sym (keys-append c d)) (
      append-Distinct (keys c) (keys d) hc hd (λ k m. elim (Bool-cases (contains k (keys d))) [
        | inl there ↦ absurd (ground (arith, f k there))
        | inr away ↦ away
      ]))
