-- ===== src/Prelude/Groups.antt =====
-- `fibs.setdefault(key, []).append(value)`: a dictionary of the values seen with each key.
use hammerhead_bench.Prelude.{
  ==_iff, Eq, List, [], arith, false, if◌then◌else◌, is_empty, none, not, refl, some, ℕ_eq, ◌++◌,
  ◌==◌, ◌||◌, ◌∷◌, ◌≡◌,
}
use hammerhead_bench.Prelude.Dict.{Dict, IsDict, get, get-put, has_key, put, put-IsDict}

is_empty_snoc {ℓ} : {V : Type ℓ} (vs : List V) (v : V) → is_empty (vs ++ v ∷ []) ≡ false
unfolding is_empty
is_empty_snoc [] v = refl
is_empty_snoc (u ∷ vs) v = refl

module _ {ℓ κ} {K : Type ℓ} {V : Type κ} ⦃e : Eq K⦄ where
  -- `d.get(k, [])`
  unfoldable pub group : K → Dict K (List V) → List V
  group k d = elim (get k d) [ none ↦ [] | some vs ↦ vs ]

  unfoldable pub add_to : K → V → Dict K (List V) → Dict K (List V)
  unfolding group
  add_to k v d = put k (group k d ++ v ∷ []) d

  -- The values that stand beside a key in a list of pairs, in order.
  unfoldable pub values_at : K → List (K × V) → List V
  values_at k [] = []
  values_at k ((j, v) ∷ items) = let rest = values_at k items in if k == j then v ∷ rest else rest

  pub group-add_to :
      (k j : K) (v : V) (d : Dict K (List V))
      → group j (add_to k v d) ≡ (if j == k then group j d ++ v ∷ [] else group j d)
  unfolding add_to
  group-add_to k j v d = ground (arith, get-put k j (group k d ++ v ∷ []) d, ==_iff j k)

  pub add_to-IsDict : (k : K) (v : V) (d : Dict K (List V)) → IsDict d → IsDict (add_to k v d)
  unfolding add_to
  add_to-IsDict k v d h = put-IsDict k (group k d ++ v ∷ []) d h

  -- No key stands beside an empty group.
  abbrev pub NoneEmpty : Dict K (List V) → Type ℓ
  NoneEmpty d = (k : K) → has_key k d ≡ not (is_empty (group k d))

  add_to-has_key :
      (k j : K) (v : V) (d : Dict K (List V)) → has_key j (add_to k v d) ≡ (j == k || has_key j d)
  unfolding add_to
  add_to-has_key k j v d = ground (arith, get-put k j (group k d ++ v ∷ []) d)

  pub add_to-NoneEmpty :
      (k : K) (v : V) (d : Dict K (List V)) → NoneEmpty d → NoneEmpty (add_to k v d)
  add_to-NoneEmpty k v d h j =
      ground (arith, add_to-has_key k j v d, group-add_to k j v d, h j, is_empty_snoc (group j d) v)
