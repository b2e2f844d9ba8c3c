-- ===== src/Convert/Bgp/Laws.antt =====
-- The dictionary of best paths holds nothing but best paths of the blocks.
use mathlib.Core.Path.{subst}
use hammerhead_bench.Prelude.{
  ==_iff, Bool, List, Option, Text, [], arith, codes, false, inl, inr, list_eq, none, pair_eq, refl,
  some, sym, true, ℕ_eq, ◌==◌, ◌∷◌, ◌≡◌, ◌⊎◌,
}
use hammerhead_bench.Prelude.Dict.{Dict, get, get-put, put}
use hammerhead_bench.Json.{Json, as_dict, as_list, is_json_true, look}
use hammerhead_bench.Json.Fields.{Result, need_dict, ok, raise}
use hammerhead_bench.Fib.{Protocol_eq}
use hammerhead_bench.Convert.Bgp.{Best, best_of_block, best_paths, first_best, vrf_of}

-- Some element has the property.
abbrev pub Some {ℓ} : {A : Type ℓ} → (A → Type 0) → List A → Type 0
Some P [] = ⊥
Some P (x ∷ xs) = P x ⊎ Some P xs

-- The path is one of the prefix's, marked as the best.
abbrev pub IsBestIn : Text → Dict Text Json → Text × Json → Type 0
IsBestIn prefix p (name, paths) =
    (name ≡ prefix)
    × (ps : List Json) × (as_list paths ≡ some ps)
    × Some (λ j. (as_dict j ≡ some p) × (is_json_true (look (codes "bestpath") p) ≡ true)) ps

-- The block is one of the VRF and has the path as a best path of the prefix.
abbrev pub Offers : Text → Text → Dict Text Json → Json × Dict Text Json → Type 0
Offers vrf prefix p (name, block) =
    (vrf_of name ≡ ok vrf)
    × (rs : Dict Text Json) × (as_dict (look (codes "routes") block) ≡ some rs)
    × Some (IsBestIn prefix p) rs

first_best-Some :
    (js : List Json) (p : Dict Text Json)
    → first_best js ≡ ok (some p)
    → Some (λ j. (as_dict j ≡ some p) × (is_json_true (look (codes "bestpath") p) ≡ true)) js
unfolding first_best need_dict
first_best-Some [] p h = absurd (ground arith)
first_best-Some (j ∷ js) p h = go (as_dict j) refl (first_best-Some js p)
  where
    go :
        (d : Option (Dict Text Json))
        → as_dict j ≡ d
        → (first_best js ≡ ok (some p)
            → Some
                (λ i. (as_dict i ≡ some p) × (is_json_true (look (codes "bestpath") p) ≡ true))
                js)
        → Some
            (λ i. (as_dict i ≡ some p) × (is_json_true (look (codes "bestpath") p) ≡ true))
            (j ∷ js)
    go none e ih = absurd (ground arith)
    go (some d) e ih = step (is_json_true (look (codes "bestpath") d)) refl ih
      where
        step :
            (b : Bool)
            → is_json_true (look (codes "bestpath") d) ≡ b
            → (first_best js ≡ ok (some p)
                → Some
                    (λ i. (as_dict i ≡ some p) × (is_json_true (look (codes "bestpath") p) ≡ true))
                    js)
            → Some
                (λ i. (as_dict i ≡ some p) × (is_json_true (look (codes "bestpath") p) ≡ true))
                (j ∷ js)
        step true b ih' = let same : d ≡ p = ground arith in inl (ground arith, ground arith)
        step false b ih' = inr (ih' (ground arith))

-- Every entry of the dictionary is accounted for.
abbrev pub Sound : (Text → Text → Dict Text Json → Type 0) → Best → Type 0
Sound S best =
    (vrf prefix : Text) (p : Dict Text Json) → get (vrf, prefix) best ≡ some p → S vrf prefix p

abbrev pub best_key : Text → Text → Text × Text
best_key vrf prefix = (vrf, prefix)

put-Sound :
    (S : Text → Text → Dict Text Json → Type 0) (best : Best) (vrf prefix : Text)
    (p : Dict Text Json)
    → Sound S best
    → S vrf prefix p
    → Sound S (put (vrf, prefix) p best)
put-Sound S best vrf prefix p h s v q p' e = go (best_key v q == best_key vrf prefix) refl
  where
    go : (b : Bool) → (best_key v q == best_key vrf prefix) ≡ b → S v q p'
    go true b =
        let key : best_key v q ≡ best_key vrf prefix =
          (==_iff (best_key v q) (best_key vrf prefix)).0 b in
        let same : p ≡ p' = ground (arith, get-put (vrf, prefix) (v, q) p best) in
        subst (S v q) same (subst (λ (k : Text × Text). S k.0 k.1 p) (sym key) s)
    go false b = h v q p' (ground (arith, get-put (vrf, prefix) (v, q) p best))

best_of_block-Sound :
    (S : Text → Text → Dict Text Json → Type 0) (vrf : Text) (rs : Dict Text Json)
    (best best' : Best)
    → Sound S best
    → ((prefix : Text) (p : Dict Text Json) → Some (IsBestIn prefix p) rs → S vrf prefix p)
    → best_of_block vrf rs best ≡ ok best'
    → Sound S best'
unfolding best_of_block
best_of_block-Sound S vrf [] best best' h s e =
    let same : best ≡ best' = ground arith in subst (Sound S) same h
best_of_block-Sound S vrf ((name, paths) ∷ rs) best best' h s e =
    go (as_list paths) refl
      (λ b h' e'. best_of_block-Sound S vrf rs b best' h' (λ prefix p m. s prefix p (inr m)) e')
  where
    go :
        (l : Option (List Json))
        → as_list paths ≡ l
        → ((b : Best) → Sound S b → best_of_block vrf rs b ≡ ok best' → Sound S best')
        → Sound S best'
    go none q ih = ih best h (ground arith)
    go (some ps) q ih = step (first_best ps) refl ih
      where
        step :
            (o : Result (Option (Dict Text Json)))
            → first_best ps ≡ o
            → ((b : Best) → Sound S b → best_of_block vrf rs b ≡ ok best' → Sound S best')
            → Sound S best'
        step (raise x) o ih' = absurd (ground arith)
        step (ok none) o ih' = ih' best h (ground arith)
        step (ok (some p)) o ih' =
            ih' (put (vrf, name) p best)
              (put-Sound S best vrf name p h (s name p (inl (refl, ps, q, first_best-Some ps p o))))
              (ground arith)

pub best_paths-Sound :
    (S : Text → Text → Dict Text Json → Type 0) (bs : List (Json × Dict Text Json))
    (best best' : Best)
    → Sound S best
    → ((vrf prefix : Text) (p : Dict Text Json) → Some (Offers vrf prefix p) bs → S vrf prefix p)
    → best_paths bs best ≡ ok best'
    → Sound S best'
unfolding best_paths need_dict
best_paths-Sound S [] best best' h s e =
    let same : best ≡ best' = ground arith in subst (Sound S) same h
best_paths-Sound S ((name, block) ∷ bs) best best' h s e =
    go (vrf_of name) refl (as_dict (look (codes "routes") block)) refl
      (λ b h' e'. best_paths-Sound S bs b best' h' (λ vrf prefix p m. s vrf prefix p (inr m)) e')
  where
    go :
        (v : Result Text)
        → vrf_of name ≡ v
        → (rs : Option (Dict Text Json)) → as_dict (look (codes "routes") block) ≡ rs
        → ((b : Best) → Sound S b → best_paths bs b ≡ ok best' → Sound S best')
        → Sound S best'
    go (raise x) v rs r ih = absurd (ground arith)
    go (ok vrf) v none r ih = absurd (ground arith)
    go (ok vrf) v (some rs) r ih = step (best_of_block vrf rs best) refl ih
      where
        step :
            (o : Result Best)
            → best_of_block vrf rs best ≡ o
            → ((b : Best) → Sound S b → best_paths bs b ≡ ok best' → Sound S best')
            → Sound S best'
        step (raise x) o ih' = absurd (ground arith)
        step (ok next) o ih' =
            ih' next
              (best_of_block-Sound S vrf rs best next h
                (λ prefix p m. s vrf prefix p (inl (v, rs, r, m))) o)
              (ground arith)
