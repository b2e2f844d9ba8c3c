-- ===== src/Convert/Bgp/Complete.antt =====
-- The dictionary of best paths has an entry wherever a block offers a best path.
use mathlib.Core.Path.{subst}
use hammerhead_bench.Prelude.{
  ==_iff, List, Option, Text, [], arith, codes, inl, inr, is_some, list_eq, none, pair_eq, refl,
  some, sym, true, ℕ_eq, ◌==◌, ◌∷◌, ◌≡◌,
}
use hammerhead_bench.Prelude.Dict.{Dict, get, get-put, put}
use hammerhead_bench.Json.{Json, as_dict, as_list, is_json_true, look}
use hammerhead_bench.Json.Fields.{Result, need_dict, ok, raise}
use hammerhead_bench.Fib.{Protocol_eq}
use hammerhead_bench.Convert.Bgp.{Best, best_of_block, best_paths, first_best, vrf_of}
use hammerhead_bench.Convert.Bgp.Laws.{IsBestIn, Offers, Some, best_key}

-- The dictionary has the key.
abbrev pub Has : Text → Text → Best → Type 0
Has vrf prefix best = is_some (get (best_key vrf prefix) best) ≡ true

put-Has :
    (vrf prefix v q : Text) (p : Dict Text Json) (best : Best)
    → Has vrf prefix best
    → Has vrf prefix (put (best_key v q) p best)
put-Has vrf prefix v q p best h =
    ground (arith, get-put (best_key v q) (best_key vrf prefix) p best)

put-Has_same :
    (vrf prefix : Text) (p : Dict Text Json) (best : Best)
    → Has vrf prefix (put (best_key vrf prefix) p best)
put-Has_same vrf prefix p best =
    let same : (best_key vrf prefix == best_key vrf prefix) ≡ true =
      (==_iff (best_key vrf prefix) (best_key vrf prefix)).1 refl in
    ground (arith, get-put (best_key vrf prefix) (best_key vrf prefix) p best)

-- A list with a best path does not end without one.
first_best_found :
    (js : List Json) (p : Dict Text Json) (o : Option (Dict Text Json))
    → Some (λ j. (as_dict j ≡ some p) × (is_json_true (look (codes "bestpath") p) ≡ true)) js
    → first_best js ≡ ok o
    → is_some o ≡ true
unfolding first_best need_dict
first_best_found [] p o s h = absurd s
first_best_found (j ∷ js) p o (inl (d, b)) h = ground arith
first_best_found (j ∷ js) p o (inr s) h = ground (arith, first_best_found js p o s)

best_of_block-Has :
    (v q vrf : Text) (rs : Dict Text Json) (best best' : Best)
    → Has v q best
    → best_of_block vrf rs best ≡ ok best'
    → Has v q best'
unfolding best_of_block
best_of_block-Has v q vrf [] best best' h e = ground arith
best_of_block-Has v q vrf ((name, paths) ∷ rs) best best' h e =
    go (as_list paths) refl (λ b. best_of_block-Has v q vrf rs b best')
  where
    go :
        (l : Option (List Json))
        → as_list paths ≡ l
        → ((b : Best) → Has v q b → best_of_block vrf rs b ≡ ok best' → Has v q best')
        → Has v q best'
    go none l ih = ih best h (ground arith)
    go (some ps) l ih = step (first_best ps) refl ih
      where
        step :
            (o : Result (Option (Dict Text Json)))
            → first_best ps ≡ o
            → ((b : Best) → Has v q b → best_of_block vrf rs b ≡ ok best' → Has v q best')
            → Has v q best'
        step (raise x) o ih' = absurd (ground arith)
        step (ok none) o ih' = ih' best h (ground arith)
        step (ok (some p)) o ih' =
            ih' (put (vrf, name) p best) (put-Has v q vrf name p best h) (ground arith)

best_of_block_found :
    (q vrf : Text) (p : Dict Text Json) (rs : Dict Text Json) (best best' : Best)
    → Some (IsBestIn q p) rs
    → best_of_block vrf rs best ≡ ok best'
    → Has vrf q best'
unfolding best_of_block
best_of_block_found q vrf p [] best best' s e = absurd s
best_of_block_found q vrf p ((name, paths) ∷ rs) best best' s e =
    go (as_list paths) refl s (λ b m. best_of_block_found q vrf p rs b best' m)
  where
    go :
        (l : Option (List Json))
        → as_list paths ≡ l
        → Some (IsBestIn q p) ((name, paths) ∷ rs)
        → ((b : Best)
            → Some (IsBestIn q p) rs
            → best_of_block vrf rs b ≡ ok best'
            → Has vrf q best')
        → Has vrf q best'
    go none l (inl (k, ps, a, m)) ih = absurd (ground arith)
    go none l (inr m) ih = ih best m (ground arith)
    go (some ps) l m ih = step (first_best ps) refl m ih
      where
        step :
            (o : Result (Option (Dict Text Json)))
            → first_best ps ≡ o
            → Some (IsBestIn q p) ((name, paths) ∷ rs)
            → ((b : Best)
                → Some (IsBestIn q p) rs
                → best_of_block vrf rs b ≡ ok best'
                → Has vrf q best')
            → Has vrf q best'
        step (raise x) o m' ih' = absurd (ground arith)
        step (ok none) o (inr m') ih' = ih' best m' (ground arith)
        step (ok (some d)) o (inr m') ih' = ih' (put (vrf, name) d best) m' (ground arith)
        step (ok none) o (inl (k, ps', a, m')) ih' =
            let same : ps' ≡ ps = ground arith in
            absurd (ground (arith, first_best_found ps p none (subst (Some _) same m') o))
        step (ok (some d)) o (inl (k, ps', a, m')) ih' =
            best_of_block-Has vrf q vrf rs (put (vrf, name) d best) best'
              (subst (λ n. Has vrf q (put (vrf, n) d best)) (sym k) (put-Has_same vrf q d best))
              (ground arith)

best_paths-Has :
    (v q : Text) (bs : List (Json × Dict Text Json)) (best best' : Best)
    → Has v q best
    → best_paths bs best ≡ ok best'
    → Has v q best'
unfolding best_paths need_dict
best_paths-Has v q [] best best' h e = ground arith
best_paths-Has v q ((name, block) ∷ bs) best best' h e =
    go (vrf_of name) refl (as_dict (look (codes "routes") block)) refl
      (λ b. best_paths-Has v q bs b best')
  where
    go :
        (w : Result Text)
        → vrf_of name ≡ w
        → (rs : Option (Dict Text Json)) → as_dict (look (codes "routes") block) ≡ rs
        → ((b : Best) → Has v q b → best_paths bs b ≡ ok best' → Has v q best')
        → Has v q best'
    go (raise x) w rs r ih = absurd (ground arith)
    go (ok vrf) w none r ih = absurd (ground arith)
    go (ok vrf) w (some rs) r ih = step (best_of_block vrf rs best) refl ih
      where
        step :
            (o : Result Best)
            → best_of_block vrf rs best ≡ o
            → ((b : Best) → Has v q b → best_paths bs b ≡ ok best' → Has v q best')
            → Has v q best'
        step (raise x) o ih' = absurd (ground arith)
        step (ok next) o ih' = ih' next (best_of_block-Has v q vrf rs best next h o) (ground arith)

-- What a block of the VRF offers is in the dictionary.
pub best_paths_found :
    (v q : Text) (p : Dict Text Json) (bs : List (Json × Dict Text Json)) (best best' : Best)
    → Some (Offers v q p) bs
    → best_paths bs best ≡ ok best'
    → Has v q best'
unfolding best_paths need_dict
best_paths_found v q p [] best best' s e = absurd s
best_paths_found v q p ((name, block) ∷ bs) best best' s e =
    go (vrf_of name) refl (as_dict (look (codes "routes") block)) refl s
      (λ b m. best_paths_found v q p bs b best' m)
  where
    go :
        (w : Result Text)
        → vrf_of name ≡ w
        → (rs : Option (Dict Text Json)) → as_dict (look (codes "routes") block) ≡ rs
        → Some (Offers v q p) ((name, block) ∷ bs)
        → ((b : Best) → Some (Offers v q p) bs → best_paths bs b ≡ ok best' → Has v q best')
        → Has v q best'
    go (raise x) w rs r m ih = absurd (ground arith)
    go (ok vrf) w none r m ih = absurd (ground arith)
    go (ok vrf) w (some rs) r m ih = step (best_of_block vrf rs best) refl m ih
      where
        step :
            (o : Result Best)
            → best_of_block vrf rs best ≡ o
            → Some (Offers v q p) ((name, block) ∷ bs)
            → ((b : Best) → Some (Offers v q p) bs → best_paths bs b ≡ ok best' → Has v q best')
            → Has v q best'
        step (raise x) o m' ih' = absurd (ground arith)
        step (ok next) o (inr m') ih' = ih' next m' (ground arith)
        step (ok next) o (inl (k, rs', a, m')) ih' =
            let vrfs : vrf ≡ v = ground arith in
            let same : rs' ≡ rs = ground arith in
            best_paths-Has v q bs next best'
              (subst (λ n. Has n q next) vrfs
                (best_of_block_found q vrf p rs best next (subst (Some (IsBestIn q p)) same m') o))
              (ground arith)
