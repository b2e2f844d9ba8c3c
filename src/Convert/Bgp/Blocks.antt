-- ===== src/Convert/Bgp/Blocks.antt =====
-- The blocks of `_walk_bgp_blocks`, described by where they stand in the document.
use mathlib.Core.Path.{subst}
use hammerhead_bench.Prelude.{
  Bool, List, Option, Text, [], arith, codes, false, if◌then◌else◌, inl, inr, list_eq, none,
  pair_eq, refl, some, true, ℕ_eq, ◌↔◌, ◌∷◌, ◌≡◌, ◌⊎◌,
}
use hammerhead_bench.Prelude.Dict.{Dict, has_key}
use hammerhead_bench.Json.{Json, as_dict, text}
use hammerhead_bench.Convert.Bgp.{look_or, nested_blocks, walk_bgp_blocks}
use hammerhead_bench.Convert.Bgp.Laws.{Offers, Some}

-- The block under a key offers the path: it has routes, and its VRF is its `vrfName`, or else the key.
abbrev pub OffersUnder : Text → Text → Dict Text Json → Text × Json → Type 0
OffersUnder vrf prefix p (key, j) =
    (block : Dict Text Json) × (as_dict j ≡ some block)
    × (has_key (codes "routes") block ≡ true)
    × Offers vrf prefix p (look_or (codes "vrfName") block (text key), block)

-- The document offers the path as a best path of the VRF and prefix: it is a block itself, by the name
-- "default" unless it has another, or one of its values is a block that offers it.
abbrev pub IsOffered : Json → Text → Text → Dict Text Json → Type 0
IsOffered bgp_json vrf prefix p =
    (d : Dict Text Json) × (as_dict bgp_json ≡ some d)
    × (((has_key (codes "routes") d ≡ true)
          × Offers vrf prefix p (look_or (codes "vrfName") d (text (codes "default")), d))
        ⊎ ((has_key (codes "routes") d ≡ false) × Some (OffersUnder vrf prefix p) d))

nested_blocks-OffersUnder :
    (vrf prefix : Text) (p : Dict Text Json) (d : Dict Text Json)
    → Some (Offers vrf prefix p) (nested_blocks d) ↔ Some (OffersUnder vrf prefix p) d
unfolding nested_blocks
nested_blocks-OffersUnder vrf prefix p [] = (λ m. m, λ m. m)
nested_blocks-OffersUnder vrf prefix p ((k, j) ∷ d) =
    go (as_dict j) refl (nested_blocks-OffersUnder vrf prefix p d)
  where
    go :
        (o : Option (Dict Text Json))
        → as_dict j ≡ o
        → (Some (Offers vrf prefix p) (nested_blocks d) ↔ Some (OffersUnder vrf prefix p) d)
        → Some (Offers vrf prefix p) (elim o [
          | none ↦ nested_blocks d
          | some v ↦
              if has_key (codes "routes") v
              then (look_or (codes "vrfName") v (text k), v) ∷ nested_blocks d
              else nested_blocks d
        ])
          ↔ Some (OffersUnder vrf prefix p) ((k, j) ∷ d)
    go none e ih = (
      λ m. inr (ih.0 m),
      λ m. elim m [ inl (b, e', h, s) ↦ absurd (ground arith) | inr s ↦ ih.1 s ],
    )
    go (some v) e ih = step (has_key (codes "routes") v) refl
      where
        step :
            (b : Bool)
            → has_key (codes "routes") v ≡ b
            → Some (Offers vrf prefix p) (
                if b
                then (look_or (codes "vrfName") v (text k), v) ∷ nested_blocks d
                else nested_blocks d)
              ↔ Some (OffersUnder vrf prefix p) ((k, j) ∷ d)
        step true h = (
          λ m. elim m [ inl s ↦ inl (v, e, h, s) | inr s ↦ inr (ih.0 s) ],
          λ m. elim m [
            | inl (b, e', h', s) ↦
                let same : b ≡ v = ground arith in
                inl (
                  subst (λ w. Offers vrf prefix p (look_or (codes "vrfName") w (text k), w)) same s)
            | inr s ↦ inr (ih.1 s)
          ],
        )
        step false h = (
          λ m. inr (ih.0 m),
          λ m. elim m [
            | inl (b, e', h', s) ↦ let same : b ≡ v = ground arith in absurd (cc (h, h', same))
            | inr s ↦ ih.1 s
          ],
        )

pub walk_bgp_blocks-IsOffered :
    (bgp_json : Json) (vrf prefix : Text) (p : Dict Text Json)
    → Some (Offers vrf prefix p) (walk_bgp_blocks bgp_json) ↔ IsOffered bgp_json vrf prefix p
unfolding walk_bgp_blocks
walk_bgp_blocks-IsOffered bgp_json vrf prefix p = go (as_dict bgp_json) refl
  where
    walked : Option (Dict Text Json) → List (Json × Dict Text Json)
    walked o = elim o [
      | none ↦ []
      | some d ↦
          if has_key (codes "routes") d
          then (look_or (codes "vrfName") d (text (codes "default")), d) ∷ []
          else nested_blocks d
    ]

    go :
        (o : Option (Dict Text Json))
        → as_dict bgp_json ≡ o
        → Some (Offers vrf prefix p) (walked o) ↔ IsOffered bgp_json vrf prefix p
    go none e = (λ m. absurd m, λ (d, e', s). absurd (cc (e, e')))
    go (some d) e = step (has_key (codes "routes") d) refl
      where
        step :
            (b : Bool)
            → has_key (codes "routes") d ≡ b
            → Some (Offers vrf prefix p) (
                if b
                then (look_or (codes "vrfName") d (text (codes "default")), d) ∷ []
                else nested_blocks d)
              ↔ IsOffered bgp_json vrf prefix p
        step true h = (
          λ m. elim m [ inl s ↦ (d, e, inl (h, s)) | inr s ↦ absurd s ],
          λ (d', e', m).
              let same : d' ≡ d = ground arith in
              elim m [
                | inl (h', s) ↦ inl (
                    subst
                      (λ w.
                        Offers vrf prefix p
                          (look_or (codes "vrfName") w (text (codes "default")), w))
                      same s)
                | inr (h', s) ↦ absurd (cc (h, h', same))
              ],
        )
        step false h = (
          λ m. (d, e, inr (h, (nested_blocks-OffersUnder vrf prefix p d).0 m)),
          λ (d', e', m).
              let same : d' ≡ d = ground arith in
              elim m [
                | inl (h', s) ↦ absurd (cc (h, h', same))
                | inr (h', s) ↦
                    (nested_blocks-OffersUnder vrf prefix p d).1
                      (subst (λ w. Some (OffersUnder vrf prefix p) w) same s)
              ],
        )
