-- ===== src/Pipeline/Sidecar/Laws.antt =====
-- The verdict that the driver of Hammerhead writes is the one that the pipeline reads.
use hammerhead_bench.Prelude.{
  Bool, List, Option, Text, [], ap, arith, codes, false, if◌then◌else◌, is_empty, list_beq, list_eq,
  map, none, refl, some, ℕ_eq, ◌++◌, ◌||◌, ◌∙◌, ◌∷◌, ◌≡◌,
}
use hammerhead_bench.Prelude.Dict.{Dict, get, has_key}
use hammerhead_bench.Json.{
  Json, array, array_of, as_dict, as_list, boolean, items_of-array_of, look, members_of-object_of,
  null, object, object_of, text,
}
use hammerhead_bench.Json.Words.{str_of}
use hammerhead_bench.Pipeline.Coverage.{CoverageVerdict}
use hammerhead_bench.Pipeline.Sidecar.{
  as_boolean, coverage_in, coverage_json, filled_text, holds, read_hammerhead_coverage,
}

-- The fields in front do not have the key.
look_append :
    (k : Text) (d d' : Dict Text Json) → has_key k d ≡ false → look k (d ++ d') ≡ look k d'
unfolding look get
look_append k [] d' h = refl
look_append k ((j, v) ∷ d) d' h = ground (arith, look_append k d d')

str_of_texts : (bs : List Text) → map str_of (map text bs) ≡ bs
unfolding str_of
str_of_texts [] = refl
str_of_texts (b ∷ bs) = ap (λ l. b ∷ l) (str_of_texts bs)

-- The verdict as it is read back: an empty status counts as none.
abbrev pub read_status : Option Text → Option Text
read_status none = none
read_status (some s) = if is_empty s then none else some s

CoverageVerdict-ext :
    (a b : CoverageVerdict)
    → a.status ≡ b.status
    → a.degraded ≡ b.degraded
    → a.blockers ≡ b.blockers
    → a ≡ b
CoverageVerdict-ext a b p q r i = record { status = p i; degraded = q i; blockers = r i }

coverage_in-coverage_json :
    (c : CoverageVerdict)
    → coverage_in (coverage_json c) ≡ record c { status = read_status c.status }
unfolding coverage_in coverage_json look get list_beq as_list
coverage_in-coverage_json c =
    CoverageVerdict-ext _ _ (status c.status) (degraded c.degraded) (blockers c.blockers)
  where
    status :
        (o : Option Text) → filled_text (elim o [ none ↦ null | some s ↦ text s ]) ≡ read_status o
    status none = refl
    status (some s) = refl

    degraded : (o : Option Bool) → as_boolean (elim o [ none ↦ null | some b ↦ boolean b ]) ≡ o
    degraded none = refl
    degraded (some b) = refl

    blockers :
        (o : Option (List Text))
        → elim (as_list (elim o [ none ↦ null | some bs ↦ array (array_of (map text bs)) ])) [
          | none ↦ none
          | some js ↦ some (map str_of js)
        ]
          ≡ o
    blockers none = refl
    blockers (some bs) =
        ap some (ap (map str_of) (items_of-array_of (map text bs)) ∙ str_of_texts bs)

-- None of the other fields is one of the coverage.
abbrev pub has_coverage_key : Dict Text Json → Bool
has_coverage_key d =
    has_key (codes "coverage_status") d
    || (has_key (codes "coverage_degraded") d || has_key (codes "coverage_blockers") d)

coverage_in-append :
    (d : Dict Text Json) (c : CoverageVerdict)
    → has_coverage_key d ≡ false
    → coverage_in (d ++ coverage_json c) ≡ coverage_in (coverage_json c)
unfolding coverage_in
coverage_in-append d c h =
    rw
      (
        look_append (codes "coverage_status") d (coverage_json c) (ground arith),
        look_append (codes "coverage_degraded") d (coverage_json c) (ground arith),
        look_append (codes "coverage_blockers") d (coverage_json c) (ground arith),
      )
      refl

-- Whatever fields the statistics have in front of those of the coverage, the pipeline reads back the
-- verdict that the driver has written, except that an empty status reads as none.
pub read_hammerhead_coverage-coverage_json :
    (d : Dict Text Json) (c : CoverageVerdict)
    → has_coverage_key d ≡ false
    → read_hammerhead_coverage (holds (some (object (object_of (d ++ coverage_json c)))))
      ≡ record c { status = read_status c.status }
unfolding read_hammerhead_coverage as_dict
read_hammerhead_coverage-coverage_json d c h =
    ap coverage_in (members_of-object_of (d ++ coverage_json c))
    ∙ coverage_in-append d c h
    ∙ coverage_in-coverage_json c
