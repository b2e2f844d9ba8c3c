-- ===== src/Json/Fields.antt =====
-- Errors as values, and pydantic's check of the fields of a model as an interface.
use hammerhead_bench.Prelude.{
  Bool, List, Option, Text, [], false, if◌then◌else◌, list_eq, lower, map, none, refl, some, true,
  ℕ_eq, ℤ, ◌∷◌, ◌≡◌,
}
use hammerhead_bench.Prelude.Dict.{Dict, get, keys}
use hammerhead_bench.Json.{
  Json, array, as_dict, items_of, members_of, null, number, object, text, truthy,
}

-- The exceptions that the converters and drivers raise.
pub data Error : Type 0 where
  value_error attribute_error type_error validation_error runtime_error : Error

pub data Result {ℓ} (A : Type ℓ) : Type ℓ where
  ok : A → Result A
  raise : Error → Result A

infixl 5 ◌>>=◌
abbrev pub ◌>>=◌ {ℓ κ} : {A : Type ℓ} {B : Type κ} → Result A → (A → Result B) → Result B
ok a >>= f = f a
raise e >>= f = raise e

abbrev pub is_ok {ℓ} : {A : Type ℓ} → Result A → Bool
is_ok (ok a) = true
is_ok (raise e) = false

-- What pydantic makes of a value that stands for a field `int | None` or `str | None`; an error is
-- its `ValidationError`.
pub record Validation : Type 0 where
  pub int_field : Json → Result (Option ℤ)
  pub text_field : Json → Result (Option Text)

-- Values that have the declared type are taken as they are.
pub record IsTyped (v : Validation) : Type 0 where
  pub int_null : v.int_field null ≡ ok none
  pub int_number : (n : ℤ) → v.int_field (number n) ≡ ok (some n)
  pub text_null : v.text_field null ≡ ok none
  pub text_text : (s : Text) → v.text_field (text s) ≡ ok (some s)

-- Validation without any coercion.
abbrev pub strict : Validation
strict = record {
  int_field = λ j. elim j [ null ↦ ok none | number n ↦ ok (some n) | _ ↦ raise validation_error ];
  text_field = λ j. elim j [ null ↦ ok none | text s ↦ ok (some s) | _ ↦ raise validation_error ];
}

pub strict-IsTyped : IsTyped strict
strict-IsTyped = record {
  int_null = refl;
  int_number = λ n. refl;
  text_null = refl;
  text_text = λ s. refl;
}

-- `for x in j`: what a loop over the value visits.
unfoldable pub iterate : Json → Result (List Json)
iterate (array js) = ok (items_of js)
iterate (object ms) = ok (map text (keys (members_of ms)))
iterate (text s) = ok (map (λ c. text (c ∷ [])) s)
iterate _ = raise type_error

-- `for x in d.get(k, [])`
unfoldable pub iterate_key : Text → Dict Text Json → Result (List Json)
unfolding iterate
iterate_key k d = elim (get k d) [ none ↦ ok [] | some j ↦ iterate j ]

-- `(j or "").lower()`
unfoldable pub lowered : Json → Result Text
lowered j = if truthy j then elim j [ text s ↦ ok (lower s) | _ ↦ raise attribute_error ] else ok []

-- `d.get` of what should be a dictionary.
unfoldable pub need_dict : Json → Result (Dict Text Json)
need_dict j = elim (as_dict j) [ none ↦ raise attribute_error | some d ↦ ok d ]

-- A loop that keeps what its body returns; the first error ends it.
unfoldable pub collect {ℓ κ} :
    {A : Type ℓ} {B : Type κ} → (A → Result (Option B)) → List A → Result (List B)
collect f [] = ok []
collect f (a ∷ as') = do b ← f a; bs ← collect f as'; ok (elim b [ none ↦ bs | some x ↦ x ∷ bs ])
