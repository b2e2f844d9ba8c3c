-- ===== src/Json/Words.antt =====
-- Python's `str`, `int` and `split` on JSON values, for ASCII text.
use hammerhead_bench.Prelude.{
  Bool, List, Option, Text, [], codes, contains, false, if◌then◌else◌, is_empty, is_space, leb, ltb,
  nat_eq, negsuc, none, not, pos, some, strip, suc, zero, ℕ, ℕ_eq, ℤ, ◌%◌, ◌&&◌, ◌*◌, ◌++◌, ◌+◌,
  ◌-◌, ◌/◌, ◌>>=◌, ◌||◌, ◌∷◌,
}
use mathlib.Core.List.{reverse}
use hammerhead_bench.Json.{
  Items, Json, Members, array, boolean, item, member, no_items, no_members, null, number, object,
  text, truthy,
}

unfoldable pub is_digit : ℕ → Bool
is_digit c = leb 48 c && leb c 57

-- Digits with single underscores between them; `prev` says that the last character was a digit.
unfoldable pub digits_value : Bool → ℕ → Text → Option ℕ
unfolding is_digit
digits_value prev acc [] = if prev then some acc else none
digits_value prev acc (c ∷ s) =
    let digit = is_digit c in
    let rest = digits_value digit (if digit then acc * 10 + (c - 48) else acc) s in
    if digit || (nat_eq c 95 && prev) then rest else none

unfoldable pub negate : ℕ → ℤ
negate n = elim n [ zero ↦ pos 0 | suc m ↦ negsuc m ]

-- `int(s)`; `none` is the `ValueError`.
unfoldable pub int_of_text : Text → Option ℤ
unfolding digits_value negate
int_of_text s = signed (strip s)
  where
    signed : Text → Option ℤ
    signed [] = none
    signed (c ∷ s) =
        if nat_eq c 45
        then (do n ← digits_value false 0 s; some (negate n))
        else if nat_eq c 43
        then (do n ← digits_value false 0 s; some (pos n))
        else (do n ← digits_value false 0 (c ∷ s); some (pos n))

-- `int(j)`; `none` is the `TypeError` or `ValueError`.
unfoldable pub int_of : Json → Option ℤ
unfolding int_of_text
int_of (boolean b) = some (pos (if b then 1 else 0))
int_of (number n) = some n
int_of (text s) = int_of_text s
int_of _ = none

-- `s.split()`: the words between white space. `word` is the current one, last character first.
unfoldable pub words_from : Text → Text → List Text
words_from word [] = if is_empty word then [] else reverse word ∷ []
words_from word (c ∷ s) =
    let rest = words_from (if is_space c then [] else c ∷ word) s in
    if is_space c && not (is_empty word) then reverse word ∷ rest else rest

unfoldable pub split : Text → List Text
unfolding words_from
split s = words_from [] s

-- The integers among the words; the other words are passed over.
unfoldable pub ints_of : List Text → List ℤ
unfolding int_of_text
ints_of [] = []
ints_of (w ∷ ws) = let rest = ints_of ws in elim (int_of_text w) [ none ↦ rest | some n ↦ n ∷ rest ]

-- Decimal digits. The fuel is the number itself: each step divides it by ten.
decimal_from : ℕ → ℕ → Text
decimal_from zero n = (48 + n) ∷ []
decimal_from (suc fuel) n =
    let rest = decimal_from fuel (n / 10) in
    if ltb n 10 then (48 + n) ∷ [] else rest ++ (48 + n % 10) ∷ []

decimal : ℤ → Text
unfolding decimal_from
decimal (pos n) = decimal_from n n
decimal (negsuc n) = 45 ∷ decimal_from (suc n) (suc n)

escape : ℕ → Text → Text
escape quote [] = []
escape quote (c ∷ s) =
    let rest = escape quote s in
    if nat_eq c quote || nat_eq c 92
    then 92 ∷ c ∷ rest
    else if nat_eq c 10
    then 92 ∷ 110 ∷ rest
    else if nat_eq c 13
    then 92 ∷ 114 ∷ rest
    else if nat_eq c 9
    then 92 ∷ 116 ∷ rest
    else c ∷ rest

-- `repr(s)`, for text whose other characters are printable.
quoted : Text → Text
unfolding escape
quoted s =
    let quote = if contains 39 s && not (contains 34 s) then 34 else 39 in
    quote ∷ escape quote s ++ quote ∷ []

mutual
  unfolding decimal quoted

  repr : Json → Text
  repr null = codes "None"
  repr (boolean b) = if b then codes "True" else codes "False"
  repr (number n) = decimal n
  repr (text s) = quoted s
  repr (array js) = codes "[" ++ repr_items js ++ codes "]"
  repr (object ms) = codes "{" ++ repr_members ms ++ codes "}"

  repr_items : Items → Text
  repr_items no_items = []
  repr_items (item j no_items) = repr j
  repr_items (item j (item k js)) = repr j ++ codes ", " ++ repr_items (item k js)

  repr_members : Members → Text
  repr_members no_members = []
  repr_members (member k j no_members) = quoted k ++ codes ": " ++ repr j
  repr_members (member k j (member l i ms)) =
      quoted k ++ codes ": " ++ repr j ++ codes ", " ++ repr_members (member l i ms)

-- `str(j)`
unfoldable pub str_of : Json → Text
unfolding repr
str_of j = elim j [ text s ↦ s | other ↦ repr other ]

-- `str(j or "")`
unfoldable pub str_or_empty : Json → Text
unfolding str_of
str_or_empty j = if truthy j then str_of j else []
