-- ===== src/Prelude/Order.antt =====
-- Python's `<=` as an interface: a total order given by a test.
use hammerhead_bench.Prelude.{
  ℕ, ◌≡◌, refl, ◌⊎◌, Bool, true, false, not, ◌&&◌, ◌||◌, [], ◌∷◌, arith, leb, Text,
}

pub record Order {ℓ} (A : Type ℓ) : Type ℓ where
  pub le : A → A → Bool
  pub le_total : (a b : A) → (le a b ≡ true) ⊎ (le b a ≡ true)
  pub le_trans : (a b c : A) → le a b ≡ true → le b c ≡ true → le a c ≡ true
  pub le_antisym : (a b : A) → le a b ≡ true → le b a ≡ true → a ≡ b

pub le_refl {ℓ} : {A : Type ℓ} ⦃o : Order A⦄ (a : A) → o.le a a ≡ true
le_refl ⦃o⦄ a = ground (arith, o.le_total a a)

-- `a < b`
abbrev pub lt {ℓ} : {A : Type ℓ} ⦃o : Order A⦄ → A → A → Bool
lt ⦃o⦄ a b = not (o.le b a)

pub leb_total : (a b : ℕ) → (leb a b ≡ true) ⊎ (leb b a ≡ true)
leb_total a b = ground arith

pub leb_trans : (a b c : ℕ) → leb a b ≡ true → leb b c ≡ true → leb a c ≡ true
leb_trans a b c p q = ground arith

pub leb_antisym : (a b : ℕ) → leb a b ≡ true → leb b a ≡ true → a ≡ b
leb_antisym a b p q = ground arith

instance abbrev pub ℕ_order : Order ℕ
ℕ_order = record { le = leb; le_total = leb_total; le_trans = leb_trans; le_antisym = leb_antisym }

-- The lexicographic order of pairs.
module _ {ℓ κ} {A : Type ℓ} {B : Type κ} ⦃o : Order A⦄ ⦃u : Order B⦄ where
  unfoldable pub pair_le : A × B → A × B → Bool
  pair_le (a, b) (c, d) = o.le a c && (not (o.le c a) || u.le b d)

  pub pair_le_total : (p q : A × B) → (pair_le p q ≡ true) ⊎ (pair_le q p ≡ true)
  unfolding pair_le
  pair_le_total (a, b) (c, d) = ground (arith, o.le_total a c, u.le_total b d)

  pub pair_le_trans : (p q r : A × B) → pair_le p q ≡ true → pair_le q r ≡ true → pair_le p r ≡ true
  unfolding pair_le
  pair_le_trans (a, b) (c, d) (e, f) h k =
      ground (arith, o.le_trans a c e, o.le_trans c e a, o.le_trans e a c, u.le_trans b d f)

  pub pair_le_antisym : (p q : A × B) → pair_le p q ≡ true → pair_le q p ≡ true → p ≡ q
  unfolding pair_le
  pair_le_antisym (a, b) (c, d) h k = ground (arith, o.le_antisym a c, u.le_antisym b d)

instance abbrev pub pair_order {ℓ κ} :
    {A : Type ℓ} {B : Type κ} ⦃o : Order A⦄ ⦃u : Order B⦄ → Order (A × B)
unfolding pair_le
pair_order = record {
  le = pair_le;
  le_total = pair_le_total;
  le_trans = pair_le_trans;
  le_antisym = pair_le_antisym;
}

-- Texts in the order of their code points.
unfoldable pub text_le : Text → Text → Bool
text_le [] t = true
text_le (a ∷ s) [] = false
text_le (a ∷ s) (b ∷ t) = leb a b && (not (leb b a) || text_le s t)

pub text_le_total : (s t : Text) → (text_le s t ≡ true) ⊎ (text_le t s ≡ true)
unfolding text_le
text_le_total [] t = ground arith
text_le_total (a ∷ s) [] = ground arith
text_le_total (a ∷ s) (b ∷ t) = ground (arith, text_le_total s t)

pub text_le_trans : (s t u : Text) → text_le s t ≡ true → text_le t u ≡ true → text_le s u ≡ true
unfolding text_le
text_le_trans [] t u h k = refl
text_le_trans (a ∷ s) [] u h k = ground arith
text_le_trans (a ∷ s) (b ∷ t) [] h k = ground arith
text_le_trans (a ∷ s) (b ∷ t) (c ∷ u) h k = ground (arith, text_le_trans s t u)

pub text_le_antisym : (s t : Text) → text_le s t ≡ true → text_le t s ≡ true → s ≡ t
unfolding text_le
text_le_antisym [] [] h k = refl
text_le_antisym [] (b ∷ t) h k = ground arith
text_le_antisym (a ∷ s) [] h k = ground arith
text_le_antisym (a ∷ s) (b ∷ t) h k = ground (arith, text_le_antisym s t)

instance abbrev pub text_order : Order Text
unfolding text_le
text_order = record {
  le = text_le;
  le_total = text_le_total;
  le_trans = text_le_trans;
  le_antisym = text_le_antisym;
}
