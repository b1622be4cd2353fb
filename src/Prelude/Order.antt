-- ===== src/Prelude/Order.antt =====
-- The comparisons that the templates and the sorts ask of their elements: `<` is a strict total
-- order, `x > y` is `y < x`, and `x == y` holds when neither is below the other.
use mathlib.Core.Path.{◌≡◌}
use mathlib.Core.Bool.{Bool, true, false, not, ◌||◌}
use native.Mathlib.Omega.{arith}

pub record Order {ℓ} (A : Type ℓ) : Type ℓ where
  pub lt : A → A → Bool
  pub irrefl : (a : A) → lt a a ≡ false
  pub trans : (a b c : A) → lt a b ≡ true → lt b c ≡ true → lt a c ≡ true
  pub connected : (a b : A) → lt a b ≡ false → lt b a ≡ false → a ≡ b

module _ {ℓ} {A : Type ℓ} ⦃o : Order A⦄ where
  abbrev pub lt : A → A → Bool
  lt = o.lt

  abbrev pub gt : A → A → Bool
  gt a b = o.lt b a

  abbrev pub eq : A → A → Bool
  eq a b = not (o.lt a b || o.lt b a)

  -- `a` is not below `b`: the order of a descending list.
  abbrev pub Ge : A → A → Type 0
  Ge a b = o.lt a b ≡ false

  pub Ge-refl : (a : A) → Ge a a
  Ge-refl a = o.irrefl a

  pub lt-asymm : (a b : A) → o.lt a b ≡ true → o.lt b a ≡ false
  lt-asymm a b h = ground (arith, o.trans a b a, o.irrefl a)

  pub Ge-trans : (a b c : A) → Ge a b → Ge b c → Ge a c
  Ge-trans a b c p q =
      ground (arith, o.trans a c b, o.trans b a c, o.connected a b, o.connected b c)

  pub lt-Ge-trans : (a b c : A) → o.lt b a ≡ true → Ge b c → o.lt c a ≡ true
  lt-Ge-trans a b c p q = ground (
    arith,
    o.trans a c b,
    o.trans c b a,
    o.connected b c,
    o.irrefl c,
    o.connected c a,
    o.irrefl a,
  )

  pub eq_refl : (a : A) → eq a a ≡ true
  eq_refl a = ground (arith, o.irrefl a)

  pub eq_sound : (a b : A) → eq a b ≡ true → a ≡ b
  eq_sound a b h = o.connected a b (ground arith) (ground arith)
