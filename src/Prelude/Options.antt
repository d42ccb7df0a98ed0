-- ===== src/Prelude/Options.antt =====
-- Chains of results that may be missing, for do blocks.
use mathlib.Core.Path.{◌≡◌, refl, subst}
use mathlib.Core.Option
use mathlib.Core.Option.{Option, none, some}
use mathlib.Core.Bool.{Bool, true, false}
use fmsgd.Prelude.Tests.{if◌then◌else◌}

infixl 5 ◌>>=◌
abbrev pub ◌>>=◌ {ℓ κ} : {A : Type ℓ} {B : Type κ} → Option A → (A → Option B) → Option B
none >>= f = none
some a >>= f = f a

pub >>=-eq-some {ℓ κ} :
    {A : Type ℓ} {B : Type κ} (m : Option A) (f : A → Option B) {b : B}
    → (m >>= f) ≡ some b
    → (a : A) × (m ≡ some a) × (f a ≡ some b)
>>=-eq-some none f h = cc
>>=-eq-some (some a) f h = (a, refl, h)

-- A predicate of the result, when there is one.
pub record Gives {ℓ κ} {A : Type ℓ} (P : A → Type κ) (o : Option A) : Type (ℓ ⊔ κ) where
  pub given : (a : A) → o ≡ some a → P a

module _ {ℓ κ} {A : Type ℓ} {P : A → Type κ} where
  pub none-Gives : Gives P none
  none-Gives = record { given = λ a e. cc }

  pub some-Gives : {a : A} → P a → Gives P (some a)
  some-Gives h = record { given = λ b e. subst P (Option.some-injective _ _ e) h }

  pub if-Gives : (b : Bool) {m n : Option A} → Gives P m → Gives P n → Gives P (if b then m else n)
  if-Gives true gm gn = gm
  if-Gives false gm gn = gn

  pub map-Gives {μ} :
      {Q : A → Type μ} {o : Option A} → ((a : A) → P a → Q a) → Gives P o → Gives Q o
  map-Gives f g = record { given = λ a e. f a (g.given a e) }
