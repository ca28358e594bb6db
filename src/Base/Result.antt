-- ===== src/Base/Result.antt =====
-- Results of code that may raise: the value, or the exception.
-- The exceptions themselves are a parameter of the type, so that components share the rules below.
use mathlib.Core.Path.{◌≡◌, refl, subst}
use mathlib.Core.Bool.{Bool, true, false}
use mathlib.Core.Logic.{◌⊎◌, ◌↔◌, inl, inr}

pub data Result {ℓ κ} (E : Type κ) (A : Type ℓ) : Type (ℓ ⊔ κ) where
  ok : A → Result E A
  err : E → Result E A

-- `if bad: raise e`
abbrev pub raise_if {μ} : {E : Type μ} → Bool → E → Result E (Unit {0})
raise_if bad e = elim bad [ true ↦ err e | false ↦ ok tt ]

-- What follows a statement that may raise.
infixl 5 ◌>>=◌
abbrev pub ◌>>=◌ {κ μ ℓ} :
    {E : Type κ} {X : Type μ} {Y : Type ℓ} → Result E X → (X → Result E Y) → Result E Y
err raised >>= rest = err raised
ok x >>= rest = rest x

infixl 5 ◌>>◌
abbrev pub ◌>>◌ {κ ℓ} : {E : Type κ} {Y : Type ℓ} → Result E (Unit {0}) → Result E Y → Result E Y
first >> rest = first >>= λ nothing. rest

pub Result-cases {ℓ μ} :
    {E : Type μ} {A : Type ℓ} (r : Result E A) → ((a : A) × (r ≡ ok a)) ⊎ ((e : E) × (r ≡ err e))
Result-cases (ok a) = inl (a, refl)
Result-cases (err e) = inr (e, refl)

-- A bind succeeds only if both its parts do.
pub >>=-eq-ok {κ μ ℓ} :
    {E : Type κ} {X : Type μ} {Y : Type ℓ} (r : Result E X) (rest : X → Result E Y) {y : Y}
    → (r >>= rest) ≡ ok y
    → (x : X) × (r ≡ ok x) × (rest x ≡ ok y)
>>=-eq-ok (err raised) rest e = cc
>>=-eq-ok (ok x) rest e = (x, refl, e)

-- The same, handing the parts on to a proof.
pub bind_elim {ℓ κ μ ν} :
    {E : Type μ} {A : Type ℓ} {B : Type κ} {P : Type ν} (m : Result E A) (f : A → Result E B)
    {b : B}
    → (m >>= f) ≡ ok b
    → ((a : A) → m ≡ ok a → f a ≡ ok b → P)
    → P
bind_elim (ok a) f h k = k a refl h
bind_elim (err e) f h k = absurd (cc)

pub ok-injective {ℓ μ} :
    {E : Type μ} {A : Type ℓ} {a b : A} → ◌≡◌ {A = Result E A} (ok a) (ok b) → a ≡ b
ok-injective h = cc

-- A validator that returns its argument: pydantic's `model_validator(mode="after")`.
unfoldable pub checked {ℓ μ} :
    {E : Type μ} {A : Type ℓ} → (A → Result E (Unit {0})) → A → Result E A
checked validate a = do validate a; ok a

pub checked_sound {ℓ μ} :
    {E : Type μ} {A : Type ℓ} (validate : A → Result E (Unit {0})) (a b : A)
    → checked validate a ≡ ok b
    → (validate b ≡ ok tt) × (a ≡ b)
unfolding checked
checked_sound validate a b h = go (validate a) refl h
  where
    go :
        (r : Result _ (Unit {0}))
        → validate a ≡ r
        → (r >> ok a) ≡ ok b
        → (validate b ≡ ok tt) × (a ≡ b)
    go (ok u) e k = let same = ok-injective k in (subst (λ x. validate x ≡ ok tt) same e, same)
    go (err x) e k = cc

pub >>-eq-ok_iff {ℓ μ} :
    {E : Type μ} {B : Type ℓ} (m : Result E (Unit {0})) (k : Result E B) {b : B}
    → ((m >> k) ≡ ok b) ↔ ((m ≡ ok tt) × (k ≡ ok b))
>>-eq-ok_iff (ok tt) k = (λ h. (refl, h), λ (_, h). h)
>>-eq-ok_iff (err e) k = (λ h. absurd (cc), λ (h, _). absurd (cc))
