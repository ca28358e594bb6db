-- ===== src/Stream/Blanks.antt =====
-- Blanks before a text (stream.py: `self._buffer.lstrip()`).
use ts_api_wrapper.Base.{
  ℕ, ◌≤◌, ◌≡◌, refl, subst, Bool, true, false, List, [], ◌∷◌, ◌++◌, length, arith, if◌then◌else◌,
}
use ts_api_wrapper.Base.Text.{is_space_code}
use ts_api_wrapper.Stream.Parser.{lstrip_codes}

pub lstrip_codes-length : (b : List ℕ) → length (lstrip_codes b) ≤ length b
unfolding lstrip_codes
lstrip_codes-length [] = omega arith
lstrip_codes-length (c ∷ b) = ground (arith, lstrip_codes-length b)

pub lstrip_codes-blank :
    (b t : List ℕ) → lstrip_codes b ≡ [] → lstrip_codes (b ++ t) ≡ lstrip_codes t
unfolding lstrip_codes
lstrip_codes-blank [] t h = refl
lstrip_codes-blank (c ∷ b) t h = ground (arith, lstrip_codes-blank b t)

pub lstrip_codes-append :
    (b t : List ℕ) (c : ℕ) (cs : List ℕ)
    → lstrip_codes b ≡ c ∷ cs
    → lstrip_codes (b ++ t) ≡ c ∷ (cs ++ t)
unfolding lstrip_codes
lstrip_codes-append [] t c cs h = absurd (cc)
lstrip_codes-append (d ∷ b) t c cs h = ground (arith, lstrip_codes-append b t c cs)

head_of :
    (x : Bool) (d c : ℕ) (rest b cs : List ℕ)
    → is_space_code d ≡ x
    → (if x then rest else d ∷ b) ≡ c ∷ cs
    → (rest ≡ c ∷ cs → is_space_code c ≡ false)
    → is_space_code c ≡ false
head_of true d c rest b cs e k h = h k
head_of false d c rest b cs e k h =
    let same : d ≡ c = cc in subst (λ y. is_space_code y ≡ false) same e

-- What is left begins with no blank.
pub lstrip_codes-head :
    (b : List ℕ) (c : ℕ) (cs : List ℕ) → lstrip_codes b ≡ c ∷ cs → is_space_code c ≡ false
unfolding lstrip_codes
lstrip_codes-head [] c cs h = absurd (cc)
lstrip_codes-head (d ∷ b) c cs h =
    head_of (is_space_code d) d c (lstrip_codes b) b cs refl h (lstrip_codes-head b c cs)

pub lstrip_codes-again :
    (b t : List ℕ) (c : ℕ) (cs : List ℕ)
    → lstrip_codes b ≡ c ∷ cs
    → lstrip_codes (c ∷ (cs ++ t)) ≡ c ∷ (cs ++ t)
unfolding lstrip_codes
lstrip_codes-again b t c cs h = rw (lstrip_codes-head b c cs h) refl
