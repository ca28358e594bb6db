-- ===== src/Base/Text.antt =====
-- Python's `str` methods that the program calls, over the native text: `strip`, `rstrip(c)`,
-- `upper`, `replace(c, "")` and `in`.
use Prim.Native.Char.{Char, code}
use Prim.Native.String.{String, [], ◌∷◌}
use mathlib.Core.Bool.{Bool, true, false, ◌&&◌, ◌||◌}
use mathlib.Core.Path.{◌≡◌, refl}
use mathlib.Core.Logic.{inl, inr}
use mathlib.Core.List
use mathlib.Core.List.{List}
use native.Mathlib.Omega.{arith}
use Prim.Native.Nat.{ℕ, ◌-◌}
use ts_api_wrapper.Base.Tests.{leb, nat_eq, if◌then◌else◌, Bool-cases}

-- The code points for which Python's `str.isspace` holds.
abbrev pub is_space_code : ℕ → Bool
is_space_code n =
    (leb 9 n && leb n 13)
    || (leb 28 n && leb n 32)
    || nat_eq n 133
    || nat_eq n 160
    || nat_eq n 5760
    || (leb 8192 n && leb n 8202)
    || nat_eq n 8232
    || nat_eq n 8233
    || nat_eq n 8239
    || nat_eq n 8287
    || nat_eq n 12288

pub is_space : Char → Bool
is_space c = is_space_code (code c)

abbrev pub is_blank : String → Bool
is_blank [] = true
is_blank (c ∷ s) = false

pub lstrip : String → String
lstrip [] = []
lstrip (c ∷ s) = elim (is_space c) [ true ↦ lstrip s | false ↦ c ∷ s ]

-- Dropping from the right: a character goes if it is to go and nothing after it stays.
abbrev dropped : (Char → Bool) → Char → String → String
dropped p c [] = if p c then [] else c ∷ []
dropped p c (d ∷ s) = c ∷ d ∷ s

unfoldable pub rstrip_by : (Char → Bool) → String → String
rstrip_by p [] = []
rstrip_by p (c ∷ s) = dropped p c (rstrip_by p s)

unfoldable pub strip : String → String
unfolding lstrip rstrip_by is_space
strip s = rstrip_by is_space (lstrip s)

abbrev IsLeftClean : String → Type 0
IsLeftClean [] = Unit
IsLeftClean (c ∷ s) = is_space c ≡ false

lstrip-IsLeftClean : (s : String) → IsLeftClean (lstrip s)
unfolding lstrip
lstrip-IsLeftClean [] = tt
lstrip-IsLeftClean (c ∷ s) = ground (arith, lstrip-IsLeftClean s)

lstrip_of_IsLeftClean : (s : String) → IsLeftClean s → lstrip s ≡ s
unfolding lstrip
lstrip_of_IsLeftClean [] h = refl
lstrip_of_IsLeftClean (c ∷ s) h = ground arith

-- What is dropped from the right leaves the first character, if it is to stay.
rstrip-IsLeftClean : (s : String) → IsLeftClean s → IsLeftClean (rstrip_by is_space s)
unfolding rstrip_by
rstrip-IsLeftClean [] h = tt
rstrip-IsLeftClean (c ∷ s) h = go (rstrip_by is_space s)
  where
    go : (t : String) → IsLeftClean (dropped is_space c t)
    go [] = rw h h
    go (d ∷ t) = h

dropped-rstrip :
    (p : Char → Bool) (c : Char) (t : String)
    → rstrip_by p t ≡ t
    → rstrip_by p (dropped p c t) ≡ dropped p c t
unfolding rstrip_by
dropped-rstrip p c [] h = elim (Bool-cases (p c)) [ inl e ↦ rw e | inr e ↦ rw e (rw e) ]
dropped-rstrip p c (d ∷ t) h = rw h refl

pub rstrip_by_idem : (p : Char → Bool) (s : String) → rstrip_by p (rstrip_by p s) ≡ rstrip_by p s
unfolding rstrip_by
rstrip_by_idem p [] = refl
rstrip_by_idem p (c ∷ s) = dropped-rstrip p c (rstrip_by p s) (rstrip_by_idem p s)

-- Stripping a second time changes nothing.
pub strip_idem : (s : String) → strip (strip s) ≡ strip s
unfolding strip
strip_idem s =
    rw
      (lstrip_of_IsLeftClean (rstrip_by is_space (lstrip s))
        (rstrip-IsLeftClean (lstrip s) (lstrip-IsLeftClean s)))
      (rstrip_by_idem is_space (lstrip s))

-- The code points of a text.
abbrev pub codes : String → List ℕ
codes [] = List.[]
codes (c ∷ s) = List.◌∷◌ (code c) (codes s)

abbrev pub eqb_codes : List ℕ → List ℕ → Bool
eqb_codes List.[] List.[] = true
eqb_codes (List.◌∷◌ m s) (List.◌∷◌ n t) = nat_eq m n && eqb_codes s t
eqb_codes _ _ = false

pub eqb_codes_refl : (s : List ℕ) → eqb_codes s s ≡ true
eqb_codes_refl List.[] = refl
eqb_codes_refl (List.◌∷◌ n s) = ground (arith, eqb_codes_refl s)

pub eqb_codes_sound : (s t : List ℕ) → eqb_codes s t ≡ true → s ≡ t
eqb_codes_sound List.[] List.[] h = refl
eqb_codes_sound (List.◌∷◌ m s) (List.◌∷◌ n t) h = ground (arith, eqb_codes_sound s t)
eqb_codes_sound List.[] (List.◌∷◌ n t) h = cc
eqb_codes_sound (List.◌∷◌ m s) List.[] h = cc

abbrev one : ℕ → List ℕ
one n = List.◌∷◌ n List.[]

abbrev two : ℕ → ℕ → List ℕ
two m n = List.◌∷◌ m (one n)

-- `str.upper` of one code point, where the result is ASCII; the results are only compared with
-- ASCII texts, so a character whose upper case is not ASCII may stay as it is.
pub upper_code : ℕ → List ℕ
upper_code n =
    if leb b'a' n && leb n b'z'
    then one (n - 32)
    else if nat_eq n 0xdf
    then two b'S' b'S'
    else if nat_eq n 0x131
    then one b'I'
    else if nat_eq n 0x17f
    then one b'S'
    else if nat_eq n 0xfb00
    then two b'F' b'F'
    else if nat_eq n 0xfb01
    then two b'F' b'I'
    else if nat_eq n 0xfb02
    then two b'F' b'L'
    else if nat_eq n 0xfb03
    then List.◌∷◌ b'F' (two b'F' b'I')
    else if nat_eq n 0xfb04
    then List.◌∷◌ b'F' (two b'F' b'L')
    else if nat_eq n 0xfb05 || nat_eq n 0xfb06
    then two b'S' b'T'
    else one n

unfoldable pub upper : List ℕ → List ℕ
unfolding upper_code
upper List.[] = List.[]
upper (List.◌∷◌ n s) = List.◌++◌ (upper_code n) (upper s)

-- `s.replace(c, "")` for a character.
unfoldable pub without_code : ℕ → List ℕ → List ℕ
without_code n List.[] = List.[]
without_code n (List.◌∷◌ m s) =
    let rest = without_code n s in if nat_eq m n then rest else List.◌∷◌ m rest

-- `fragment in text`, on code points.
abbrev pub starts : List ℕ → List ℕ → Bool
starts List.[] t = true
starts (List.◌∷◌ m s) List.[] = false
starts (List.◌∷◌ m s) (List.◌∷◌ n t) = nat_eq m n && starts s t

abbrev pub occurs : List ℕ → List ℕ → Bool
occurs fragment List.[] = starts fragment List.[]
occurs fragment (List.◌∷◌ n t) = starts fragment (List.◌∷◌ n t) || occurs fragment t
