-- ===== src/Redaction/Fragments.antt =====
-- Which keys hold a sensitive fragment (redaction.py: `_is_sensitive`).
use ts_api_wrapper.Base.{
  ℕ, ◌+◌, ◌≤◌, String, ◌≡◌, refl, ap, ◌∙◌, Bool, true, Bool-cases, List, [], ◌∷◌, ◌++◌, map, any,
  all, ◌||◌, ◌&&◌, ◌⊎◌, inl, inr, arith, leb, nat_eq, subst,
}
use ts_api_wrapper.Base.Text.{codes, occurs, starts}
use ts_api_wrapper.Redaction.{normal_code, is_sensitive}

-- A character that stands for a lower-case letter or an underscore: itself, its upper case, a dash
-- for the underscore, or the Kelvin sign for "k".
pub data StandsFor : ℕ → ℕ → Type 0 where
  itself : {c : ℕ} → b'a' ≤ c → c ≤ b'z' → StandsFor c c
  upper : {n : ℕ} → b'A' ≤ n → n ≤ b'Z' → StandsFor n (n + 32)
  underscore : StandsFor b'_' b'_'
  dash : StandsFor b'-' b'_'
  kelvin : StandsFor 0x212a b'k'

pub data Spells : List ℕ → List ℕ → Type 0 where
  done : Spells [] []
  more : {n c : ℕ} {ns cs : List ℕ} → StandsFor n c → Spells ns cs → Spells (n ∷ ns) (c ∷ cs)

-- Somewhere in the key this fragment is spelled.
pub record Holds (key fragment : List ℕ) : Type 0 where
  pub before : List ℕ
  pub middle : List ℕ
  pub after : List ℕ
  pub splits : key ≡ before ++ (middle ++ after)
  pub spells : Spells middle fragment

normal_code-StandsFor : {n c : ℕ} → StandsFor n c → normal_code n ≡ c
unfolding normal_code
normal_code-StandsFor (itself {c} p q) = ground (arith, p, q)
normal_code-StandsFor (upper {n} p q) = ground (arith, p, q)
normal_code-StandsFor underscore = refl
normal_code-StandsFor dash = refl
normal_code-StandsFor kelvin = refl

-- Is this a lower-case letter or an underscore?
abbrev is_plain : ℕ → Bool
is_plain c = leb b'a' c && leb c b'z' || nat_eq c b'_'

StandsFor-normal_code :
    (n c : ℕ) → is_plain c ≡ true → nat_eq c (normal_code n) ≡ true → StandsFor n c
unfolding normal_code
StandsFor-normal_code n c p h = elim (Bool-cases (leb b'A' n && leb n b'Z')) [
  | inl e ↦
      let same : n + 32 ≡ c = ground (arith, e, h) in
      subst (StandsFor n) same (upper (ground (arith, e)) (ground (arith, e)))
  | inr e ↦ elim (Bool-cases (nat_eq n b'-')) [
    | inl d ↦
        let at : b'-' ≡ n = ground (arith, d) in
        let same : b'_' ≡ c = ground (arith, e, d, h) in
        subst (λ x. StandsFor x c) at (subst (StandsFor b'-') same dash)
    | inr d ↦ elim (Bool-cases (nat_eq n 0x212a)) [
      | inl k ↦
          let at : 0x212a ≡ n = ground (arith, k) in
          let same : b'k' ≡ c = ground (arith, e, d, k, h) in
          subst (λ x. StandsFor x c) at (subst (StandsFor 0x212a) same kelvin)
      | inr k ↦
          let same : c ≡ n = ground (arith, e, d, k, h) in
          subst (λ x. StandsFor x c) same
            (elim (Bool-cases (nat_eq c b'_')) [
              | inl u ↦
                  let at : b'_' ≡ c = ground (arith, u) in subst (λ x. StandsFor x x) at underscore
              | inr u ↦ itself (ground (arith, p, u)) (ground (arith, p, u))
            ])
    ]
  ]
]

starts-Spells :
    {middle fragment : List ℕ} (after : List ℕ)
    → Spells middle fragment
    → starts fragment (map normal_code (middle ++ after)) ≡ true
starts-Spells after done = refl
starts-Spells after (more {n} {c} {ns} {cs} s rest) =
    let here = normal_code-StandsFor s in
    let there = starts-Spells after rest in ground (arith, here, there)

starts-occurs : (fragment text : List ℕ) → starts fragment text ≡ true → occurs fragment text ≡ true
starts-occurs fragment [] h = h
starts-occurs fragment (n ∷ text) h = rw (h) refl

occurs-Holds :
    (fragment key : List ℕ) → Holds key fragment → occurs fragment (map normal_code key) ≡ true
occurs-Holds fragment key h = ap (λ k. occurs fragment (map normal_code k)) h.splits ∙ go h.before
  where
    go :
        (before : List ℕ)
        → occurs fragment (map normal_code (before ++ (h.middle ++ h.after))) ≡ true
    go [] = starts-occurs fragment _ (starts-Spells h.after h.spells)
    go (n ∷ before) = let rest = go before in ground (arith, rest)

Spells-starts :
    (fragment key : List ℕ)
    → all is_plain fragment ≡ true
    → starts fragment (map normal_code key) ≡ true
    → (middle after : List ℕ) × (key ≡ middle ++ after) × Spells middle fragment
Spells-starts [] key p h = ([], key, refl, done)
Spells-starts (c ∷ cs) [] p h = absurd (cc)
Spells-starts (c ∷ cs) (n ∷ key) p h =
    let (middle, after, e, s) = Spells-starts cs key (ground (arith, p)) (ground (arith, h)) in
    let here = StandsFor-normal_code n c (ground (arith, p)) (ground (arith, h)) in
    (n ∷ middle, after, ap (λ k. n ∷ k) e, more here s)

Holds-occurs :
    (fragment key : List ℕ)
    → all is_plain fragment ≡ true
    → occurs fragment (map normal_code key) ≡ true
    → Holds key fragment
Holds-occurs fragment key p h = go key h
  where
    begins : (text : List ℕ) → starts fragment (map normal_code text) ≡ true → Holds text fragment
    begins text e =
        let (middle, after, splits, spells) = Spells-starts fragment text p e in
        record { before = []; middle = middle; after = after; splits = splits; spells = spells }

    further : (n : ℕ) (text : List ℕ) → Holds text fragment → Holds (n ∷ text) fragment
    further n text r = record {
      before = n ∷ r.before;
      middle = r.middle;
      after = r.after;
      splits = ap (λ k. n ∷ k) r.splits;
      spells = r.spells;
    }

    go : (text : List ℕ) → occurs fragment (map normal_code text) ≡ true → Holds text fragment
    go [] e = begins [] e
    go (n ∷ text) e = elim (Bool-cases (starts fragment (map normal_code (n ∷ text)))) [
      | inl s ↦ begins (n ∷ text) s
      | inr s ↦ further n text (go text (ground (arith, e, s)))
    ]

-- The fragments that mark what is under a key as a secret or as an account.
abbrev pub secret_words : List String
secret_words =
    "access_token" ∷ "accountid" ∷ "account_id" ∷ "authorization" ∷ "client_secret"
    ∷ "orderconfirmid" ∷ "refresh_token" ∷ "token" ∷ []

abbrev pub HoldsOne : List ℕ → List String → Type 0
HoldsOne key [] = ⊥
HoldsOne key (word ∷ words) = Holds key (codes word) ⊎ HoldsOne key words

-- Somewhere in the key one of these words is spelled, in whatever case and with dashes or underscores.
abbrev pub IsSecret : String → Type 0
IsSecret key = HoldsOne (codes key) secret_words

module _ (key : List ℕ) where
  abbrev is_found : String → Bool
  is_found word = occurs (codes word) (map normal_code key)

  any-found : (words : List String) → HoldsOne key words → any is_found words ≡ true
  any-found [] h = absurd h
  any-found (word ∷ words) (inl h) =
      let found = occurs-Holds (codes word) key h in ground (arith, found)
  any-found (word ∷ words) (inr h) = let found = any-found words h in ground (arith, found)

  found-HoldsOne :
      (words : List String)
      → all (λ word. all is_plain (codes word)) words ≡ true
      → any is_found words ≡ true
      → HoldsOne key words
  found-HoldsOne [] p h = absurd (cc)
  found-HoldsOne (word ∷ words) p h = elim (Bool-cases (is_found word)) [
    | inl e ↦ inl (Holds-occurs (codes word) key (ground (arith, p)) e)
    | inr e ↦ inr (found-HoldsOne words (ground (arith, p)) (ground (arith, e, h)))
  ]

pub IsSecret-is_sensitive : (key : String) → IsSecret key → is_sensitive key ≡ true
unfolding is_sensitive
IsSecret-is_sensitive key h = any-found (codes key) secret_words h

pub is_sensitive-IsSecret : (key : String) → is_sensitive key ≡ true → IsSecret key
unfolding is_sensitive
is_sensitive-IsSecret key h = found-HoldsOne (codes key) secret_words refl h
