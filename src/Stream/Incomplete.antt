-- ===== src/Stream/Incomplete.antt =====
-- What the test for incomplete text means for the text to come (stream.py: `_looks_incomplete`).
use ts_api_wrapper.Base.{
  ℕ, ◌≡◌, refl, ap, ◌∙◌, Bool, true, false, Option, none, some, List, [], ◌∷◌, ◌++◌, if◌then◌else◌,
}
use ts_api_wrapper.Stream.{
  Bracket, brace, square, Scan, start, step, and_then, scan, verdict, looks_incomplete,
}

and_then-scan :
    (xs ys : List ℕ) (o : Option Scan)
    → ((t : Scan) → scan t (xs ++ ys) ≡ and_then (λ u. scan u ys) (scan t xs))
    → and_then (λ t. scan t (xs ++ ys)) o ≡ and_then (λ u. scan u ys) (and_then (λ t. scan t xs) o)
and_then-scan xs ys none h = refl
and_then-scan xs ys (some t) h = h t

pub scan-append :
    (s : Scan) (xs ys : List ℕ) → scan s (xs ++ ys) ≡ and_then (λ t. scan t ys) (scan s xs)
unfolding scan
scan-append s [] ys = refl
scan-append s (x ∷ xs) ys = and_then-scan xs ys (step s x) (λ t. scan-append t xs ys)

-- The text that closes what is open.
abbrev pub closing_stack : List Bracket → List ℕ
closing_stack [] = []
closing_stack (brace ∷ rest) = b'}' ∷ closing_stack rest
closing_stack (square ∷ rest) = b']' ∷ closing_stack rest

abbrev pub closing_string : Scan → List ℕ
closing_string s = if s.in_string then b'"' ∷ closing_stack s.stack else closing_stack s.stack

abbrev pub closing : Scan → List ℕ
closing s = if s.escaped then b' ' ∷ closing_string s else closing_string s

scan-closing_stack :
    (st : List Bracket)
    → scan (record { stack = st; in_string = false; escaped = false }) (closing_stack st)
      ≡ some start
unfolding scan step
scan-closing_stack [] = refl
scan-closing_stack (brace ∷ rest) = scan-closing_stack rest
scan-closing_stack (square ∷ rest) = scan-closing_stack rest

scan-closing : (s : Scan) → scan s (closing s) ≡ some start
unfolding scan step
scan-closing s = go s.stack s.in_string s.escaped
  where
    go :
        (st : List Bracket) (q e : Bool)
        → let t : Scan = record { stack = st; in_string = q; escaped = e } in
          scan t (closing t) ≡ some start
    go st false false = scan-closing_stack st
    go st true false = scan-closing_stack st
    go st false true = scan-closing_stack st
    go st true true = scan-closing_stack st

-- Text that is held back as incomplete can be completed: there is a continuation after which every
-- bracket and text is closed, and nothing is held back.
pub looks_incomplete_completable :
    (buffer : List ℕ)
    → looks_incomplete buffer ≡ true
    → (more : List ℕ) × (scan start (buffer ++ more) ≡ some start)
      × (looks_incomplete (buffer ++ more) ≡ false)
unfolding looks_incomplete
looks_incomplete_completable buffer h = go (scan start buffer) refl h
  where
    go :
        (o : Option Scan)
        → scan start buffer ≡ o
        → verdict o ≡ true
        → (more : List ℕ) × (scan start (buffer ++ more) ≡ some start)
          × (verdict (scan start (buffer ++ more)) ≡ false)
    go none e k = absurd (cc)
    go (some s) e k =
        let done =
          scan-append start buffer (closing s)
          ∙ ap (and_then (λ t. scan t (closing s))) e
          ∙ scan-closing s in
        (closing s, done, ap verdict done)
