-- ===== src/Stream/Nested.antt =====
-- The test for incomplete text against the grammar of nested texts (stream.py: `_looks_incomplete`).
use ts_api_wrapper.Base.{
  ℕ, ◌≡◌, ◌≢◌, refl, ap, ◌∙◌, Bool, true, false, none, some, List, [], ◌∷◌, ◌++◌, arith,
}
use ts_api_wrapper.Stream.{
  Bracket, brace, square, Scan, start, step, and_then, scan, verdict, looks_incomplete,
}
use ts_api_wrapper.Stream.Incomplete.{scan-append}

abbrev pub opener : Bracket → ℕ
opener brace = b'{'
opener square = b'['

abbrev pub closer : Bracket → ℕ
closer brace = b'}'
closer square = b']'

-- What stands between the quotes of a JSON text: a character after a backslash may be any.
pub data IsTextBody : List ℕ → Type 0 where
  empty : IsTextBody []
  plain : {c : ℕ} {cs : List ℕ} → c ≢ b'"' → c ≢ b'\\' → IsTextBody cs → IsTextBody (c ∷ cs)
  escape : {c : ℕ} {cs : List ℕ} → IsTextBody cs → IsTextBody (b'\\' ∷ c ∷ cs)

-- A character that is no quote, no backslash and no bracket.
abbrev pub IsOther : ℕ → Type 0
IsOther c = (c ≢ b'"') × (c ≢ b'\\') × (c ≢ b'{') × (c ≢ b'}') × (c ≢ b'[') × (c ≢ b']')

-- A text whose brackets and JSON texts are closed and properly nested.
pub data IsNested : List ℕ → Type 0 where
  empty : IsNested []
  other : {c : ℕ} {cs : List ℕ} → IsOther c → IsNested cs → IsNested (c ∷ cs)
  quoted :
      {body cs : List ℕ} → IsTextBody body → IsNested cs → IsNested (b'"' ∷ (body ++ (b'"' ∷ cs)))
  bracketed :
      (b : Bracket) {inner cs : List ℕ}
      → IsNested inner
      → IsNested cs
      → IsNested (opener b ∷ (inner ++ (closer b ∷ cs)))

-- A nested text after which these brackets are open, the innermost first.
pub data IsOpened : List Bracket → List ℕ → Type 0 where
  closed : {cs : List ℕ} → IsNested cs → IsOpened [] cs
  opening :
      (b : Bracket) {st : List Bracket} {before inner : List ℕ}
      → IsOpened st before
      → IsNested inner
      → IsOpened (b ∷ st) (before ++ (opener b ∷ inner))

-- A text, and whether it is cut off: it is inside a bracket or a JSON text, and it is not if it is
-- nested, or has a closing bracket that does not close the innermost open one.
pub data IsCut : List ℕ → Bool → Type 0 where
  in_bracket :
      {b : Bracket} {st : List Bracket} {cs : List ℕ} → IsOpened (b ∷ st) cs → IsCut cs true
  in_text :
      {st : List Bracket} {before body : List ℕ}
      → IsOpened st before
      → IsTextBody body
      → IsCut (before ++ (b'"' ∷ body)) true
  in_escape :
      {st : List Bracket} {before body : List ℕ}
      → IsOpened st before
      → IsTextBody body
      → IsCut (before ++ (b'"' ∷ (body ++ (b'\\' ∷ [])))) true
  complete : {cs : List ℕ} → IsNested cs → IsCut cs false
  mismatch :
      {b c : Bracket} {st : List Bracket} {before : List ℕ} (after : List ℕ)
      → IsOpened (b ∷ st) before
      → b ≢ c
      → IsCut (before ++ (closer c ∷ after)) false
  stray :
      (c : Bracket) {before : List ℕ} (after : List ℕ)
      → IsNested before
      → IsCut (before ++ (closer c ∷ after)) false

-- The scan with these brackets open, outside a JSON text and inside one.
abbrev outside : List Bracket → Scan
outside st = record { stack = st; in_string = false; escaped = false }

abbrev within : List Bracket → Scan
within st = record { stack = st; in_string = true; escaped = false }

scan-then :
    (s : Scan) {t : Scan} (xs ys : List ℕ) → scan s xs ≡ some t → scan s (xs ++ ys) ≡ scan t ys
scan-then s {t} xs ys e = scan-append s xs ys ∙ ap (and_then (λ u. scan u ys)) e

step-body :
    (st : List Bracket) (c : ℕ) → c ≢ b'"' → c ≢ b'\\' → step (within st) c ≡ some (within st)
unfolding step
step-body st c q e = ground (arith, q, e)

step-other : (st : List Bracket) (c : ℕ) → IsOther c → step (outside st) c ≡ some (outside st)
unfolding step
step-other st c (q, e, a, b, d, f) = ground (arith, q, e, a, b, d, f)

scan-escape :
    (st : List Bracket) (c : ℕ) (cs : List ℕ)
    → scan (within st) (b'\\' ∷ c ∷ cs) ≡ scan (within st) cs
unfolding scan step
scan-escape st c cs = refl

-- A JSON text that ends after a backslash is still open.
dangling : (st : List Bracket) → verdict (scan (within st) (b'\\' ∷ [])) ≡ true
unfolding scan step
dangling st = refl

scan-body :
    (st : List Bracket) {cs : List ℕ} → IsTextBody cs → scan (within st) cs ≡ some (within st)
unfolding scan
scan-body st empty = refl
scan-body st (plain {c} {cs} q e rest) =
    ap (and_then (λ t. scan t cs)) (step-body st c q e) ∙ scan-body st rest
scan-body st (escape {c} {cs} rest) = scan-escape st c cs ∙ scan-body st rest

scan-quote :
    (st : List Bracket) (cs : List ℕ)
    → (scan (outside st) (b'"' ∷ cs) ≡ scan (within st) cs)
      × (scan (within st) (b'"' ∷ cs) ≡ scan (outside st) cs)
unfolding scan step
scan-quote st cs = (refl, refl)

scan-opener :
    (st : List Bracket) (b : Bracket) (cs : List ℕ)
    → scan (outside st) (opener b ∷ cs) ≡ scan (outside (b ∷ st)) cs
unfolding scan step
scan-opener st brace cs = refl
scan-opener st square cs = refl

scan-closer :
    (st : List Bracket) (b : Bracket) (cs : List ℕ)
    → scan (outside (b ∷ st)) (closer b ∷ cs) ≡ scan (outside st) cs
unfolding scan step
scan-closer st brace cs = refl
scan-closer st square cs = refl

-- A closing bracket that does not close what is open ends the scan.
scan-mismatch :
    (st : List Bracket) (b c : Bracket) (cs : List ℕ)
    → b ≢ c
    → scan (outside (b ∷ st)) (closer c ∷ cs) ≡ none
unfolding scan step
scan-mismatch st brace brace cs n = absurd (n refl)
scan-mismatch st brace square cs n = refl
scan-mismatch st square brace cs n = refl
scan-mismatch st square square cs n = absurd (n refl)

scan-stray : (c : Bracket) (cs : List ℕ) → scan (outside []) (closer c ∷ cs) ≡ none
unfolding scan step
scan-stray brace cs = refl
scan-stray square cs = refl

-- A nested text leaves the scan where it was.
scan-nested :
    (st : List Bracket) {cs : List ℕ} → IsNested cs → scan (outside st) cs ≡ some (outside st)
unfolding scan
scan-nested st empty = refl
scan-nested st (other {c} {cs} o rest) =
    ap (and_then (λ t. scan t cs)) (step-other st c o) ∙ scan-nested st rest
scan-nested st (quoted {body} {cs} q rest) =
    (scan-quote st (body ++ (b'"' ∷ cs))).0
    ∙ scan-then (within st) body (b'"' ∷ cs) (scan-body st q)
    ∙ (scan-quote st cs).1
    ∙ scan-nested st rest
scan-nested st (bracketed b {inner} {cs} i rest) =
    scan-opener st b (inner ++ (closer b ∷ cs))
    ∙ scan-then (outside (b ∷ st)) inner (closer b ∷ cs) (scan-nested (b ∷ st) i)
    ∙ scan-closer st b cs
    ∙ scan-nested st rest

scan-opened : {st : List Bracket} {cs : List ℕ} → IsOpened st cs → scan start cs ≡ some (outside st)
scan-opened (closed n) = scan-nested [] n
scan-opened (opening b {st} {before} {inner} o n) =
    scan-then start before (opener b ∷ inner) (scan-opened o)
    ∙ scan-opener st b inner
    ∙ scan-nested (b ∷ st) n

-- A text that is cut off inside a bracket or a JSON text, be it after a backslash, is held back as
-- incomplete. A text that is closed and properly nested is not, nor is one that has a closing bracket
-- that does not close the innermost open one, whatever follows it.
pub looks_incomplete-IsCut :
    (buffer : List ℕ) (cut : Bool) → IsCut buffer cut → looks_incomplete buffer ≡ cut
unfolding looks_incomplete
looks_incomplete-IsCut buffer cut (in_bracket o) = ap verdict (scan-opened o)
looks_incomplete-IsCut buffer cut (in_text {st} {before} {body} o q) =
    ap verdict (
      scan-then start before (b'"' ∷ body) (scan-opened o)
      ∙ (scan-quote st body).0
      ∙ scan-body st q)
looks_incomplete-IsCut buffer cut (in_escape {st} {before} {body} o q) =
    ap verdict (
      scan-then start before (b'"' ∷ (body ++ (b'\\' ∷ []))) (scan-opened o)
      ∙ (scan-quote st (body ++ (b'\\' ∷ []))).0
      ∙ scan-then (within st) body (b'\\' ∷ []) (scan-body st q))
    ∙ dangling st
looks_incomplete-IsCut buffer cut (complete n) = ap verdict (scan-nested [] n)
looks_incomplete-IsCut buffer cut (mismatch {b} {c} {st} {before} after o n) =
    ap verdict
      (scan-then start before (closer c ∷ after) (scan-opened o) ∙ scan-mismatch st b c after n)
looks_incomplete-IsCut buffer cut (stray c {before} after n) =
    ap verdict (scan-then start before (closer c ∷ after) (scan-nested [] n) ∙ scan-stray c after)
