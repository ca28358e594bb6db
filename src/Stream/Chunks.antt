-- ===== src/Stream/Chunks.antt =====
-- What it means for the messages how a text is cut into chunks (stream.py: `JsonStreamParser.feed`).
use ts_api_wrapper.Base.{
  ℕ, zero, suc, ◌+◌, ◌<◌, ◌≡◌, refl, ap, sym, subst, ◌∙◌, Bool, true, false, Option, none, some,
  List, [], ◌∷◌, ◌++◌, length, length-append, append_assoc, arith, is_some, if◌then◌else◌, ◌⊎◌, inl,
  inr,
}
use ts_api_wrapper.Base.Result.{ok, err}
use ts_api_wrapper.Errors.{Error, stream_parse_error}
use ts_api_wrapper.Json.{Json, Fields, obj}
use ts_api_wrapper.Stream.{looks_incomplete}
use ts_api_wrapper.Stream.Parser.{
  lstrip_codes, Parsed, prepend, decoded, parse_stripped, parse_buffer, feed,
}
use ts_api_wrapper.Stream.Blanks.{
  lstrip_codes-length, lstrip_codes-blank, lstrip_codes-append, lstrip_codes-again,
}
use ts_api_wrapper.Stream.Fuel.{IsDecoder, parse_stable, parse_stripped_alike, parse_ends}

prepend-nil : (p : Parsed) → prepend [] p ≡ p
prepend-nil none = refl
prepend-nil (some (err x)) = refl
prepend-nil (some (ok (ms, rest))) = refl

prepend-cons :
    (m : Fields) (ms : List Fields) (p : Parsed)
    → prepend (m ∷ []) (prepend ms p) ≡ prepend (m ∷ ms) p
prepend-cons m ms none = refl
prepend-cons m ms (some (err x)) = refl
prepend-cons m ms (some (ok (ns, rest))) = refl

-- A result with one message in front comes from a result.
prepend-eq-ok :
    (m : Fields) (p : Parsed) (ms : List Fields) (rest : List ℕ)
    → prepend (m ∷ []) p ≡ some (ok (ms, rest))
    → (ns : List Fields) × (p ≡ some (ok (ns, rest))) × (ms ≡ m ∷ ns)
prepend-eq-ok m none ms rest h = absurd (cc)
prepend-eq-ok m (some (err x)) ms rest h = absurd (cc)
prepend-eq-ok m (some (ok (ns, r))) ms rest h =
    let same : r ≡ rest = cc in
    let front : ms ≡ m ∷ ns = cc in (ns, ap (λ x. some (ok (ns, x))) same, front)

module _ (raw_decode : List ℕ → Option (Json × List ℕ)) (law : IsDecoder raw_decode) where
  abbrev parse : ℕ → List ℕ → Parsed
  parse = parse_buffer raw_decode

  -- The parse of a longer text, from the result of its beginning.
  abbrev Continues : ℕ → List ℕ → List ℕ → Parsed → Type 0
  Continues m whole t p =
      (ms : List Fields) (rest : List ℕ) (k : ℕ)
      → p ≡ some (ok (ms, rest))
      → length (rest ++ t) < k
      → parse m whole ≡ prepend ms (parse k (rest ++ t))

  -- The text is held back as it is, but for blanks.
  held_back :
      (m : ℕ) (whole held t : List ℕ)
      → length whole < m
      → lstrip_codes whole ≡ lstrip_codes (held ++ t)
      → Continues m whole t (some (ok ([], held)))
  held_back m whole held t p e ms rest k h q =
      let none_yet : ms ≡ [] = cc in
      let same : rest ≡ held = cc in
      parse_stable raw_decode law m (m + k) whole p (omega (arith, q))
      ∙ parse_stripped_alike raw_decode law (m + k) whole (held ++ t) e
      ∙ ap (λ x. parse (m + k) (x ++ t)) (sym same)
      ∙ parse_stable raw_decode law (m + k) k (rest ++ t) (omega (arith, q, p)) q
      ∙ sym (prepend-nil (parse k (rest ++ t)))
      ∙ ap (λ x. prepend x (parse k (rest ++ t))) (sym none_yet)

  Continues-held :
      (m : ℕ) (b whole t : List ℕ) (x : Bool)
      → length whole < m
      → lstrip_codes whole ≡ lstrip_codes (b ++ t)
      → Continues m whole t
          (if x then some (ok ([], b)) else some (err (stream_parse_error "malformed stream JSON")))
  Continues-held m b whole t true p e = held_back m whole b t p e
  Continues-held m b whole t false p e = λ ms rest k h q. absurd (cc)

  -- One object is taken off, and the rest of the text continues.
  Continues-object :
      (m : ℕ) (whole t : List ℕ) (message : Fields) (p : Parsed) (tail : List ℕ)
      → parse (suc m) whole ≡ prepend (message ∷ []) (parse m tail)
      → Continues m tail t p
      → Continues (suc m) whole t (prepend (message ∷ []) p)
  Continues-object m whole t message p tail e later ms rest k h q =
      let (ns, found, front) = prepend-eq-ok message p ms rest h in
      e
      ∙ ap (prepend (message ∷ [])) (later ns rest k found q)
      ∙ prepend-cons message ns (parse k (rest ++ t))
      ∙ ap (λ x. prepend x (parse k (rest ++ t))) (sym front)

  parse_object :
      (m : ℕ) (c : ℕ) (cs whole t : List ℕ) (message : Fields) (rest : List ℕ)
      → lstrip_codes whole ≡ c ∷ (cs ++ t)
      → raw_decode (c ∷ cs) ≡ some (obj message, rest)
      → parse (suc m) whole ≡ prepend (message ∷ []) (parse m (rest ++ t))
  unfolding parse_buffer parse_stripped decoded
  parse_object m c cs whole t message rest e d =
      ap (parse_stripped raw_decode (λ r. parse m r)) e
      ∙ ap (decoded raw_decode (λ r. parse m r) (c ∷ (cs ++ t)))
          (law.extends (c ∷ cs) t message rest d)

  Continues-decoded :
      (n m : ℕ) (b t : List ℕ) (c : ℕ) (cs : List ℕ) (o : Option (Json × List ℕ))
      → lstrip_codes b ≡ c ∷ cs
      → raw_decode (c ∷ cs) ≡ o
      → length (b ++ t) < suc m
      → ((r : List ℕ) → length (r ++ t) < m → Continues m (r ++ t) t (parse n r))
      → Continues (suc m) (b ++ t) t (decoded raw_decode (λ r. parse n r) (c ∷ cs) o)
  unfolding decoded
  Continues-decoded n m b t c cs none e d p h =
      Continues-held (suc m) (c ∷ cs) (b ++ t) t (looks_incomplete (c ∷ cs)) p
        (lstrip_codes-append b t c cs e ∙ sym (lstrip_codes-again b t c cs e))
  Continues-decoded n m b t c cs (some (obj message, rest)) e d p h =
      Continues-object m (b ++ t) t message (parse n rest) (rest ++ t)
        (parse_object m c cs (b ++ t) t message rest (lstrip_codes-append b t c cs e) d)
        (h rest (
          omega (
            arith,
            p,
            law.takes (c ∷ cs) (obj message) rest d,
            length-append rest t,
            length-append b t,
            lstrip_codes-length b,
            ap length e,
          )))
  Continues-decoded n m b t c cs (some (Json.null, rest)) e d p h = λ ms r k x q. absurd (cc)
  Continues-decoded n m b t c cs (some (Json.bool y, rest)) e d p h = λ ms r k x q. absurd (cc)
  Continues-decoded n m b t c cs (some (Json.int y, rest)) e d p h = λ ms r k x q. absurd (cc)
  Continues-decoded n m b t c cs (some (Json.float y z, rest)) e d p h = λ ms r k x q. absurd (cc)
  Continues-decoded n m b t c cs (some (Json.str y, rest)) e d p h = λ ms r k x q. absurd (cc)
  Continues-decoded n m b t c cs (some (Json.arr y, rest)) e d p h = λ ms r k x q. absurd (cc)

  Continues-stripped :
      (n m : ℕ) (b t l : List ℕ)
      → lstrip_codes b ≡ l
      → length (b ++ t) < suc m
      → ((r : List ℕ) → length (r ++ t) < m → Continues m (r ++ t) t (parse n r))
      → Continues (suc m) (b ++ t) t (parse_stripped raw_decode (λ r. parse n r) l)
  unfolding parse_stripped
  Continues-stripped n m b t [] e p h = held_back (suc m) (b ++ t) [] t p (lstrip_codes-blank b t e)
  Continues-stripped n m b t (c ∷ cs) e p h = Continues-decoded n m b t c cs _ e refl p h

  parse-Continues :
      (n m : ℕ) (b t : List ℕ) → length (b ++ t) < m → Continues m (b ++ t) t (parse n b)
  unfolding parse_buffer
  parse-Continues zero m b t p = λ ms rest k h q. absurd (cc)
  parse-Continues (suc n) zero b t p = absurd (omega arith)
  parse-Continues (suc n) (suc m) b t p =
      Continues-stripped n m b t (lstrip_codes b) refl p (λ r q. parse-Continues n m r t q)

-- If a first chunk was accepted, then a second chunk either is accepted too, and feeding the two as
-- one chunk yields the messages of both in order and leaves the same buffer; or it raises an
-- exception, and feeding the two as one chunk raises the same exception, and so yields no message,
-- not even those that the first chunk alone yielded. This is for a decoder that takes something off
-- what it decodes, and that decodes a text which begins with an object in the same way whatever
-- follows.
pub feed-append :
    (raw_decode : List ℕ → Option (Json × List ℕ)) (law : IsDecoder raw_decode)
    (buffer first second : List ℕ) (ms : List Fields) (rest : List ℕ)
    → feed raw_decode buffer first ≡ some (ok (ms, rest))
    → ((ns : List Fields) × (rest' : List ℕ) × (feed raw_decode rest second ≡ some (ok (ns, rest')))
        × (feed raw_decode buffer (first ++ second) ≡ some (ok (ms ++ ns, rest'))))
      ⊎ ((e : Error) × (feed raw_decode rest second ≡ some (err e))
          × (feed raw_decode buffer (first ++ second) ≡ some (err e)))
unfolding feed
feed-append raw_decode law buffer first second ms rest h =
    let joined =
      parse-Continues raw_decode law (suc (length (buffer ++ first)))
        (suc (length ((buffer ++ first) ++ second))) (buffer ++ first) second (omega arith) ms rest
        (suc (length (rest ++ second))) h (omega arith) in
    go (feed raw_decode rest second) refl
      (parse_ends raw_decode law (suc (length (rest ++ second))) (rest ++ second) (omega arith))
      (subst
        (λ w. parse_buffer raw_decode (suc (length w)) w ≡ prepend ms (feed raw_decode rest second))
        (append_assoc buffer first second) joined)
  where
    go :
        (o : Parsed)
        → feed raw_decode rest second ≡ o
        → is_some (feed raw_decode rest second) ≡ true
        → feed raw_decode buffer (first ++ second) ≡ prepend ms (feed raw_decode rest second)
        → ((ns : List Fields) × (rest' : List ℕ) × (feed raw_decode rest second
              ≡ some (ok (ns, rest')))
            × (feed raw_decode buffer (first ++ second) ≡ some (ok (ms ++ ns, rest'))))
          ⊎ ((e : Error) × (feed raw_decode rest second ≡ some (err e))
              × (feed raw_decode buffer (first ++ second) ≡ some (err e)))
    go none e ends whole = absurd (cc)
    go (some (err x)) e ends whole = inr (x, e, whole ∙ ap (prepend ms) e)
    go (some (ok (ns, rest'))) e ends whole = inl (ns, rest', e, whole ∙ ap (prepend ms) e)
