-- ===== src/Stream/Fuel.antt =====
-- What is assumed of the JSON decoder, and that the parser's fuel suffices (stream.py:
-- `JsonStreamParser.feed`).
use ts_api_wrapper.Base.{
  ℕ, zero, suc, ◌<◌, ◌≡◌, refl, ap, true, Option, none, some, List, [], ◌∷◌, ◌++◌, length, arith,
  is_some,
}
use ts_api_wrapper.Base.Result.{ok, err}
use ts_api_wrapper.Json.{Json, Fields, obj}
use ts_api_wrapper.Stream.Parser.{
  lstrip_codes, Parsed, prepend, decoded, parse_stripped, parse_buffer,
}
use ts_api_wrapper.Stream.Blanks.{lstrip_codes-length}

-- Decoding takes something off a text, and a text that begins with an object is decoded in the same
-- way whatever follows it.
pub record IsDecoder (raw_decode : List ℕ → Option (Json × List ℕ)) : Type 0 where
  pub takes :
      (b : List ℕ) (v : Json) (rest : List ℕ)
      → raw_decode b ≡ some (v, rest)
      → length rest < length b
  pub extends :
      (b t : List ℕ) (m : Fields) (rest : List ℕ)
      → raw_decode b ≡ some (obj m, rest)
      → raw_decode (b ++ t) ≡ some (obj m, rest ++ t)

module _ (raw_decode : List ℕ → Option (Json × List ℕ)) (law : IsDecoder raw_decode) where
  abbrev parse : ℕ → List ℕ → Parsed
  parse = parse_buffer raw_decode

  -- Loops that agree on shorter texts make the same of a text.
  decoded_agree :
      (loop loop' : List ℕ → Parsed) (b : List ℕ) (o : Option (Json × List ℕ))
      → raw_decode b ≡ o
      → ((rest : List ℕ) → length rest < length b → loop rest ≡ loop' rest)
      → decoded raw_decode loop b o ≡ decoded raw_decode loop' b o
  unfolding decoded
  decoded_agree loop loop' b none e h = refl
  decoded_agree loop loop' b (some (obj m, rest)) e h =
      ap (prepend (m ∷ [])) (h rest (law.takes b (obj m) rest e))
  decoded_agree loop loop' b (some (Json.null, rest)) e h = refl
  decoded_agree loop loop' b (some (Json.bool x, rest)) e h = refl
  decoded_agree loop loop' b (some (Json.int x, rest)) e h = refl
  decoded_agree loop loop' b (some (Json.float x y, rest)) e h = refl
  decoded_agree loop loop' b (some (Json.str x, rest)) e h = refl
  decoded_agree loop loop' b (some (Json.arr x, rest)) e h = refl

  stripped_agree :
      (loop loop' : List ℕ → Parsed) (b : List ℕ)
      → ((rest : List ℕ) → length rest < length b → loop rest ≡ loop' rest)
      → parse_stripped raw_decode loop b ≡ parse_stripped raw_decode loop' b
  unfolding parse_stripped
  stripped_agree loop loop' [] h = refl
  stripped_agree loop loop' (c ∷ b) h = decoded_agree loop loop' (c ∷ b) _ refl h

  -- Fuel beyond the length of the text does not matter.
  pub parse_stable : (n m : ℕ) (b : List ℕ) → length b < n → length b < m → parse n b ≡ parse m b
  unfolding parse_buffer
  parse_stable zero m b p q = absurd (omega arith)
  parse_stable (suc n) zero b p q = absurd (omega arith)
  parse_stable (suc n) (suc m) b p q =
      stripped_agree (λ rest. parse n rest) (λ rest. parse m rest) (lstrip_codes b)
        (λ rest s.
          let short = lstrip_codes-length b in
          parse_stable n m rest (omega (arith, s, short)) (omega (arith, s, short)))

  -- Texts that are the same but for blanks before them are parsed in the same way.
  pub parse_stripped_alike :
      (n : ℕ) (b b' : List ℕ) → lstrip_codes b ≡ lstrip_codes b' → parse n b ≡ parse n b'
  unfolding parse_buffer
  parse_stripped_alike zero b b' e = refl
  parse_stripped_alike (suc n) b b' e = ap (parse_stripped raw_decode (λ rest. parse n rest)) e

  decoded_ends :
      (loop : List ℕ → Parsed) (b : List ℕ) (o : Option (Json × List ℕ))
      → raw_decode b ≡ o
      → ((rest : List ℕ) → length rest < length b → is_some (loop rest) ≡ true)
      → is_some (decoded raw_decode loop b o) ≡ true
  unfolding decoded
  decoded_ends loop b none e h = ground arith
  decoded_ends loop b (some (obj m, rest)) e h =
      prepend_ends (m ∷ []) (loop rest) (h rest (law.takes b (obj m) rest e))
    where
      prepend_ends :
          (before : List Fields) (p : Parsed) → is_some p ≡ true → is_some (prepend before p) ≡ true
      prepend_ends before none k = k
      prepend_ends before (some (err x)) k = refl
      prepend_ends before (some (ok (ms, rest))) k = refl
  decoded_ends loop b (some (Json.null, rest)) e h = refl
  decoded_ends loop b (some (Json.bool x, rest)) e h = refl
  decoded_ends loop b (some (Json.int x, rest)) e h = refl
  decoded_ends loop b (some (Json.float x y, rest)) e h = refl
  decoded_ends loop b (some (Json.str x, rest)) e h = refl
  decoded_ends loop b (some (Json.arr x, rest)) e h = refl

  stripped_ends :
      (loop : List ℕ → Parsed) (b : List ℕ)
      → ((rest : List ℕ) → length rest < length b → is_some (loop rest) ≡ true)
      → is_some (parse_stripped raw_decode loop b) ≡ true
  unfolding parse_stripped
  stripped_ends loop [] h = refl
  stripped_ends loop (c ∷ b) h = decoded_ends loop (c ∷ b) _ refl h

  pub parse_ends : (n : ℕ) (b : List ℕ) → length b < n → is_some (parse n b) ≡ true
  unfolding parse_buffer
  parse_ends zero b p = absurd (omega arith)
  parse_ends (suc n) b p =
      stripped_ends (λ rest. parse n rest) (lstrip_codes b)
        (λ rest s. parse_ends n rest (omega (arith, s, lstrip_codes-length b)))
