-- ===== src/Tests/Streams.antt =====
-- The theorems on streams, applied to values.
use ts_api_wrapper.Base.{
  ℕ, ◌<◌, ◌≡◌, refl, ◌⊎◌, true, false, ◌&&◌, Option, none, some, List, [], ◌∷◌, ◌++◌, length,
  nat_eq, arith, if◌then◌else◌,
}
use ts_api_wrapper.Base.Result.{ok, err}
use ts_api_wrapper.Errors.{Error}
use ts_api_wrapper.Json.{Json, Fields, obj, end}
use ts_api_wrapper.Stream.{brace, start, scan, looks_incomplete}
use ts_api_wrapper.Stream.Incomplete.{looks_incomplete_completable}
use ts_api_wrapper.Stream.Nested.{
  IsTextBody, IsNested, escape, closed, opening, in_text, looks_incomplete-IsCut,
}
use ts_api_wrapper.Stream.Parser.{feed}
use ts_api_wrapper.Stream.Fuel.{IsDecoder}
use ts_api_wrapper.Stream.Chunks.{feed-append}

-- The text `{`, and `{"\"`.
abbrev opened : List ℕ
opened = b'{' ∷ []

abbrev escaped_quote : List ℕ
escaped_quote = b'{' ∷ b'"' ∷ b'\\' ∷ b'"' ∷ []

looks_incomplete_completable_example :
    (more : List ℕ) × (scan start (opened ++ more) ≡ some start)
    × (looks_incomplete (opened ++ more) ≡ false)
unfolding looks_incomplete
looks_incomplete_completable_example = looks_incomplete_completable opened refl

looks_incomplete-IsCut_example : looks_incomplete escaped_quote ≡ true
looks_incomplete-IsCut_example = looks_incomplete-IsCut escaped_quote true (
    in_text {st = brace ∷ []} {before = b'{' ∷ []} {body = b'\\' ∷ b'"' ∷ []}
      (opening brace (closed IsNested.empty) IsNested.empty) (escape IsTextBody.empty))

-- A decoder of the object `{}` alone.
unfoldable pub braces : List ℕ → Option (Json × List ℕ)
braces [] = none
braces (c ∷ []) = none
braces (c ∷ d ∷ rest) = if nat_eq c b'{' && nat_eq d b'}' then some (obj end, rest) else none

pub braces-IsDecoder : IsDecoder braces
unfolding braces
braces-IsDecoder = record { takes = shorter; extends = longer }
  where
    shorter :
        (b : List ℕ) (v : Json) (rest : List ℕ) → braces b ≡ some (v, rest) → length rest < length b
    shorter [] v rest h = absurd (cc)
    shorter (c ∷ []) v rest h = absurd (cc)
    shorter (c ∷ d ∷ b) v rest h = ground arith

    longer :
        (b t : List ℕ) (m : Fields) (rest : List ℕ)
        → braces b ≡ some (obj m, rest)
        → braces (b ++ t) ≡ some (obj m, rest ++ t)
    longer [] t m rest h = absurd (cc)
    longer (c ∷ []) t m rest h = absurd (cc)
    longer (c ∷ d ∷ b) t m rest h = ground arith

-- `{}{` and then `}`
feed-append_example :
    let whole = feed braces [] (b'{' ∷ b'}' ∷ b'{' ∷ b'}' ∷ []) in
    let after = feed braces (b'{' ∷ []) (b'}' ∷ []) in
    ((ns : List Fields) × (rest : List ℕ) × (after ≡ some (ok (ns, rest)))
      × (whole ≡ some (ok (end ∷ ns, rest))))
    ⊎ ((e : Error) × (after ≡ some (err e)) × (whole ≡ some (err e)))
unfolding feed braces looks_incomplete
feed-append_example =
    feed-append braces braces-IsDecoder [] (b'{' ∷ b'}' ∷ b'{' ∷ []) (b'}' ∷ []) (end ∷ [])
      (b'{' ∷ []) refl
