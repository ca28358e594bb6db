-- ===== src/Stream/Parser.antt =====
-- The parser of streams (stream.py: `JsonStreamParser`), fed with text. `raw_decode` is
-- `json.JSONDecoder().raw_decode`: the value at the beginning of a text and the text after it, or
-- `none` for a `JSONDecodeError`. The incremental UTF-8 decoder of chunks of bytes is not modelled.
use ts_api_wrapper.Base.{
  ℕ, zero, suc, Option, none, some, List, [], ◌∷◌, ◌++◌, length, if◌then◌else◌,
}
use ts_api_wrapper.Base.Result.{Result, ok, err}
use ts_api_wrapper.Base.Text.{is_space_code}
use ts_api_wrapper.Errors.{Error, stream_parse_error}
use ts_api_wrapper.Json.{Json, Fields, obj}
use ts_api_wrapper.Stream.{looks_incomplete}

-- `buffer.lstrip()`
unfoldable pub lstrip_codes : List ℕ → List ℕ
lstrip_codes [] = []
lstrip_codes (c ∷ text) = let rest = lstrip_codes text in if is_space_code c then rest else c ∷ text

-- The messages found and the buffer left, or an exception; `none` if the fuel ran out.
abbrev pub Parsed : Type 0
Parsed = Option (Result Error (List Fields × List ℕ))

-- The messages found before the rest of the same chunk was parsed: if that raises, `feed` returns none
-- of them.
abbrev pub prepend : List Fields → Parsed → Parsed
prepend before none = none
prepend before (some (err e)) = some (err e)
prepend before (some (ok (messages, buffer))) = some (ok (before ++ messages, buffer))

module _ (raw_decode : List ℕ → Option (Json × List ℕ)) where
  -- What is done with a buffer that decodes to this; `loop` goes on.
  unfoldable pub decoded : (List ℕ → Parsed) → List ℕ → Option (Json × List ℕ) → Parsed
  decoded loop buffer none =
      if looks_incomplete buffer
      then some (ok ([], buffer))
      else some (err (stream_parse_error "malformed stream JSON"))
  decoded loop buffer (some (obj message, rest)) = prepend (message ∷ []) (loop rest)
  decoded loop buffer (some (_, rest)) =
      some (err (stream_parse_error "TradeStation stream message must be a JSON object"))

  -- the buffer without the blanks before it
  unfoldable pub parse_stripped : (List ℕ → Parsed) → List ℕ → Parsed
  unfolding decoded
  parse_stripped loop [] = some (ok ([], []))
  parse_stripped loop (c ∷ text) = decoded loop (c ∷ text) (raw_decode (c ∷ text))

  -- the loop `while True`, on fuel
  unfoldable pub parse_buffer : ℕ → List ℕ → Parsed
  unfolding parse_stripped lstrip_codes
  parse_buffer zero buffer = none
  parse_buffer (suc n) buffer = parse_stripped (λ rest. parse_buffer n rest) (lstrip_codes buffer)

  -- each round takes at least one character off the buffer
  unfoldable pub feed : List ℕ → List ℕ → Parsed
  unfolding parse_buffer
  feed buffer chunk = parse_buffer (suc (length (buffer ++ chunk))) (buffer ++ chunk)
