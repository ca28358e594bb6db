-- ===== src/Stream.antt =====
-- Stream messages (src/tradestation_api_wrapper/stream.py): their kinds, and the test whether the
-- text received so far may be the beginning of more. A text is the list of its code points.
pub mod Incomplete
pub mod Nested
pub mod Parser
pub mod Blanks
pub mod Fuel
pub mod Chunks
pub mod Events
use ts_api_wrapper.Base.{
  ℕ, String, Bool, true, false, ◌&&◌, ◌||◌, not, Option, none, some, List, [], ◌∷◌, ◌==◌, any,
  nat_eq, if◌then◌else◌,
}
use ts_api_wrapper.Json.{Json, Fields, get, has, as_text}

pub data StreamEventKind : Type 0 where
  data_event end_snapshot go_away heartbeat error_event : StreamEventKind

-- `payload.get("StreamStatus") == text`
abbrev is_status : Option String → String → Bool
is_status none text = false
is_status (some s) text = s == text

-- `_looks_like_market_data`
abbrev pub market_data_keys : List String
market_data_keys =
    "Symbol" ∷ "Bid" ∷ "Ask" ∷ "Last" ∷ "Close" ∷ "TimeStamp" ∷ "Bids" ∷ "Asks" ∷ "BidLevels"
    ∷ "AskLevels" ∷ "Side" ∷ "Price" ∷ "Size" ∷ "Entries" ∷ []

unfoldable pub looks_like_market_data : Fields → Bool
unfolding has
looks_like_market_data payload = any (has payload) market_data_keys

unfoldable pub classify_stream_message : Fields → StreamEventKind
unfolding get has looks_like_market_data
classify_stream_message payload =
    let status = as_text (get payload "StreamStatus") in
    if is_status status "EndSnapshot"
    then end_snapshot
    else if is_status status "GoAway"
    then go_away
    else if has payload "Heartbeat"
    then heartbeat
    else if has payload "Error" || (has payload "Message" && not (looks_like_market_data payload))
    then error_event
    else data_event

pub data Bracket : Type 0 where
  brace square : Bracket

-- The variables of the loop of `_looks_incomplete`.
pub record Scan : Type 0 where
  pub stack : List Bracket
  pub in_string : Bool
  pub escaped : Bool

abbrev pub start : Scan
start = record { stack = []; in_string = false; escaped = false }

abbrev pub eqb_Bracket : Bracket → Bracket → Bool
eqb_Bracket brace brace = true
eqb_Bracket square square = true
eqb_Bracket _ _ = false

-- `if not stack or stack.pop() != b: return False`
abbrev pub pop : Bracket → Scan → List Bracket → Option Scan
pop b s [] = none
pop b s (top ∷ rest) = if eqb_Bracket top b then some (record s { stack = rest }) else none

-- One character; `none` is the early `return False`.
unfoldable pub step : Scan → ℕ → Option Scan
step s c =
    if s.escaped
    then some (record s { escaped = false })
    else if nat_eq c b'\\'
    then some (record s { escaped = true })
    else if nat_eq c b'"'
    then some (record s { in_string = not s.in_string })
    else if s.in_string
    then some s
    else if nat_eq c b'{'
    then some (record s { stack = brace ∷ s.stack })
    else if nat_eq c b'['
    then some (record s { stack = square ∷ s.stack })
    else if nat_eq c b'}'
    then pop brace s s.stack
    else if nat_eq c b']'
    then pop square s s.stack
    else some s

abbrev pub and_then : (Scan → Option Scan) → Option Scan → Option Scan
and_then f none = none
and_then f (some s) = f s

unfoldable pub scan : Scan → List ℕ → Option Scan
unfolding step
scan s [] = some s
scan s (c ∷ text) = and_then (λ t. scan t text) (step s c)

-- `in_string or bool(stack)`
abbrev pub is_open : Scan → Bool
is_open s = s.in_string || elim s.stack [ [] ↦ false | _ ∷ _ ↦ true ]

abbrev pub verdict : Option Scan → Bool
verdict none = false
verdict (some s) = is_open s

unfoldable pub looks_incomplete : List ℕ → Bool
unfolding scan
looks_incomplete buffer = verdict (scan start buffer)
