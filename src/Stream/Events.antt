-- ===== src/Stream/Events.antt =====
-- The loop that reads a stream and connects again (stream.py: `TradeStationStream.events`). What the
-- n-th call of the chunk source yields is an argument: the texts of its chunks, and the exception that
-- it raises after them, if any. `raw_decode` is as for the parser. Sleeping does not fail.
pub mod Counted
pub mod Reconnects
pub mod Delivered
use ts_api_wrapper.Base.{
  ℕ, zero, suc, ◌+◌, Bool, true, false, ◌&&◌, Option, none, some, List, [], ◌∷◌, ◌++◌, leb, ltb,
  if◌then◌else◌,
}
use ts_api_wrapper.Base.Floats.{Floats}
use ts_api_wrapper.Base.Result.{Result, ok, err}
use ts_api_wrapper.Errors.{
  Error, Failure, configuration_error, stream_parse_error, local, network_timeout, transport_error,
  stream_open_error, retry_exhausted, api_error, rate_limit_error, authentication_error,
  stream_error, ambiguous_order_state,
}
use ts_api_wrapper.Json.{Json, Fields, obj}
use ts_api_wrapper.RateLimit.{StreamReconnectPolicy, delay_for_reconnect}
use ts_api_wrapper.Stream.{
  StreamEventKind, data_event, end_snapshot, go_away, heartbeat, error_event,
  classify_stream_message,
}
use ts_api_wrapper.Stream.Parser.{feed}

pub record StreamEvent : Type 0 where
  pub kind : StreamEventKind
  pub payload : Fields

abbrev pub is_error : StreamEventKind → Bool
is_error error_event = true
is_error _ = false

abbrev pub is_go_away : StreamEventKind → Bool
is_go_away go_away = true
is_go_away _ = false

abbrev pub event_of : Fields → StreamEvent
event_of payload = record { kind = classify_stream_message payload; payload = payload }

-- How the reading of messages, or of a connection, stops.
pub data Stop (F : Type 0) : Type 0 where
  went_on : Stop F
  went_away : Stop F
  raised : Failure F → Stop F

-- The events yielded, and the variables of the loop after them.
pub record Progress (F : Type 0) : Type 0 where
  pub events : List StreamEvent
  pub reconnects : ℕ
  pub stop : Stop F

-- What one call of the chunk source yields.
pub record Connection (F : Type 0) : Type 0 where
  pub chunks : List (List ℕ)
  pub failure : Option (Failure F)

module _ {F : Type 0} where
  abbrev pub after_events : List StreamEvent → Progress F → Progress F
  after_events before p = record p { events = before ++ p.events }

  -- One message, by whether its event is raised as an error and whether it is a GO_AWAY.
  abbrev pub handle_message : ℕ → Fields → Bool → Bool → Progress F → Progress F
  handle_message r m true away rest = record {
    events = [];
    reconnects = r;
    stop = raised (stream_error (obj m));
  }
  handle_message r m false true rest = record {
    events = event_of m ∷ [];
    reconnects = r;
    stop = went_away;
  }
  handle_message r m false false rest = after_events (event_of m ∷ []) rest

  -- The messages of one chunk: `for payload in parser.feed(chunk)`.
  unfoldable pub handle_messages : Bool → ℕ → List Fields → Progress F
  handle_messages raise_on_error r [] = record { events = []; reconnects = r; stop = went_on }
  handle_messages raise_on_error r (m ∷ ms) =
      let kind = classify_stream_message m in
      handle_message r m (raise_on_error && is_error kind) (is_go_away kind)
        (handle_messages raise_on_error 0 ms)

  abbrev pub ending : ℕ → Option (Failure F) → Progress F
  ending r none = record { events = []; reconnects = r; stop = went_on }
  ending r (some e) = record { events = []; reconnects = r; stop = raised e }

  -- The messages of a chunk were handled; `rest` reads the chunks after it.
  abbrev pub after_chunk :
      List StreamEvent → ℕ → Stop F → (ℕ → Option (Progress F)) → Option (Progress F)
  after_chunk events r went_away rest =
      some (record { events = events; reconnects = r; stop = went_away })
  after_chunk events r (raised e) rest =
      some (record { events = events; reconnects = r; stop = raised e })
  after_chunk events r went_on rest = elim (rest r) [
    | none ↦ none
    | some p ↦ some (after_events events p)
  ]

module _ (raw_decode : List ℕ → Option (Json × List ℕ)) {F : Type 0} (raise_on_error : Bool) where
  -- What `feed` made of a chunk; `rest` reads on with the buffer left.
  abbrev pub after_feed :
      ℕ
      → Option (Result Error (List Fields × List ℕ))
      → (List ℕ → ℕ → Option (Progress F))
      → Option (Progress F)
  after_feed r none rest = none
  after_feed r (some (err e)) rest =
      some (record { events = []; reconnects = r; stop = raised (local e) })
  after_feed r (some (ok (messages, buffer))) rest =
      let p = handle_messages raise_on_error r messages in
      after_chunk p.events p.reconnects p.stop (rest buffer)

  -- A connection, from a buffer; `none` if the parser ran out of fuel.
  unfoldable pub read_chunks : List (List ℕ) → Option (Failure F) → List ℕ → ℕ → Option (Progress F)
  unfolding feed
  read_chunks [] failure buffer r = some (ending r failure)
  read_chunks (chunk ∷ chunks) failure buffer r =
      after_feed r (feed raw_decode buffer chunk) (λ left n. read_chunks chunks failure left n)

pub data Handling (F : Type 0) : Type 0 where
  raise_again : Handling F
  -- connect again, after a delay that the server may have asked for
  connect_again : Option F → Handling F

-- The `except` branches.
unfoldable pub handling_of : {F : Type 0} → Failure F → Handling F
handling_of (stream_error payload) = raise_again
handling_of (local (stream_parse_error m)) = raise_again
handling_of (local (configuration_error m)) = raise_again
handling_of (authentication_error e) = raise_again
handling_of (rate_limit_error e retry_after) = connect_again retry_after
handling_of (api_error e) =
    if leb 400 e.status_code && ltb e.status_code 500 then raise_again else connect_again none
handling_of _ = connect_again none

-- What a run of `events` has yielded, how long it slept, and the connections it opened.
pub record Watch (F : Type 0) : Type 0 where
  pub events : List StreamEvent
  pub slept : List F
  pub opened : ℕ

abbrev pub unwatched : {F : Type 0} → Watch F
unwatched = record { events = []; slept = []; opened = 0 }

module _ (raw_decode : List ℕ → Option (Json × List ℕ)) {fl : Floats}
    (policy : StreamReconnectPolicy fl) (raise_on_error : Bool) (source : ℕ → Connection fl.F) where
  open fl use {F}

  -- `none` while the generator goes on, else how it ended
  abbrev pub Ended : Type 0
  Ended = Option (Result (Failure F) (Unit {0}))

  abbrev pub Loop : Type 0
  Loop = ℕ → Watch F → Ended × Watch F

  abbrev pub did_sleep : ℕ → Option F → Watch F → Watch F
  did_sleep number retry_after w = record w {
    slept = delay_for_reconnect fl policy number retry_after ∷ w.slept;
  }

  -- Ends so if there were `max_reconnects` reconnects, else sleeps and goes on.
  abbrev pub unless_spent :
      Loop → ℕ → Option F → Result (Failure F) (Unit {0}) → Watch F → Bool → Ended × Watch F
  unless_spent loop r retry_after final w true = (some final, w)
  unless_spent loop r retry_after final w false = loop (r + 1) (did_sleep (r + 1) retry_after w)

  abbrev pub reconnect :
      Loop → ℕ → Option F → Result (Failure F) (Unit {0}) → Watch F → Ended × Watch F
  reconnect loop r retry_after final w =
      unless_spent loop r retry_after final w (leb policy.max_reconnects r)

  abbrev pub handle : Loop → ℕ → Failure F → Watch F → Handling F → Ended × Watch F
  handle loop r e w raise_again = (some (err e), w)
  handle loop r e w (connect_again retry_after) = reconnect loop r retry_after (err e) w

  abbrev pub after_connection : Loop → ℕ → Stop F → Watch F → Ended × Watch F
  after_connection loop r went_on w = (some (ok tt), w)
  after_connection loop r went_away w = reconnect loop r none (ok tt) w
  after_connection loop r (raised e) w = handle loop r e w (handling_of e)

  abbrev pub observed : Watch F → Progress F → Watch F
  observed w p = record { events = w.events ++ p.events; slept = w.slept; opened = w.opened + 1 }

  abbrev pub with_progress : Loop → Watch F → Option (Progress F) → Ended × Watch F
  with_progress loop w none = (none, w)
  with_progress loop w (some p) = after_connection loop p.reconnects p.stop (observed w p)

  -- The loop `while True`, on as many connections as there is fuel.
  unfoldable pub events_loop : ℕ → Loop
  unfolding read_chunks handle_messages handling_of
  events_loop zero r w = (none, w)
  events_loop (suc n) r w =
      with_progress (λ k v. events_loop n k v) w
        (read_chunks raw_decode raise_on_error (source w.opened).chunks (source w.opened).failure []
          r)

  unfoldable pub events : ℕ → Ended × Watch F
  unfolding events_loop
  events n = events_loop n 0 unwatched
