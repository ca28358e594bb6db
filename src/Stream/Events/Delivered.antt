-- ===== src/Stream/Events/Delivered.antt =====
-- What a stream delivers (stream.py: `TradeStationStream.events`).
use ts_api_wrapper.Base.{
  ℕ, zero, suc, ◌+◌, ◌≡◌, refl, ap, sym, ◌∙◌, Bool, true, false, ◌&&◌, Option, none, some, List, [],
  ◌∷◌, ◌++◌, append-nil, leb, arith,
}
use ts_api_wrapper.Base.Floats.{Floats}
use ts_api_wrapper.Base.Result.{Result, ok, err}
use ts_api_wrapper.Errors.{Error, Failure}
use ts_api_wrapper.Json.{Json, Fields}
use ts_api_wrapper.RateLimit.{StreamReconnectPolicy}
use ts_api_wrapper.Stream.{classify_stream_message}
use ts_api_wrapper.Stream.Parser.{feed}
use ts_api_wrapper.Stream.Events.{
  StreamEvent, is_error, is_go_away, event_of, Stop, went_on, went_away, raised, Progress,
  Connection, after_events, handle_message, handle_messages, ending, after_chunk, after_feed,
  read_chunks, Handling, raise_again, connect_again, handling_of, Watch, unwatched, Loop, did_sleep,
  unless_spent, reconnect, handle, after_connection, observed, with_progress, events_loop, events,
}

abbrev step_of : Bool → Bool → StreamEvent → List StreamEvent → List StreamEvent
step_of true away e rest = []
step_of false true e rest = e ∷ []
step_of false false e rest = e ∷ rest

-- The events of messages: up to the first error, if errors are raised, or the first GO_AWAY.
unfoldable pub cut : Bool → List Fields → List StreamEvent
cut raise_on_error [] = []
cut raise_on_error (m ∷ ms) =
    let kind = classify_stream_message m in
    step_of (raise_on_error && is_error kind) (is_go_away kind) (event_of m) (cut raise_on_error ms)

-- The messages of a chunk, and of the rest.
abbrev joined : Option (Result Error (List Fields × List ℕ)) → (List ℕ → List Fields) → List Fields
joined none rest = []
joined (some (err e)) rest = []
joined (some (ok (ms, left))) rest = ms ++ rest left

-- The messages that the chunks hold, up to the first chunk that cannot be parsed.
unfoldable pub messages : (List ℕ → Option (Json × List ℕ)) → List (List ℕ) → List ℕ → List Fields
messages raw_decode [] buffer = []
messages raw_decode (chunk ∷ chunks) buffer =
    joined (feed raw_decode buffer chunk) (λ left. messages raw_decode chunks left)

-- What follows the events of messages, by how handling them stops.
abbrev tail_of : {F : Type 0} → Stop F → List StreamEvent → List StreamEvent
tail_of went_on rest = rest
tail_of went_away rest = []
tail_of (raised e) rest = []

module _ (F : Type 0) (raise_on_error : Bool) where
  -- The events are those of the messages, whatever messages follow.
  abbrev IsCut : List Fields → List StreamEvent → Stop F → Type 0
  IsCut ms es stop =
      (more : List Fields)
      → cut raise_on_error (ms ++ more) ≡ es ++ tail_of stop (cut raise_on_error more)

  handle_messages-IsCut :
      (r : ℕ) (ms : List Fields)
      → let p : Progress F = handle_messages raise_on_error r ms in IsCut ms p.events p.stop
  unfolding handle_messages cut
  handle_messages-IsCut r [] = λ more. refl
  handle_messages-IsCut r (m ∷ ms) =
      go _ refl _ refl (handle_messages raise_on_error 0 ms) (handle_messages-IsCut 0 ms)
    where
      go :
          (e : Bool)
          → (raise_on_error && is_error (classify_stream_message m)) ≡ e
          → (away : Bool) → is_go_away (classify_stream_message m) ≡ away
          → (rest : Progress F) → IsCut ms rest.events rest.stop
          → let p : Progress F = handle_message r m e away rest in IsCut (m ∷ ms) p.events p.stop
      go true p away q rest h more =
          ap
            (λ b.
              step_of b (is_go_away (classify_stream_message m)) (event_of m)
                (cut raise_on_error (ms ++ more)))
            p
      go false p true q rest h more =
          ap
            (λ b.
              step_of b (is_go_away (classify_stream_message m)) (event_of m)
                (cut raise_on_error (ms ++ more)))
            p
          ∙ ap (λ b. step_of false b (event_of m) (cut raise_on_error (ms ++ more))) q
      go false p false q rest h more =
          ap
            (λ b.
              step_of b (is_go_away (classify_stream_message m)) (event_of m)
                (cut raise_on_error (ms ++ more)))
            p
          ∙ ap (λ b. step_of false b (event_of m) (cut raise_on_error (ms ++ more))) q
          ∙ ap (λ es. event_of m ∷ es) (h more)

  -- A connection that is read delivers the events of its messages.
  abbrev Delivers : List Fields → Option (Progress F) → Type 0
  Delivers ms none = Unit
  Delivers ms (some p) = p.events ≡ cut raise_on_error ms

  after_chunk-Delivers :
      (ms more : List Fields) (r : ℕ) (es : List StreamEvent) (stop : Stop F)
      (rest : ℕ → Option (Progress F))
      → IsCut ms es stop
      → ((n : ℕ) → Delivers more (rest n))
      → Delivers (ms ++ more) (after_chunk es r stop rest)
  after_chunk-Delivers ms more r es went_away rest c h = sym (c more ∙ append-nil es)
  after_chunk-Delivers ms more r es (raised e) rest c h = sym (c more ∙ append-nil es)
  after_chunk-Delivers ms more r es went_on rest c h = go (rest r) (h r)
    where
      go :
          (o : Option (Progress F))
          → Delivers more o
          → Delivers (ms ++ more) (elim o [ none ↦ none | some p ↦ some (after_events es p) ])
      go none k = tt
      go (some p) k = ap (λ fs. es ++ fs) k ∙ sym (c more)

  module _ (raw_decode : List ℕ → Option (Json × List ℕ)) where
    ending-Delivers : (r : ℕ) (failure : Option (Failure F)) → Delivers [] (some (ending r failure))
    unfolding cut
    ending-Delivers r none = refl
    ending-Delivers r (some e) = refl

    after_feed-Delivers :
        (r : ℕ) (fed : Option (Result Error (List Fields × List ℕ))) (more : List ℕ → List Fields)
        (rest : List ℕ → ℕ → Option (Progress F))
        → ((left : List ℕ) (n : ℕ) → Delivers (more left) (rest left n))
        → Delivers (joined fed more) (after_feed raw_decode raise_on_error r fed rest)
    unfolding cut
    after_feed-Delivers r none more rest h = tt
    after_feed-Delivers r (some (err e)) more rest h = refl
    after_feed-Delivers r (some (ok (ms, left))) more rest h =
        let p : Progress F = handle_messages raise_on_error r ms in
        after_chunk-Delivers ms (more left) p.reconnects p.events p.stop (rest left)
          (handle_messages-IsCut r ms) (h left)

    pub read_chunks-Delivers :
        (chunks : List (List ℕ)) (failure : Option (Failure F)) (buffer : List ℕ) (r : ℕ)
        → Delivers
            (messages raw_decode chunks buffer)
            (read_chunks raw_decode raise_on_error chunks failure buffer r)
    unfolding read_chunks messages
    read_chunks-Delivers [] failure buffer r = ending-Delivers r failure
    read_chunks-Delivers (chunk ∷ chunks) failure buffer r =
        after_feed-Delivers r (feed raw_decode buffer chunk) _ _
          (λ left n. read_chunks-Delivers chunks failure left n)

module _ (raw_decode : List ℕ → Option (Json × List ℕ)) {F : Type 0} (raise_on_error : Bool)
    (source : ℕ → Connection F) where
  -- The events of the first connections, one connection after the other.
  unfoldable pub delivered_by : ℕ → List StreamEvent
  delivered_by zero = []
  delivered_by (suc n) =
      delivered_by n ++ cut raise_on_error (messages raw_decode (source n).chunks [])

suc_one : (n : ℕ) → suc n ≡ n + 1
suc_one n = omega arith

module _ (raw_decode : List ℕ → Option (Json × List ℕ)) {fl : Floats}
    (policy : StreamReconnectPolicy fl) (raise_on_error : Bool) (source : ℕ → Connection fl.F) where
  open fl use {F}

  abbrev IsDelivered : Watch F → Type 0
  IsDelivered w = w.events ≡ delivered_by raw_decode raise_on_error source w.opened

  abbrev KeepsDelivered : Loop raw_decode policy raise_on_error source → Type 0
  KeepsDelivered loop = (r : ℕ) (w : Watch F) → IsDelivered w → IsDelivered (loop r w).1

  reconnect-IsDelivered :
      (loop : Loop raw_decode policy raise_on_error source) (r : ℕ) (ra : Option F)
      (final : Result (Failure F) (Unit {0})) (w : Watch F)
      → KeepsDelivered loop
      → IsDelivered w
      → IsDelivered (reconnect raw_decode policy raise_on_error source loop r ra final w).1
  reconnect-IsDelivered loop r ra final w k h = go (leb policy.max_reconnects r)
    where
      go :
          (b : Bool)
          → IsDelivered (unless_spent raw_decode policy raise_on_error source loop r ra final w b).1
      go true = h
      go false = k (r + 1) (did_sleep raw_decode policy raise_on_error source (r + 1) ra w) h

  after_connection-IsDelivered :
      (loop : Loop raw_decode policy raise_on_error source) (r : ℕ) (stop : Stop F) (w : Watch F)
      → KeepsDelivered loop
      → IsDelivered w
      → IsDelivered (after_connection raw_decode policy raise_on_error source loop r stop w).1
  after_connection-IsDelivered loop r went_on w k h = h
  after_connection-IsDelivered loop r went_away w k h =
      reconnect-IsDelivered loop r none (ok tt) w k h
  after_connection-IsDelivered loop r (raised e) w k h = go (handling_of e)
    where
      go :
          (d : Handling F)
          → IsDelivered (handle raw_decode policy raise_on_error source loop r e w d).1
      go raise_again = h
      go (connect_again ra) = reconnect-IsDelivered loop r ra (err e) w k h

  with_progress-IsDelivered :
      (loop : Loop raw_decode policy raise_on_error source) (w : Watch F) (o : Option (Progress F))
      → KeepsDelivered loop
      → IsDelivered w
      → Delivers F raise_on_error (messages raw_decode (source w.opened).chunks []) o
      → IsDelivered (with_progress raw_decode policy raise_on_error source loop w o).1
  unfolding delivered_by
  with_progress-IsDelivered loop w none k h d = h
  with_progress-IsDelivered loop w (some p) k h d =
      after_connection-IsDelivered loop p.reconnects p.stop
        (observed raw_decode policy raise_on_error source w p) k
        (ap (λ es. es ++ p.events) h
          ∙ ap (λ es. delivered_by raw_decode raise_on_error source w.opened ++ es) d
          ∙ ap (delivered_by raw_decode raise_on_error source) (suc_one w.opened))

  events_loop-KeepsDelivered :
      (fuel : ℕ) → KeepsDelivered (events_loop raw_decode policy raise_on_error source fuel)
  unfolding events_loop
  events_loop-KeepsDelivered zero r w h = h
  events_loop-KeepsDelivered (suc fuel) r w h =
      let c = source w.opened in
      with_progress-IsDelivered
        (λ n v. events_loop raw_decode policy raise_on_error source fuel n v) w _
        (events_loop-KeepsDelivered fuel) h
        (read_chunks-Delivers F raise_on_error raw_decode c.chunks c.failure [] r)

-- At any time, the events that a stream has yielded are those of the connections that it has opened,
-- one after the other, and of each connection those of the messages in its chunks, in order, up to and
-- including the first GO_AWAY, up to the first error if errors are raised, or up to the first chunk
-- that cannot be parsed.
pub events_delivered :
    (raw_decode : List ℕ → Option (Json × List ℕ)) {fl : Floats} (policy : StreamReconnectPolicy fl)
    (raise_on_error : Bool) (source : ℕ → Connection fl.F) (fuel : ℕ)
    → let (r, w) = events raw_decode policy raise_on_error source fuel in
      w.events ≡ delivered_by raw_decode raise_on_error source w.opened
unfolding events delivered_by
events_delivered raw_decode policy raise_on_error source fuel =
    events_loop-KeepsDelivered raw_decode policy raise_on_error source fuel 0 unwatched refl
