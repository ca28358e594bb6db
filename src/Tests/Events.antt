-- ===== src/Tests/Events.antt =====
-- The theorems on streams that connect again, applied to values.
use ts_api_wrapper.Base.{
  ℕ, zero, suc, ◌+◌, ◌-◌, ◌*◌, ◌≤◌, ◌≡◌, ◌⊎◌, true, some, [], ◌∷◌, length, is_some, arith, List,
  none, refl,
}
use ts_api_wrapper.Errors.{Failure}
use ts_api_wrapper.RateLimit.{StreamReconnectPolicy}
use ts_api_wrapper.Transport.{HttpRequest, timed_out}
use ts_api_wrapper.Rest.Streams.{
  StreamReply, served, refused, stream_chunks, trace_after, stream_events,
}
use ts_api_wrapper.Rest.Streams.Requests.{stream_requests_bounded}
use ts_api_wrapper.Stream.Events.{Connection, events}
use ts_api_wrapper.Stream.Events.Counted.{delivered}
use ts_api_wrapper.Stream.Events.Reconnects.{reconnects_bounded}
use ts_api_wrapper.Stream.Events.Delivered.{delivered_by, events_delivered}
use ts_api_wrapper.Transport.Reader.{
  stream_queue_max_chunks, Item, chunk, sentinel, reading, finished, ended, begin, read_chunk,
  read_end, put, take_chunk, take_sentinel, Steps, start, after,
}
use ts_api_wrapper.Transport.Reader.Complete.{IsReceived, stream-IsReceived}
use ts_api_wrapper.Tests.{seconds, network, fresh_trace}
use ts_api_wrapper.Tests.Streams.{braces, braces-IsDecoder}

abbrev policy : StreamReconnectPolicy seconds
policy = record { max_reconnects = 2; base_delay = 1; max_delay = 30; retry_after_ceiling = 5 }

-- The first connection yields two objects in two chunks and breaks, the others break at once.
abbrev connections : ℕ → Connection ℕ
connections zero = record {
  chunks = (b'{' ∷ b'}' ∷ b'{' ∷ []) ∷ (b'}' ∷ []) ∷ [];
  failure = some (Failure.transport_error "reset");
}
connections (suc n) = record { chunks = []; failure = some (Failure.transport_error "reset") }

reconnects_bounded_example :
    let (r, w) = events braces policy true connections 9 in
    (w.opened ≤ 2 * (delivered w.events + 1) + 1) × ((is_some r ≡ true) ⊎ (w.opened ≡ 9))
reconnects_bounded_example = reconnects_bounded braces braces-IsDecoder policy true connections 9

events_delivered_example :
    let (r, w) = events braces policy true connections 9 in
    w.events ≡ delivered_by braces true connections w.opened
events_delivered_example = events_delivered braces policy true connections 9

-- The first request is refused for its token, the others are served.
abbrev replies : ℕ → HttpRequest → StreamReply ℕ
replies zero q = refused (record { status_code = 401; headers = []; body = "expired" })
replies (suc n) q = served (connections n)

stream_requests_bounded_example :
    let (r, w) =
      stream_events
        (network (timed_out "timeout"))
        replies
        "/stream"
        "json"
        braces
        true
        fresh_trace
        9 in
    let s' =
      trace_after (network (timed_out "timeout")) replies "/stream" "json" fresh_trace w.opened in
    let most = (3 - 1) * (delivered w.events + 1) + 1 in
    ((is_some r ≡ true) ⊎ (w.opened ≡ 9))
    × (is_some
          (stream_chunks
            (network (timed_out "timeout"))
            replies
            "/stream"
            "json"
            (trace_after (network (timed_out "timeout")) replies "/stream" "json" fresh_trace 1)).0
        ≡ true)
    × (s'.refreshes ≤ 0 + most)
    × (length s'.sent ≤ 0 + 2 * most)
stream_requests_bounded_example =
    stream_requests_bounded (network (timed_out "timeout")) replies "/stream" "json" braces
      braces-IsDecoder true fresh_trace 9 1

-- The reader puts the one chunk of a stream and the end, and the consumer takes both.
abbrev one_chunk : List ℕ
one_chunk = 7 ∷ []

pipe_run :
    Steps (begin {E = ℕ} one_chunk none) (record {
      reader = finished;
      queue = [];
      consumer = ended;
      received = one_chunk;
      stop = true;
    })
pipe_run =
    after
      (after
        (after
          (after
            (after (after start (read_chunk 7 [] none refl refl))
              (put (chunk 7) (reading [] none) refl (omega arith)))
            (take_chunk 7 [] refl refl))
          (read_end none refl))
        (put sentinel finished refl (omega arith)))
      (take_sentinel [] refl refl)

stream-IsReceived_example :
    (length {A = Item ℕ ℕ} [] ≤ stream_queue_max_chunks)
    × IsReceived {E = ℕ} one_chunk none ended one_chunk
stream-IsReceived_example = stream-IsReceived one_chunk none pipe_run
