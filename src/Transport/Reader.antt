-- ===== src/Transport/Reader.antt =====
-- The reader thread of a stream and its consumer (transport.py: `UrllibAsyncTransport.stream`), which
-- share a queue of bounded length. What the stream yields is fixed: its chunks, and the exception that
-- opening or reading it raises after them, as `read_stream` maps it, if any.
pub mod Items
pub mod Complete
use ts_api_wrapper.Base.{
  ℕ, ◌<◌, ◌≡◌, Bool, true, false, Option, none, some, List, [], ◌∷◌, ◌++◌, length,
}

-- `STREAM_QUEUE_MAX_CHUNKS`
abbrev pub stream_queue_max_chunks : ℕ
stream_queue_max_chunks = 1024

module _ (B E : Type 0) where
  pub data Item : Type 0 where
    chunk : B → Item
    failure : E → Item
    -- the `None` that ends the queue
    sentinel : Item

  -- What the reader does next: read, put an item and go on, or nothing.
  pub data Reader : Type 0 where
    reading : List B → Option E → Reader
    putting : Item → Reader → Reader
    finished : Reader

  pub data Consumer : Type 0 where
    active : Consumer
    ended : Consumer
    failed_with : E → Consumer
    -- the generator was closed by its user
    closed : Consumer

  pub record Pipe : Type 0 where
    pub reader : Reader
    pub queue : List Item
    pub consumer : Consumer
    -- the chunks yielded, in order
    pub received : List B
    -- `stop_requested`
    pub stop : Bool

module _ {B E : Type 0} where
  -- The end of `read_stream`, its `finally` with it.
  abbrev pub ends_with : Option E → Reader B E
  ends_with none = putting sentinel finished
  ends_with (some e) = putting (failure e) (putting sentinel finished)

  abbrev pub begin : List B → Option E → Pipe B E
  begin chunks e = record {
    reader = reading chunks e;
    queue = [];
    consumer = active;
    received = [];
    stop = false;
  }

  pub data Step (p : Pipe B E) : Pipe B E → Type 0 where
    read_chunk :
        (c : B) (cs : List B) (e : Option E)
        → p.reader ≡ reading (c ∷ cs) e
        → p.stop ≡ false
        → Step p (record p { reader = putting (chunk c) (reading cs e) })
    read_end : (e : Option E) → p.reader ≡ reading [] e → Step p (record p { reader = ends_with e })
    read_stopped :
        (cs : List B) (e : Option E)
        → p.reader ≡ reading cs e
        → p.stop ≡ true
        → Step p (record p { reader = ends_with none })
    -- closing the stream may break a read
    read_broken :
        (cs : List B) (e : Option E) (x : E)
        → p.reader ≡ reading cs e
        → p.stop ≡ true
        → Step p (record p { reader = ends_with (some x) })
    put :
        (i : Item B E) (next : Reader B E)
        → p.reader ≡ putting i next
        → length p.queue < stream_queue_max_chunks
        → Step p (record p { reader = next; queue = p.queue ++ (i ∷ []) })
    -- the put is cancelled once the consumer has stopped
    cancel :
        (i : Item B E) (next : Reader B E)
        → p.reader ≡ putting i next
        → p.stop ≡ true
        → Step p (record p { reader = next })
    take_chunk :
        (c : B) (q : List (Item B E))
        → p.consumer ≡ active
        → p.queue ≡ chunk c ∷ q
        → Step p (record p { queue = q; received = p.received ++ (c ∷ []) })
    take_failure :
        (e : E) (q : List (Item B E))
        → p.consumer ≡ active
        → p.queue ≡ failure e ∷ q
        → Step p (record p { queue = q; consumer = failed_with e; stop = true })
    take_sentinel :
        (q : List (Item B E))
        → p.consumer ≡ active
        → p.queue ≡ sentinel ∷ q
        → Step p (record p { queue = q; consumer = ended; stop = true })
    close : p.consumer ≡ active → Step p (record p { consumer = closed; stop = true })

  pub data Steps (p : Pipe B E) : Pipe B E → Type 0 where
    start : Steps p p
    after : {q r : Pipe B E} → Steps p q → Step q r → Steps p r
