-- ===== src/Transport/Reader/Complete.antt =====
-- What the consumer of a stream gets (transport.py: `UrllibAsyncTransport.stream`).
use ts_api_wrapper.Base.{
  ◌≤◌, ◌<◌, ◌≡◌, ◌≢◌, refl, ap, sym, subst, ◌∙◌, true, false, Option, none, some, List, [], ◌∷◌,
  ◌++◌, append_assoc, length, length-append, arith,
}
use ts_api_wrapper.Transport.Reader.{
  stream_queue_max_chunks, Item, chunk, failure, sentinel, Reader, putting, Consumer, active, ended,
  failed_with, closed, Pipe, begin, Step, read_chunk, read_end, read_stopped, read_broken, put,
  cancel, take_chunk, take_failure, take_sentinel, close, Steps, start, after,
}
use ts_api_wrapper.Transport.Reader.Items.{
  items, ending, outstanding, outstanding-ends_with, items-snoc, items-sentinel, items-failure,
  items-prefix,
}

module _ {B E : Type 0} where
  -- What the consumer has got, by how it stands: it has all of the chunks when it ends or raises.
  abbrev pub IsReceived : List B → Option E → Consumer B E → List B → Type 0
  IsReceived cs e active rs = (more : List B) × (rs ++ more ≡ cs)
  IsReceived cs e ended rs = (rs ≡ cs) × (e ≡ none)
  IsReceived cs e (failed_with x) rs = (rs ≡ cs) × (e ≡ some x)
  IsReceived cs e closed rs = (more : List B) × (rs ++ more ≡ cs)

  -- While the consumer is active, what it has, what is queued and what is outstanding are the stream.
  abbrev IsFlowing : List B → Option E → Pipe B E → Type 0
  IsFlowing cs e p =
      (p.stop ≡ false) × (items p.received (p.queue ++ outstanding p.reader) ≡ items cs (ending e))

  record IsSound (cs : List B) (e : Option E) (p : Pipe B E) : Type 0 where
    bounded : length p.queue ≤ stream_queue_max_chunks
    flowing : p.consumer ≡ active → IsFlowing cs e p
    got : IsReceived cs e p.consumer p.received

  reader-IsSound :
      (cs : List B) (e : Option E) (p : Pipe B E) (next : Reader B E)
      → (p.stop ≡ false → outstanding next ≡ outstanding p.reader)
      → IsSound cs e p
      → IsSound cs e (record p { reader = next })
  reader-IsSound cs e p next same h = record {
    bounded = h.bounded;
    flowing = λ active_now.
        let (going, all_there) = h.flowing active_now in
        (going, ap (λ o. items p.received (p.queue ++ o)) (same going) ∙ all_there);
    got = h.got;
  }

  -- Once the consumer has stopped, the reader's moves make no difference.
  stopped-IsSound :
      (cs : List B) (e : Option E) (p : Pipe B E) (next : Reader B E)
      → p.stop ≡ true
      → IsSound cs e p
      → IsSound cs e (record p { reader = next })
  stopped-IsSound cs e p next stopped h =
      reader-IsSound cs e p next (λ going. absurd (cc (stopped, going))) h

  put-IsSound :
      (cs : List B) (e : Option E) (p : Pipe B E) (i : Item B E) (next : Reader B E)
      → p.reader ≡ putting i next
      → length p.queue < stream_queue_max_chunks
      → IsSound cs e p
      → IsSound cs e (record p { reader = next; queue = p.queue ++ (i ∷ []) })
  put-IsSound cs e p i next at room h = record {
    bounded = omega (arith, length-append p.queue (i ∷ []), room);
    flowing = λ active_now.
        let (going, all_there) = h.flowing active_now in
        (
          going,
          ap (items p.received) (
                append_assoc p.queue (i ∷ []) (outstanding next)
                ∙ ap (λ r. p.queue ++ outstanding r) (sym at))
              ∙ all_there,
        );
    got = h.got;
  }

  -- What is flowing when the first item of the queue is known.
  flowing_first :
      (cs : List B) (e : Option E) (p : Pipe B E) (i : Item B E) (q : List (Item B E))
      → p.consumer ≡ active
      → p.queue ≡ i ∷ q
      → IsSound cs e p
      → items p.received (i ∷ (q ++ outstanding p.reader)) ≡ items cs (ending e)
  flowing_first cs e p i q active_now first h =
      ap (λ queue. items p.received (queue ++ outstanding p.reader)) (sym first)
      ∙ (h.flowing active_now).1

  shorter :
      (cs : List B) (e : Option E) (p : Pipe B E) (i : Item B E) (q : List (Item B E))
      → p.queue ≡ i ∷ q
      → IsSound cs e p
      → length q ≤ stream_queue_max_chunks
  shorter cs e p i q first h = omega (arith, ap length first, h.bounded)

  take_chunk-IsSound :
      (cs : List B) (e : Option E) (p : Pipe B E) (c : B) (q : List (Item B E))
      → p.consumer ≡ active
      → p.queue ≡ chunk c ∷ q
      → IsSound cs e p
      → IsSound cs e (record p { queue = q; received = p.received ++ (c ∷ []) })
  take_chunk-IsSound cs e p c q active_now first h = record {
    bounded = shorter cs e p (chunk c) q first h;
    flowing = λ _. ((h.flowing active_now).0, flow);
    got =
        subst (λ k. IsReceived cs e k (p.received ++ (c ∷ []))) (sym active_now)
          (items-prefix (p.received ++ (c ∷ [])) cs e (q ++ outstanding p.reader) flow);
  }
    where
      flow : items (p.received ++ (c ∷ [])) (q ++ outstanding p.reader) ≡ items cs (ending e)
      flow =
          items-snoc p.received c (q ++ outstanding p.reader)
          ∙ flowing_first cs e p (chunk c) q active_now first h

  -- A step after which the consumer is not active any more.
  leaves-IsSound :
      (cs : List B) (e : Option E) (p : Pipe B E) (q : List (Item B E)) (k : Consumer B E)
      → length q ≤ stream_queue_max_chunks
      → k ≢ active
      → IsReceived cs e k p.received
      → IsSound cs e (record p { queue = q; consumer = k; stop = true })
  leaves-IsSound cs e p q k few left got = record {
    bounded = few;
    flowing = λ active_now. absurd (left active_now);
    got = got;
  }

  Step-IsSound :
      (cs : List B) (e : Option E) {p q : Pipe B E} → IsSound cs e p → Step p q → IsSound cs e q
  Step-IsSound cs e {p} h (read_chunk c rest x at going) =
      reader-IsSound cs e p _ (λ _. ap outstanding (sym at)) h
  Step-IsSound cs e {p} h (read_end x at) =
      reader-IsSound cs e p _ (λ _. outstanding-ends_with x ∙ ap outstanding (sym at)) h
  Step-IsSound cs e {p} h (read_stopped rest x at stopped) = stopped-IsSound cs e p _ stopped h
  Step-IsSound cs e {p} h (read_broken rest x y at stopped) = stopped-IsSound cs e p _ stopped h
  Step-IsSound cs e {p} h (put i next at room) = put-IsSound cs e p i next at room h
  Step-IsSound cs e {p} h (cancel i next at stopped) = stopped-IsSound cs e p _ stopped h
  Step-IsSound cs e {p} h (take_chunk c q active_now first) =
      take_chunk-IsSound cs e p c q active_now first h
  Step-IsSound cs e {p} h (take_failure x q active_now first) =
      leaves-IsSound cs e p q (failed_with x) (shorter cs e p (failure x) q first h)
        (λ same. absurd (cc))
        (items-failure p.received cs e x (q ++ outstanding p.reader)
          (flowing_first cs e p (failure x) q active_now first h))
  Step-IsSound cs e {p} h (take_sentinel q active_now first) =
      leaves-IsSound cs e p q ended (shorter cs e p sentinel q first h) (λ same. absurd (cc))
        (items-sentinel p.received cs e (q ++ outstanding p.reader)
          (flowing_first cs e p sentinel q active_now first h))
  Step-IsSound cs e {p} h (close active_now) =
      leaves-IsSound cs e p p.queue closed h.bounded (λ same. absurd (cc))
        (subst (λ k. IsReceived cs e k p.received) active_now h.got)

  Steps-IsSound :
      (cs : List B) (e : Option E) {p q : Pipe B E} → IsSound cs e p → Steps p q → IsSound cs e q
  Steps-IsSound cs e h start = h
  Steps-IsSound cs e h (after before last) = Step-IsSound cs e (Steps-IsSound cs e h before) last

  begin-IsSound : (cs : List B) (e : Option E) → IsSound cs e (begin cs e)
  begin-IsSound cs e = record {
    bounded = omega arith;
    flowing = λ _. (refl, refl);
    got = (cs, refl);
  }

-- In whatever order the reader thread and the consumer run, the queue holds at most 1024 items, and
-- the chunks that the consumer has yielded are the first ones of the stream, in order. When it ends,
-- they are all of its chunks, and no exception was raised; when it raises, they are all of the chunks
-- before that exception, which is the one that opening or reading the stream raised.
pub stream-IsReceived :
    {B E : Type 0} (chunks : List B) (e : Option E) {p : Pipe B E}
    → Steps (begin chunks e) p
    → (length p.queue ≤ stream_queue_max_chunks) × IsReceived chunks e p.consumer p.received
stream-IsReceived chunks e run =
    let sound = Steps-IsSound chunks e (begin-IsSound chunks e) run in (sound.bounded, sound.got)
