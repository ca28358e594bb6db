-- ===== src/Stream/Events/Counted.antt =====
-- The reconnects counted while a connection is read (stream.py: `TradeStationStream.events`).
use ts_api_wrapper.Base.{
  ℕ, suc, ◌+◌, ◌≤◌, ◌≡◌, refl, sym, subst, ◌⊎◌, inl, inr, Bool, true, false, ◌&&◌, Option, none,
  some, List, [], ◌∷◌, ◌++◌, is_some, length, arith,
}
use ts_api_wrapper.Base.Result.{Result, ok, err}
use ts_api_wrapper.Errors.{Error, Failure}
use ts_api_wrapper.Json.{Json, Fields}
use ts_api_wrapper.Stream.{classify_stream_message}
use ts_api_wrapper.Stream.Parser.{feed}
use ts_api_wrapper.Stream.Fuel.{IsDecoder, parse_ends}
use ts_api_wrapper.Stream.Events.{
  StreamEvent, is_error, is_go_away, Stop, went_on, went_away, raised, Progress, after_events,
  handle_message, handle_messages, ending, after_chunk, after_feed, read_chunks,
}

abbrev pub unless_away : Bool → ℕ → ℕ
unless_away true n = n
unless_away false n = n + 1

-- How many of the events are no GO_AWAY.
unfoldable pub delivered : List StreamEvent → ℕ
delivered [] = 0
delivered (e ∷ es) = unless_away (is_go_away e.kind) (delivered es)

pub delivered-append :
    (es fs : List StreamEvent) → delivered (es ++ fs) ≡ delivered es + delivered fs
unfolding delivered
delivered-append [] fs = omega arith
delivered-append (e ∷ es) fs = go (is_go_away e.kind) (delivered-append es fs)
  where
    go :
        (b : Bool)
        → delivered (es ++ fs) ≡ delivered es + delivered fs
        → unless_away b (delivered (es ++ fs)) ≡ unless_away b (delivered es) + delivered fs
    go true h = h
    go false h = omega (arith, h)

-- The count of reconnects is left as it was, or events other than a GO_AWAY came and it starts anew.
abbrev pub IsCounted : ℕ → List StreamEvent → ℕ → Type 0
IsCounted r es n = (n ≤ r) × ((n ≡ r) ⊎ (1 ≤ delivered es))

IsCounted-append :
    (r m n : ℕ) (es fs : List StreamEvent)
    → IsCounted r es m
    → IsCounted m fs n
    → IsCounted r (es ++ fs) n
IsCounted-append r m n es fs (p, a) (q, b) =
    (omega (arith, p, q), ground (arith, delivered-append es fs))

handle_messages-IsCounted :
    (F : Type 0) (raise_on_error : Bool) (r : ℕ) (ms : List Fields)
    → let p : Progress F = handle_messages raise_on_error r ms in IsCounted r p.events p.reconnects
unfolding handle_messages delivered
handle_messages-IsCounted F raise_on_error r [] = (omega arith, inl refl)
handle_messages-IsCounted F raise_on_error r (m ∷ ms) =
    go (raise_on_error && is_error (classify_stream_message m))
      (is_go_away (classify_stream_message m)) refl
      (handle_messages-IsCounted F raise_on_error 0 ms)
  where
    rest : Progress F
    rest = handle_messages raise_on_error 0 ms

    go :
        (e away : Bool)
        → is_go_away (classify_stream_message m) ≡ away
        → IsCounted 0 rest.events rest.reconnects
        → let p : Progress F = handle_message r m e away rest in IsCounted r p.events p.reconnects
    go true away q h = (omega arith, inl refl)
    go false true q h = (omega arith, inl refl)
    go false false q h = (
      omega (arith, h.0),
      inr (subst (λ b. 1 ≤ unless_away b (delivered rest.events)) (sym q) (omega arith)),
    )

module _ {F : Type 0} where
  abbrev pub IsCountedProgress : ℕ → Option (Progress F) → Type 0
  IsCountedProgress r none = Unit
  IsCountedProgress r (some p) = IsCounted r p.events p.reconnects

  ending-IsCounted :
      (r : ℕ) (failure : Option (Failure F)) → IsCountedProgress r (some (ending r failure))
  ending-IsCounted r none = (omega arith, inl refl)
  ending-IsCounted r (some e) = (omega arith, inl refl)

  after_chunk-IsCounted :
      (r n : ℕ) (es : List StreamEvent) (stop : Stop F) (rest : ℕ → Option (Progress F))
      → IsCounted r es n
      → ((m : ℕ) → IsCountedProgress m (rest m))
      → IsCountedProgress r (after_chunk es n stop rest)
  after_chunk-IsCounted r n es went_away rest c h = c
  after_chunk-IsCounted r n es (raised e) rest c h = c
  after_chunk-IsCounted r n es went_on rest c h = go (rest n) (h n)
    where
      go :
          (o : Option (Progress F))
          → IsCountedProgress n o
          → IsCountedProgress r (elim o [ none ↦ none | some p ↦ some (after_events es p) ])
      go none k = tt
      go (some p) k = IsCounted-append r n p.reconnects es p.events c k

module _ (raw_decode : List ℕ → Option (Json × List ℕ)) (law : IsDecoder raw_decode) {F : Type 0}
    (raise_on_error : Bool) where
  -- A connection is read to its end, with the reconnects counted.
  abbrev pub IsRead : ℕ → Option (Progress F) → Type 0
  IsRead r o = (is_some o ≡ true) × IsCountedProgress r o

  after_chunk-is_some :
      (n : ℕ) (es : List StreamEvent) (stop : Stop F) (rest : ℕ → Option (Progress F))
      → ((m : ℕ) → is_some (rest m) ≡ true)
      → is_some (after_chunk es n stop rest) ≡ true
  after_chunk-is_some n es went_away rest h = refl
  after_chunk-is_some n es (raised e) rest h = refl
  after_chunk-is_some n es went_on rest h = go (rest n) (h n)
    where
      go :
          (o : Option (Progress F))
          → is_some o ≡ true
          → is_some (elim o [ none ↦ none | some p ↦ some (after_events es p) ]) ≡ true
      go none k = absurd (cc)
      go (some p) k = refl

  after_feed-IsRead :
      (r : ℕ) (fed : Option (Result Error (List Fields × List ℕ)))
      (rest : List ℕ → ℕ → Option (Progress F))
      → is_some fed ≡ true
      → ((left : List ℕ) (m : ℕ) → IsRead m (rest left m))
      → IsRead r (after_feed raw_decode raise_on_error r fed rest)
  after_feed-IsRead r none rest e h = absurd (cc)
  after_feed-IsRead r (some (err x)) rest e h = (refl, (omega arith, inl refl))
  after_feed-IsRead r (some (ok (ms, left))) rest e h =
      let p : Progress F = handle_messages raise_on_error r ms in
      (
        after_chunk-is_some p.reconnects p.events p.stop (rest left) (λ m. (h left m).0),
        after_chunk-IsCounted r p.reconnects p.events p.stop (rest left)
            (handle_messages-IsCounted F raise_on_error r ms) (λ m. (h left m).1),
      )

  pub read_chunks-IsRead :
      (chunks : List (List ℕ)) (failure : Option (Failure F)) (buffer : List ℕ) (r : ℕ)
      → IsRead r (read_chunks raw_decode raise_on_error chunks failure buffer r)
  unfolding read_chunks feed
  read_chunks-IsRead [] failure buffer r = (refl, ending-IsCounted r failure)
  read_chunks-IsRead (chunk ∷ chunks) failure buffer r =
      after_feed-IsRead r (feed raw_decode buffer chunk) _
        (parse_ends raw_decode law (suc (length (buffer ++ chunk))) (buffer ++ chunk) (omega arith))
        (λ left m. read_chunks-IsRead chunks failure left m)
