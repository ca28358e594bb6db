-- ===== src/Transport/Reader/Items.antt =====
-- The items that the reader thread puts into the queue (transport.py: `UrllibAsyncTransport.stream`).
use ts_api_wrapper.Base.{◌≡◌, refl, ap, Option, none, some, List, [], ◌∷◌, ◌++◌}
use ts_api_wrapper.Transport.Reader.{
  Item, chunk, failure, sentinel, Reader, reading, putting, finished, ends_with,
}

module _ {B E : Type 0} where
  abbrev pub items : List B → List (Item B E) → List (Item B E)
  items [] rest = rest
  items (c ∷ cs) rest = chunk c ∷ items cs rest

  abbrev pub ending : Option E → List (Item B E)
  ending none = sentinel ∷ []
  ending (some e) = failure e ∷ sentinel ∷ []

  -- What the reader is still to put.
  abbrev pub outstanding : Reader B E → List (Item B E)
  outstanding (reading cs e) = items cs (ending e)
  outstanding (putting i next) = i ∷ outstanding next
  outstanding finished = []

  pub outstanding-ends_with : (e : Option E) → outstanding (ends_with e) ≡ ending e
  outstanding-ends_with none = refl
  outstanding-ends_with (some e) = refl

  pub items-snoc :
      (rs : List B) (c : B) (rest : List (Item B E))
      → items (rs ++ (c ∷ [])) rest ≡ items rs (chunk c ∷ rest)
  items-snoc [] c rest = refl
  items-snoc (r ∷ rs) c rest = ap (λ x. chunk r ∷ x) (items-snoc rs c rest)

  -- Chunks before the end of the stream are all of its chunks.
  pub items-sentinel :
      (rs cs : List B) (e : Option E) (rest : List (Item B E))
      → items rs (sentinel ∷ rest) ≡ items cs (ending e)
      → (rs ≡ cs) × (e ≡ none)
  items-sentinel [] [] none rest h = (refl, refl)
  items-sentinel [] [] (some e) rest h = absurd (cc)
  items-sentinel [] (c ∷ cs) e rest h = absurd (cc)
  items-sentinel (r ∷ rs) [] none rest h = absurd (cc)
  items-sentinel (r ∷ rs) [] (some e) rest h = absurd (cc)
  items-sentinel (r ∷ rs) (c ∷ cs) e rest h =
      let (same, empty) = items-sentinel rs cs e rest (cc (h)) in (cc (h, same), empty)

  pub items-failure :
      (rs cs : List B) (e : Option E) (x : E) (rest : List (Item B E))
      → items rs (failure x ∷ rest) ≡ items cs (ending e)
      → (rs ≡ cs) × (e ≡ some x)
  items-failure [] [] none x rest h = absurd (cc)
  items-failure [] [] (some e) x rest h = (refl, cc (h))
  items-failure [] (c ∷ cs) e x rest h = absurd (cc)
  items-failure (r ∷ rs) [] none x rest h = absurd (cc)
  items-failure (r ∷ rs) [] (some e) x rest h = absurd (cc)
  items-failure (r ∷ rs) (c ∷ cs) e x rest h =
      let (same, found) = items-failure rs cs e x rest (cc (h)) in (cc (h, same), found)

  -- Chunks before anything are the first ones of the stream.
  pub items-prefix :
      (rs cs : List B) (e : Option E) (rest : List (Item B E))
      → items rs rest ≡ items cs (ending e)
      → (more : List B) × (rs ++ more ≡ cs)
  items-prefix [] cs e rest h = (cs, refl)
  items-prefix (r ∷ rs) [] none rest h = absurd (cc)
  items-prefix (r ∷ rs) [] (some e) rest h = absurd (cc)
  items-prefix (r ∷ rs) (c ∷ cs) e rest h =
      let (more, same) = items-prefix rs cs e rest (cc (h)) in (more, cc (h, same))
