-- ===== src/Client/Pages/Bounds.antt =====
-- Reading orders by pages ends (client.py: `_get_order_pages`).
use ts_api_wrapper.Base.{
  ℕ, zero, suc, ◌+◌, ◌*◌, ◌-◌, ◌≤◌, String, ◌≡◌, refl, Bool, true, false, Option, none, some, List,
  [], ◌∷◌, ◌++◌, length, is_some, contains, arith,
}
use Prim.Native.String
use native.Mathlib.Nat.{suc-mul}
use ts_api_wrapper.Base.Floats.{Floats}
use ts_api_wrapper.Base.Result.{Result, ok, err}
use ts_api_wrapper.Errors.{Error, Failure}
use ts_api_wrapper.Models.Snapshots.{OrderSnapshot}
use ts_api_wrapper.Rest.{Trace}
use ts_api_wrapper.Rest.Loop.{request_json_ends}
use ts_api_wrapper.Rest.Verbs.{get, get_call}
use ts_api_wrapper.Rest.Run.{Run, ◌>>=◌, continue, locally}
use ts_api_wrapper.Client.{Client, Params, query_string}
use ts_api_wrapper.Client.Payload.{orders_of}
use ts_api_wrapper.Client.Pages.{pages_from, read_on, turn_page, get_order_pages, next_params}

module _ {fl : Floats} (client : Client fl) where
  -- what one page may send
  abbrev pub page_requests : ℕ
  page_requests = (client.rest.policy.max_attempts - 1) + 2

  -- what some pages may send
  abbrev pub requests : ℕ → ℕ
  requests zero = 0
  requests (suc n) = page_requests + requests n

  abbrev Ends : {A : Type 0} → ℕ → ℕ → Option (Result (Failure fl.F) A) × Trace fl → Type 0
  Ends n before (r, s) = (is_some r ≡ true) × (length s.sent ≤ before + n)

  -- A step and what follows it.
  continue-Ends :
      {A B : Type 0} (m n before : ℕ) (k : A → Run fl B)
      (p : Option (Result (Failure fl.F) A) × Trace fl)
      → Ends m before p
      → ((a : A) (s : Trace fl) → Ends n (length s.sent) (k a s))
      → Ends (m + n) before (continue k p)
  unfolding continue
  continue-Ends m n before k (some (ok a), s) (found, few) h =
      let (found', few') = h a s in (found', omega (arith, few, few'))
  continue-Ends m n before k (some (err e), s) (found, few) h = (refl, omega (arith, few))
  continue-Ends m n before k (none, s) (found, few) h = absurd (cc)

  >>=-Ends :
      {A B : Type 0} (m n : ℕ) (r : Run fl A) (k : A → Run fl B) (s : Trace fl)
      → Ends m (length s.sent) (r s)
      → ((a : A) (s' : Trace fl) → Ends n (length s'.sent) (k a s'))
      → Ends (m + n) (length s.sent) ((r >>= k) s)
  unfolding ◌>>=◌
  >>=-Ends m n r k s = continue-Ends m n (length s.sent) k (r s)

  locally-Ends :
      {A B : Type 0} (n : ℕ) (r : Result Error A) (k : A → Run fl B) (s : Trace fl)
      → ((a : A) → Ends n (length s.sent) (k a s))
      → Ends n (length s.sent) ((locally r >>= k) s)
  unfolding ◌>>=◌ continue
  locally-Ends n (ok a) k s h = h a
  locally-Ends n (err e) k s h = (refl, omega arith)

  read_on-Ends :
      (n : ℕ) (rest : String → Run fl (List OrderSnapshot)) (t : String) (b : Bool) (s : Trace fl)
      → ((t : String) → Ends n (length s.sent) (rest t s))
      → Ends n (length s.sent) (read_on client rest t b s)
  read_on-Ends n rest t true s h = (refl, omega arith)
  read_on-Ends n rest t false s h = h t

  turn_page-Ends :
      (n : ℕ) (rest : String → Run fl (List OrderSnapshot)) (seen : List String)
      (orders : List OrderSnapshot) (token : Option String) (s : Trace fl)
      → ((t : String) → Ends n (length s.sent) (rest t s))
      → Ends n (length s.sent) (turn_page client rest seen orders token s)
  unfolding turn_page
  turn_page-Ends n rest seen orders none s h = (refl, omega arith)
  turn_page-Ends n rest seen orders (some t) s h = read_on-Ends n rest t (contains seen t) s h

  page-Ends :
      (path : String) (s : Trace fl) → Ends page_requests (length s.sent) (get client.rest path s)
  page-Ends path s =
      let (found, few) = request_json_ends client.rest (get_call path) s in
      (found, omega (arith, few))

  pages_from-Ends :
      (n : ℕ) (base : String) (params : Params) (token : Option String) (seen : List String)
      (orders : List OrderSnapshot) (s : Trace fl)
      → Ends (requests n) (length s.sent) (pages_from client n base params token seen orders s)
  unfolding pages_from
  pages_from-Ends zero base params token seen orders s = (refl, omega arith)
  pages_from-Ends (suc n) base params token seen orders s =
      >>=-Ends page_requests (requests n) (get client.rest _) _ s
        (page-Ends
          (Prim.Native.String.◌++◌ base (query_string client (params ++ next_params token))) s)
        (λ payload s'. locally-Ends (requests n) (orders_of client payload) _ s' (λ found.
          turn_page-Ends (requests n) _ seen _ _ s'
            (λ t. pages_from-Ends n base params (some t) (t ∷ seen) (orders ++ found) s')))

  requests_times : (n : ℕ) → requests n ≡ n * page_requests
  requests_times zero = omega arith
  requests_times (suc n) = omega (arith, suc-mul n page_requests, requests_times n)

-- Whatever the server sends, also a server whose pages never end, reading orders by pages returns or
-- raises, having sent for each of at most `max_order_pages` pages at most the requests of one
-- `request_json`.
pub get_order_pages_ends :
    {fl : Floats} (client : Client fl) (base : String) (params : Params) (s : Trace fl)
    → let (r, s') = get_order_pages client base params s in
      (is_some r ≡ true)
      × (length s'.sent
          ≤ length s.sent + client.max_order_pages * ((client.rest.policy.max_attempts - 1) + 2))
unfolding get_order_pages
get_order_pages_ends client base params s =
    let (found, few) = pages_from-Ends client client.max_order_pages base params none [] [] s in
    (found, omega (arith, few, requests_times client client.max_order_pages))
