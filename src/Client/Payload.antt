-- ===== src/Client/Payload.antt =====
-- The orders of a response (client.py: `payload.get("Orders", ())`, each through `model_validate`).
use ts_api_wrapper.Base.{String, Option, none, some, List, [], ◌∷◌, map}
use ts_api_wrapper.Base.Floats.{Floats}
use ts_api_wrapper.Base.Result.{Result, ok, err, ◌>>=◌}
use ts_api_wrapper.Errors.{Error, type_error}
use ts_api_wrapper.Json.{Json, Fields, end, field, items}
use ts_api_wrapper.Json
use ts_api_wrapper.Models.Snapshots.{OrderSnapshot}
use ts_api_wrapper.Client.{Client}

abbrev keys : Fields → List Json
keys end = []
keys (field k _ fs) = Json.str k ∷ keys fs

unfoldable pub map_results {ℓ κ} :
    {A : Type ℓ} {B : Type κ} → (A → Result Error B) → List A → Result Error (List B)
map_results f [] = ok []
map_results f (a ∷ as') = do b ← f a; bs ← map_results f as'; ok (b ∷ bs)

module _ {fl : Floats} (client : Client fl) where
  -- iterating `payload.get("Orders", ())`
  unfoldable pub elements : Option Json → Result Error (List Json)
  elements none = ok []
  elements (some (Json.arr vs)) = ok (items vs)
  elements (some (Json.obj fs)) = ok (keys fs)
  elements (some (Json.str t)) = ok (map Json.str (client.characters t))
  elements (some _) = err (type_error "object is not iterable")

  -- `X.model_validate(item) for item in payload.get(key, ())`
  unfoldable pub items_of :
      {A : Type 0} → String → (Json → Result Error A) → Fields → Result Error (List A)
  unfolding elements map_results
  items_of key validate payload = do vs ← elements (Json.get payload key); map_results validate vs

  unfoldable pub orders_of : Fields → Result Error (List OrderSnapshot)
  unfolding elements map_results
  orders_of payload = do
    vs ← elements (Json.get payload "Orders")
    map_results client.order_snapshot vs
