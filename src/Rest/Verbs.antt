-- ===== src/Rest/Verbs.antt =====
-- The requests of the REST client by method (rest.py: `get` to `delete_order_write`).
use ts_api_wrapper.Base.{String, true, false, Option, none, some}
use ts_api_wrapper.Base.Floats.{Floats}
use ts_api_wrapper.Json.{Json, Fields}
use ts_api_wrapper.Rest.{Env, Call, request_json}
use ts_api_wrapper.Rest.Run.{Run}

abbrev pub get_call : String → Call
get_call path = record {
  method = "GET";
  path = path;
  payload = none;
  retry_safe = true;
  ambiguous_operation = none;
  local_request_id = none;
}

abbrev pub post_call : String → Json → Call
post_call path payload = record {
  method = "POST";
  path = path;
  payload = some payload;
  retry_safe = true;
  ambiguous_operation = none;
  local_request_id = none;
}

abbrev pub post_order_write_call : String → Json → Option String → Call
post_order_write_call path payload id = record {
  method = "POST";
  path = path;
  payload = some payload;
  retry_safe = false;
  ambiguous_operation = some "submit order";
  local_request_id = id;
}

abbrev pub put_order_write_call : String → Json → Option String → Call
put_order_write_call path payload id = record {
  method = "PUT";
  path = path;
  payload = some payload;
  retry_safe = false;
  ambiguous_operation = some "replace order";
  local_request_id = id;
}

abbrev pub delete_order_write_call : String → Option String → Call
delete_order_write_call path id = record {
  method = "DELETE";
  path = path;
  payload = none;
  retry_safe = false;
  ambiguous_operation = some "cancel order";
  local_request_id = id;
}

module _ {fl : Floats} (env : Env fl) where
  abbrev pub get : String → Run fl Fields
  get path = request_json env (get_call path)

  abbrev pub post_read : String → Json → Run fl Fields
  post_read path payload = request_json env (post_call path payload)

  abbrev pub post_confirm : String → Json → Run fl Fields
  post_confirm path payload = request_json env (post_call path payload)

  abbrev pub post_order_write : String → Json → Option String → Run fl Fields
  post_order_write path payload id = request_json env (post_order_write_call path payload id)

  abbrev pub put_order_write : String → Json → Option String → Run fl Fields
  put_order_write path payload id = request_json env (put_order_write_call path payload id)

  abbrev pub delete_order_write : String → Option String → Run fl Fields
  delete_order_write path id = request_json env (delete_order_write_call path id)
