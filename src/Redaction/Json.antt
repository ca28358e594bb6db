-- ===== src/Redaction/Json.antt =====
-- Redaction of a JSON value (redaction.py: `redact` of what `json.loads` returns).
use ts_api_wrapper.Base.{String, if◌then◌else◌}
use ts_api_wrapper.Json.{Json, Items, Fields, obj, end, field}
use ts_api_wrapper.Redaction.{is_sensitive, redaction}

module _ (redact_text : String → String) where
  unfoldable mutual
    pub redact_json : Json → Json
    redact_json (obj fs) = obj (redact_fields fs)
    redact_json (Json.str s) = Json.str (redact_text s)
    redact_json (Json.arr vs) = Json.arr (redact_items vs)
    redact_json v = v

    pub redact_fields : Fields → Fields
    redact_fields end = end
    redact_fields (field k v fs) =
        field k (if is_sensitive k then Json.str redaction else redact_json v) (redact_fields fs)

    pub redact_items : Items → Items
    redact_items Items.nil = Items.nil
    redact_items (Items.cons v vs) = Items.cons (redact_json v) (redact_items vs)
