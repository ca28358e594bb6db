-- ===== src/Redaction.antt =====
-- Redaction (src/tradestation_api_wrapper/redaction.py), over the Python values that reach it. The
-- two regular expressions of `redact_text` are an argument, `redact_text`.
pub mod Laws
pub mod Fragments
pub mod Json
use Prim.Native.Char.{code}
use ts_api_wrapper.Base.{
  ℕ, ◌+◌, String, Bool, true, false, ◌&&◌, List, [], ◌∷◌, map, any, leb, nat_eq, if◌then◌else◌,
}
use ts_api_wrapper.Base.Text.{codes, occurs}

-- A mapping, a text, another sequence, or any other object (an exception, a number, bytes), of
-- which its `str` is kept.
mutual
  pub data Value : Type 0 where
    mapping : Entries → Value
    text : String → Value
    sequence : Elements → Value
    object : String → Value

  pub data Entries : Type 0 where
    end : Entries
    entry : String → Value → Entries → Entries

  pub data Elements : Type 0 where
    nil : Elements
    cons : Value → Elements → Elements

abbrev pub sensitive_key_fragments : List String
sensitive_key_fragments =
    "access_token" ∷ "accountid" ∷ "account_id" ∷ "authorization" ∷ "client_secret"
    ∷ "orderconfirmid" ∷ "refresh_token" ∷ "token" ∷ []

abbrev pub redaction : String
redaction = "[REDACTED]"

-- `str.lower().replace("-", "_")` of a code point, where the result is ASCII; the results are only
-- searched for ASCII fragments, none of which ends in "i", so a character whose lower case is not
-- one ASCII character may stay as it is. The Kelvin sign is a "k".
pub normal_code : ℕ → ℕ
normal_code n =
    if leb b'A' n && leb n b'Z'
    then n + 32
    else if nat_eq n b'-'
    then b'_'
    else if nat_eq n 0x212a
    then b'k'
    else n

unfoldable pub is_sensitive : String → Bool
unfolding normal_code
is_sensitive key =
    any (λ fragment. occurs (codes fragment) (map normal_code (codes key))) sensitive_key_fragments

module _ (redact_text : String → String) where
  unfoldable mutual
    pub redact : Value → Value
    redact (mapping es) = mapping (redact_entries es)
    redact (text s) = text (redact_text s)
    redact (sequence vs) = sequence (redact_elements vs)
    redact (object s) = object s

    pub redact_entries : Entries → Entries
    redact_entries end = end
    redact_entries (entry key item es) =
        entry key (if is_sensitive key then text redaction else redact item) (redact_entries es)

    pub redact_elements : Elements → Elements
    redact_elements nil = nil
    redact_elements (cons v vs) = cons (redact v) (redact_elements vs)
