-- ===== src/Redaction/Laws.antt =====
-- What redaction leaves of a value (redaction.py).
use ts_api_wrapper.Base.{String, Bool-cases, inl, inr, arith}
use ts_api_wrapper.Redaction.Fragments.{IsSecret, IsSecret-is_sensitive, is_sensitive-IsSecret}
use ts_api_wrapper.Redaction.{
  Value, mapping, text, sequence, object, Entries, end, entry, Elements, nil, cons, redaction,
  is_sensitive, redact, redact_entries, redact_elements,
}

-- The second value is the first one with a mark in place of each item under a secret key, and with
-- each other text redacted.
mutual
  pub data IsRedacted (redact_text : String → String) : Value → Value → Type 0 where
    mapping_of :
        {es es' : Entries}
        → AreRedacted redact_text es es'
        → IsRedacted redact_text (mapping es) (mapping es')
    text_of : {s : String} → IsRedacted redact_text (text s) (text (redact_text s))
    sequence_of :
        {vs vs' : Elements}
        → EachRedacted redact_text vs vs'
        → IsRedacted redact_text (sequence vs) (sequence vs')
    kept_object : {s : String} → IsRedacted redact_text (object s) (object s)

  pub data AreRedacted (redact_text : String → String) : Entries → Entries → Type 0 where
    no_entry : AreRedacted redact_text end end
    secret_entry :
        {key : String} {item : Value} {es es' : Entries}
        → IsSecret key
        → AreRedacted redact_text es es'
        → AreRedacted redact_text (entry key item es) (entry key (text redaction) es')
    open_entry :
        {key : String} {item item' : Value} {es es' : Entries}
        → ¬ IsSecret key
        → IsRedacted redact_text item item'
        → AreRedacted redact_text es es'
        → AreRedacted redact_text (entry key item es) (entry key item' es')

  pub data EachRedacted (redact_text : String → String) : Elements → Elements → Type 0 where
    no_element : EachRedacted redact_text nil nil
    element :
        {v v' : Value} {vs vs' : Elements}
        → IsRedacted redact_text v v'
        → EachRedacted redact_text vs vs'
        → EachRedacted redact_text (cons v vs) (cons v' vs')

module _ (redact_text : String → String) where
  mutual
    unfolding redact

    value-IsRedacted : (v : Value) → IsRedacted redact_text v (redact redact_text v)
    value-IsRedacted (mapping es) = mapping_of (redact_entries-AreRedacted es)
    value-IsRedacted (text s) = text_of
    value-IsRedacted (sequence vs) = sequence_of (redact_elements-EachRedacted vs)
    value-IsRedacted (object s) = kept_object

    redact_entries-AreRedacted :
        (es : Entries) → AreRedacted redact_text es (redact_entries redact_text es)
    redact_entries-AreRedacted end = no_entry
    redact_entries-AreRedacted (entry key item es) = elim (Bool-cases (is_sensitive key)) [
      | inl e ↦ rw e (secret_entry (is_sensitive-IsSecret key e) (redact_entries-AreRedacted es))
      | inr e ↦ rw e (
          open_entry
            (λ secret. let found = IsSecret-is_sensitive key secret in ground (arith, e, found))
            (value-IsRedacted item) (redact_entries-AreRedacted es))
    ]

    redact_elements-EachRedacted :
        (vs : Elements) → EachRedacted redact_text vs (redact_elements redact_text vs)
    redact_elements-EachRedacted nil = no_element
    redact_elements-EachRedacted (cons v vs) =
        element (value-IsRedacted v) (redact_elements-EachRedacted vs)

-- Redaction keeps the structure of a value, its keys and the objects in it that are no mapping, text or
-- sequence. At every depth the item under a key that spells one of the secret words, in any case and
-- with dashes for underscores, is the redaction mark; under any other key a text is what `redact_text`
-- gives back for it.
pub redact-IsRedacted :
    (redact_text : String → String) (v : Value) → IsRedacted redact_text v (redact redact_text v)
redact-IsRedacted redact_text v = value-IsRedacted redact_text v
