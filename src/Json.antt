-- ===== src/Json.antt =====
-- JSON values as Python holds them after `json.loads` (`dict[str, Any]`), and the look-ups that the
-- program makes in a response: `payload.get(key)`, `key in payload`, `isinstance(value, str)`.
use ts_api_wrapper.Base.{
  String, Bool, Option, none, some, List, [], ◌∷◌, ◌==◌, if◌then◌else◌, is_some,
}
use ts_api_wrapper.Base.Int.{ℤ}

mutual
  pub data Json : Type 0 where
    null : Json
    bool : Bool → Json
    int : ℤ → Json
    -- a float: whether it is true (not zero), and its text
    float : Bool → String → Json
    str : String → Json
    arr : Items → Json
    obj : Fields → Json

  pub data Items : Type 0 where
    nil : Items
    cons : Json → Items → Items

  -- the entries of a dict; each key stands once
  pub data Fields : Type 0 where
    end : Fields
    field : String → Json → Fields → Fields

-- `payload.get(key)`
unfoldable pub get : Fields → String → Option Json
get end key = none
get (field k v fs) key = if k == key then some v else get fs key

-- `key in payload`
unfoldable pub has : Fields → String → Bool
unfolding get
has fs key = is_some (get fs key)

abbrev pub items : Items → List Json
items nil = []
items (cons v vs) = v ∷ items vs

-- the elements of an array that are objects
abbrev pub objects : Items → List Fields
objects nil = []
objects (cons (obj fs) vs) = fs ∷ objects vs
objects (cons _ vs) = objects vs

abbrev pub as_text : Option Json → Option String
as_text (some (str s)) = some s
as_text _ = none
