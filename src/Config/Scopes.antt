-- ===== src/Config/Scopes.antt =====
-- `tuple(x.strip() for x in value if x.strip())`, and `tuple(sorted(set(value)))`, of config.py.
use Prim.Native.Nat.{Ordering}
use Prim.Native.String.{compare}
use ts_api_wrapper.Base.{
  String, ◌≡◌, refl, true, false, ◌||◌, List, [], ◌∷◌, ◌==◌, eq_iff, contains, arith, All,
}
use ts_api_wrapper.Base.Text.{strip, strip_idem, is_blank}

unfoldable pub cleaned : List String → List String
unfolding strip
cleaned [] = []
cleaned (s ∷ ss) =
    let rest = cleaned ss in elim (is_blank (strip s)) [ true ↦ rest | false ↦ strip s ∷ rest ]

-- Texts are compared by code points, as the native comparison does.
insert : String → List String → List String
insert s [] = s ∷ []
insert s (t ∷ ts) =
    let rest = insert s ts in
    elim (compare s t) [ Ordering.lt ↦ s ∷ t ∷ ts | Ordering.eq ↦ t ∷ ts | Ordering.gt ↦ t ∷ rest ]

unfoldable pub sorted_set : List String → List String
unfolding insert
sorted_set [] = []
sorted_set (s ∷ ss) = insert s (sorted_set ss)

contains-insert :
    (s x : String) (ts : List String) → contains (insert s ts) x ≡ (s == x || contains ts x)
unfolding insert
contains-insert s x [] = refl
contains-insert s x (t ∷ ts) =
    ground (arith, contains-insert s x ts, eq_iff s t, eq_iff s x, eq_iff t x)

-- Sorting a set of texts keeps its members.
pub contains-sorted_set :
    (ss : List String) (x : String) → contains (sorted_set ss) x ≡ contains ss x
unfolding sorted_set
contains-sorted_set [] x = refl
contains-sorted_set (s ∷ ss) x =
    ground (arith, contains-insert s x (sorted_set ss), contains-sorted_set ss x)

-- A text that `strip` leaves alone, and that is not blank.
abbrev pub IsClean : String → Type 0
IsClean s = (strip s ≡ s) × (is_blank s ≡ false)

pub cleaned-IsClean : (ss : List String) → All IsClean (cleaned ss)
unfolding cleaned
cleaned-IsClean [] = tt
cleaned-IsClean (s ∷ ss) = ground (arith, cleaned-IsClean ss, strip_idem s)
