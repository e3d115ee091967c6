-- ===== src/Json.antt =====
-- Documents as encoding/json decodes them, and the walks of internal/proxy/sse.go over them. A nil
-- `any` is `null`, a decoded map is `Fields` with each key once, and a float64 is its 64 bits.
use Prim.Native.String.{String}
use text.Mathlib.Text.{◌==◌ as str_eq}
use wildtoken.Prelude.{ℕ, Bool, true, false, not, Option, none, some, List, [], ◌∷◌, if◌then◌else◌}

mutual
  pub data Json : Type 0 where
    null : Json
    boolean : Bool → Json
    number : ℕ → Json
    string : String → Json
    array : Items → Json
    object : Fields → Json

  pub data Items : Type 0 where
    nil : Items
    cons : Json → Items → Items

  pub data Fields : Type 0 where
    end : Fields
    field : String → Json → Fields → Fields

-- `m[key]`, and `_, ok := m[key]`.
abbrev pub at : Fields → String → Json
at end k = null
at (field j v fs) k = if str_eq j k then v else at fs k

abbrev pub has : Fields → String → Bool
has end k = false
has (field j v fs) k = if str_eq j k then true else has fs k

-- `m[key] = value`
abbrev pub put : String → Json → Fields → Fields
put k v end = field k v end
put k v (field j w fs) = if str_eq j k then field j v fs else field j w (put k v fs)

-- maps.Copy(dst, src)
unfoldable pub copy : Fields → Fields → Fields
copy dst end = dst
copy dst (field k v fs) = copy (put k v dst) fs

unfoldable pub value_at : Json → List String → Json
value_at v [] = v
value_at (object fs) (k ∷ ks) = value_at (at fs k) ks
value_at null (k ∷ ks) = null
value_at (boolean b) (k ∷ ks) = null
value_at (number n) (k ∷ ks) = null
value_at (string t) (k ∷ ks) = null
value_at (array xs) (k ∷ ks) = null

-- The map that a value is, if it is one.
abbrev pub fields_of : Json → Option Fields
fields_of (object fs) = some fs
fields_of null = none
fields_of (boolean b) = none
fields_of (number n) = none
fields_of (string t) = none
fields_of (array xs) = none

-- objectAt; `none` is a nil map.
unfoldable pub object_at : Json → List String → Option Fields
unfolding value_at
object_at v ks = fields_of (value_at v ks)

abbrev pub text_of : Json → Option String
text_of (string t) = some t
text_of null = none
text_of (boolean b) = none
text_of (number n) = none
text_of (array xs) = none
text_of (object fs) = none

-- `text, _ := value.(string)`
abbrev pub text_or_empty : Json → String
text_or_empty v = elim (text_of v) [ none ↦ "" | some t ↦ t ]

unfoldable pub non_empty_string : Json → Bool
non_empty_string v = elim (text_of v) [ none ↦ false | some t ↦ not (str_eq t "") ]

abbrev pub items_of : Json → Items
items_of (array xs) = xs
items_of null = nil
items_of (boolean b) = nil
items_of (number n) = nil
items_of (string t) = nil
items_of (object fs) = nil

unfoldable pub non_empty_array : Json → Bool
non_empty_array v = elim (items_of v) [ nil ↦ false | cons x xs ↦ true ]

abbrev pub is_null : Json → Bool
is_null null = true
is_null (boolean b) = false
is_null (number n) = false
is_null (string t) = false
is_null (array xs) = false
is_null (object fs) = false

-- Whether a predicate holds of some item.
abbrev pub any_item : (Json → Bool) → Items → Bool
any_item p nil = false
any_item p (cons x xs) = if p x then true else any_item p xs
