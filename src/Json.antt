-- ===== src/Json.antt =====
-- Values of JSON as `json.loads` gives them, with the operations of Python's dicts on objects. A
-- number is held as the text that `str` prints, with whether it is zero.
use open_devops_agent.Prelude.{
  Bool, true, false, not, ◌&&◌, Option, none, some, List, [], ◌∷◌, length, ◌==◌, if◌then◌else◌, ◌≡◌,
  refl, arith, Bool-cases, inl, inr,
}
use open_devops_agent.Text.{Text, codes, text_eq, is_empty}
use open_devops_agent.Text.Laws.{text_eq_refl, eq_of_text_eq}

mutual
  pub data Json : Type 0 where
    null : Json
    boolean : Bool → Json
    number : Bool → Text → Json
    string : Text → Json
    array : Items → Json
    object : Fields → Json

  pub data Items : Type 0 where
    nil : Items
    item : Json → Items → Items

  pub data Fields : Type 0 where
    end : Fields
    field : Text → Json → Fields → Fields

-- bool(value)
unfoldable pub truthy : Json → Bool
truthy null = false
truthy (boolean b) = b
truthy (number is_zero _) = not is_zero
truthy (string s) = not (is_empty s)
truthy (array nil) = false
truthy (array (item _ _)) = true
truthy (object end) = false
truthy (object (field _ _ _)) = true

-- d.get(name)
unfoldable pub get_field : Text → Fields → Option Json
get_field name end = none
get_field name (field k v fs) = if text_eq k name then some v else get_field name fs

-- d[name] = value
unfoldable pub set_field : Text → Json → Fields → Fields
set_field name value end = field name value end
set_field name value (field k v fs) =
    if text_eq k name then field k value fs else field k v (set_field name value fs)

abbrev set_if_none : Option Json → Text → Json → Fields → Fields
set_if_none none name value fs = set_field name value fs
set_if_none (some v) name value fs = fs

-- d.setdefault(name, value)
unfoldable pub set_default : Text → Json → Fields → Fields
set_default name value fs = set_if_none (get_field name fs) name value fs

-- {**base, **fs without the name}
unfoldable pub merge_without : Text → Fields → Fields → Fields
merge_without name base end = base
merge_without name base (field k v fs) =
    let set = merge_without name (set_field k v base) fs in
    let skipped = merge_without name base fs in if text_eq k name then skipped else set

abbrev pub or_value : Option Json → Json → Json
or_value none other = other
or_value (some v) other = if truthy v then v else other

-- str(value), given the repr of lists and dicts
unfoldable pub str_of : (Json → Text) → Json → Text
str_of repr null = codes "None"
str_of repr (boolean true) = codes "True"
str_of repr (boolean false) = codes "False"
str_of repr (number _ s) = s
str_of repr (string s) = s
str_of repr (array items) = repr (array items)
str_of repr (object fields) = repr (object fields)

-- d.get(name, None)
abbrev pub value_of : Option Json → Json
value_of none = null
value_of (some v) = v

-- value == "text"
abbrev pub is_string : Text → Json → Bool
is_string s (string t) = text_eq s t
is_string s _ = false

-- a or b
abbrev pub or_json : Json → Json → Json
or_json v other = if truthy v then v else other

-- value in (None, "")
abbrev pub is_blank : Json → Bool
is_blank null = true
is_blank (string []) = true
is_blank _ = false

-- A field that was set is read back, and the others are left alone.
pub get_field-set_field :
    (name : Text) (value : Json) (fs : Fields)
    → get_field name (set_field name value fs) ≡ some value
unfolding get_field set_field
get_field-set_field name value end = ground (arith, text_eq_refl name)
get_field-set_field name value (field k v fs) = ground (arith, get_field-set_field name value fs)

pub get_field-set_field_other :
    (other name : Text) (value : Json) (fs : Fields)
    → text_eq name other ≡ false
    → get_field other (set_field name value fs) ≡ get_field other fs
unfolding get_field set_field
get_field-set_field_other other name value end h = rw h refl
get_field-set_field_other other name value (field k v fs) h = elim (Bool-cases (text_eq k name)) [
  | inl same ↦ rw (same, eq_of_text_eq k name same, h) refl
  | inr apart ↦ rw (apart, get_field-set_field_other other name value fs h) refl
]

pub get_field-set_default_other :
    (other name : Text) (value : Json) (fs : Fields)
    → text_eq name other ≡ false
    → get_field other (set_default name value fs) ≡ get_field other fs
unfolding set_default
get_field-set_default_other other name value fs h = by_entry (get_field name fs)
  where
    by_entry :
        (found : Option Json)
        → get_field other (set_if_none found name value fs) ≡ get_field other fs
    by_entry none = get_field-set_field_other other name value fs h
    by_entry (some v) = refl

-- a == b: objects are compared whatever the order of their fields.
abbrev pub same_bool : Bool → Bool → Bool
same_bool true b = b
same_bool false b = not b

abbrev field_count : Fields → List Text
field_count end = []
field_count (field k v fs) = k ∷ field_count fs

unfoldable mutual
  pub same_json : Json → Json → Bool
  same_json null null = true
  same_json (boolean a) (boolean b) = same_bool a b
  same_json (number _ a) (number _ b) = text_eq a b
  same_json (string a) (string b) = text_eq a b
  same_json (array xs) (array ys) = same_items xs ys
  same_json (object fs) (object gs) =
      fields_in fs gs && length (field_count fs) == length (field_count gs)
  same_json _ _ = false

  pub same_items : Items → Items → Bool
  same_items nil nil = true
  same_items (item x xs) (item y ys) = same_json x y && same_items xs ys
  same_items _ _ = false

  -- Each field of the first stands in the second.
  pub fields_in : Fields → Fields → Bool
  fields_in end gs = true
  fields_in (field k v fs) gs =
      elim (get_field k gs) [ none ↦ false | some w ↦ same_json v w ] && fields_in fs gs
