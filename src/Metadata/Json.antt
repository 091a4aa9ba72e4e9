-- ===== src/Metadata/Json.antt =====
-- The calls of the JSON library that device-sdk-c/src/c/edgex-rest.c makes. A value that another one
-- holds is not changed behind its back, except where a definition says so.
pub mod Fields
use device_service_zigbee.Prelude.{
  ℕ, ◌^◌, ◌≤◌, ◌≡◌, ◌≢◌, Bool, true, ltb, ◌&&◌, Option, none, some, List, [], ◌∷◌, ◌++◌, Bytes,
  str_eq, if◌then◌else◌,
}

abbrev pub is_ascii : Bytes → Bool
is_ascii [] = true
is_ascii (c ∷ s) = ltb c 128 && is_ascii s

-- `is_text` says which texts the library takes for strings: it wants UTF-8. Numbers are doubles.
pub record Json : Type 1 where
  pub Value : Type 0
  pub Object : Type 0
  pub is_text : Bytes → Bool
  pub string : Bytes → Value
  pub number : ℕ → Value
  pub boolean : Bool → Value
  pub array : List Value → Value
  pub object : Object → Value
  pub as_string : Value → Option Bytes
  pub as_number : Value → Option ℕ
  pub as_boolean : Value → Option Bool
  pub as_array : Value → Option (List Value)
  pub as_object : Value → Option Object
  pub empty : Object
  pub set : Object → Bytes → Value → Object
  pub get : Object → Bytes → Option Value
  -- names and values by index
  pub members : Object → List (Bytes × Value)
  pub is_text-is_ascii : (s : Bytes) → is_ascii s ≡ true → is_text s ≡ true
  pub as_string-string : (s : Bytes) → as_string (string s) ≡ some s
  pub as_number-number : (n : ℕ) → n ≤ 2 ^ 53 → as_number (number n) ≡ some n
  pub as_boolean-boolean : (b : Bool) → as_boolean (boolean b) ≡ some b
  pub as_array-array : (vs : List Value) → as_array (array vs) ≡ some vs
  pub as_object-object : (o : Object) → as_object (object o) ≡ some o
  pub get-empty : (k : Bytes) → get empty k ≡ none
  pub get-set_self : (o : Object) (k : Bytes) (v : Value) → get (set o k v) k ≡ some v
  pub get-set_ne : (o : Object) (j k : Bytes) (v : Value) → j ≢ k → get (set o k v) j ≡ get o j
  pub members-empty : members empty ≡ []
  pub members-set_new :
      (o : Object) (k : Bytes) (v : Value)
      → get o k ≡ none
      → members (set o k v) ≡ members o ++ (k, v) ∷ []

-- the value, or a default
abbrev pub first : {A : Type 0} → Option A → A → A
first none d = d
first (some x) d = x

module _ (j : Json) where
  abbrev pub IsText : Bytes → Type 0
  IsText s = j.is_text s ≡ true

  -- `json_value_init_string`: NULL for what is not a text
  abbrev pub text_value : Bytes → Option j.Value
  text_value s = if j.is_text s then some (j.string s) else none

  abbrev pub text_or_null : Option Bytes → Option j.Value
  text_or_null none = none
  text_or_null (some s) = text_value s

  abbrev pub number_value : ℕ → Option j.Value
  number_value n = some (j.number n)

  -- `json_object_set_value`, which leaves the object as it is where the value is NULL
  abbrev pub set_value : j.Object → Bytes → Option j.Value → j.Object
  set_value o k none = o
  set_value o k (some v) = j.set o k v

  -- calls of `json_object_set_value`, the first one first
  abbrev pub set_all : j.Object → List (Bytes × Option j.Value) → j.Object
  set_all o [] = o
  set_all o ((k, v) ∷ fields) = set_all (set_value o k v) fields

  abbrev pub make : List (Bytes × Option j.Value) → j.Object
  make fields = set_all j.empty fields

  -- a call on an object that may be NULL
  abbrev pub get_value : Option j.Object → Bytes → Option j.Value
  get_value none k = none
  get_value (some o) k = j.get o k

  -- `json_object_get_string`
  abbrev pub string_at : Option j.Object → Bytes → Option Bytes
  string_at o k = elim (get_value o k) [ none ↦ none | some v ↦ j.as_string v ]

  -- `get_string`
  abbrev pub get_string : Option j.Object → Bytes → Bytes
  get_string o k = first (string_at o k) []

  -- `json_object_get_number`, which gives 0 for what is not a number
  abbrev pub get_number : Option j.Object → Bytes → ℕ
  get_number o k = first (elim (get_value o k) [ none ↦ none | some v ↦ j.as_number v ]) 0

  -- `get_boolean`
  abbrev pub get_boolean : Option j.Object → Bytes → Bool → Bool
  get_boolean o k d = first (elim (get_value o k) [ none ↦ none | some v ↦ j.as_boolean v ]) d

  -- `json_object_get_object`
  abbrev pub get_object : Option j.Object → Bytes → Option j.Object
  get_object o k = elim (get_value o k) [ none ↦ none | some v ↦ j.as_object v ]

  -- `json_object_get_array`, and what its count and its elements are: none for NULL
  abbrev pub get_array : Option j.Object → Bytes → List j.Value
  get_array o k = first (elim (get_value o k) [ none ↦ none | some v ↦ j.as_array v ]) []
