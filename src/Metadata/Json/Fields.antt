-- ===== src/Metadata/Json/Fields.antt =====
-- What an object holds after a sequence of calls that set its members.
use device_service_zigbee.Prelude.{
  ℕ, ◌^◌, ◌≤◌, ◌≡◌, refl, ap, ◌∙◌, Bool, Option, none, some, List, [], ◌∷◌, Bytes, arith, str_eq,
  same_text, str_eq_iff, if◌then◌else◌, inl, inr,
}
use device_service_zigbee.Metadata.Json.{
  Json, IsText, text_or_null, first, text_value, set_value, set_all, make, get_string, get_number,
  get_boolean, get_object, get_array, string_at,
}

module _ (j : Json) where
  abbrev pub or_else : Option j.Value → Option j.Value → Option j.Value
  or_else none d = d
  or_else (some v) d = some v

  -- A text hides what was set before.
  pub or_else-text_value :
      (s : Bytes) (d : Option j.Value)
      → IsText j s
      → or_else (text_value j s) d ≡ or_else (text_value j s) none
  or_else-text_value s d t = ground (arith, t)

  -- the last value that is set for a name
  abbrev pub last_of : List (Bytes × Option j.Value) → Bytes → Option j.Value → Option j.Value
  last_of [] k d = d
  last_of ((i, v) ∷ fields) k d = last_of fields k (if str_eq k i then or_else v d else d)

  get-set_value :
      (o : j.Object) (i k : Bytes) (v : Option j.Value)
      → j.get (set_value j o i v) k ≡ (if str_eq k i then or_else v (j.get o k) else j.get o k)
  get-set_value o i k none = ground arith
  get-set_value o i k (some v) = elim (same_text k i) [
    | inl e ↦ ground (arith, e, j.get-set_self o i v, str_eq_iff k i)
    | inr n ↦ ground (arith, n, j.get-set_ne o k i v n, str_eq_iff k i)
  ]

  pub get-set_all :
      (o : j.Object) (fields : List (Bytes × Option j.Value)) (k : Bytes)
      → j.get (set_all j o fields) k ≡ last_of fields k (j.get o k)
  get-set_all o [] k = refl
  get-set_all o ((i, v) ∷ fields) k =
      get-set_all (set_value j o i v) fields k ∙ ap (last_of fields k) (get-set_value o i k v)

  pub get-make :
      (fields : List (Bytes × Option j.Value)) (k : Bytes)
      → j.get (make j fields) k ≡ last_of fields k none
  get-make fields k = get-set_all j.empty fields k ∙ ap (last_of fields k) (j.get-empty k)

  abbrev pub IsTextOrNull : Option Bytes → Type 0
  IsTextOrNull none = Unit
  IsTextOrNull (some s) = IsText j s

  module _ (fields : List (Bytes × Option j.Value)) (k : Bytes) where
    pub string_at-make :
        (s : Bytes)
        → last_of fields k none ≡ or_else (text_value j s) none
        → IsText j s
        → string_at j (some (make j fields)) k ≡ some s
    string_at-make s h t = ground (arith, get-make fields k, h, t, j.as_string-string s)

    pub get_string-make :
        (s : Bytes)
        → last_of fields k none ≡ or_else (text_value j s) none
        → IsText j s
        → get_string j (some (make j fields)) k ≡ s
    get_string-make s h t = ap (λ o. first o []) (string_at-make s h t)

    pub get_number-make :
        (n : ℕ)
        → last_of fields k none ≡ some (j.number n)
        → n ≤ 2 ^ 53
        → get_number j (some (make j fields)) k ≡ n
    get_number-make n h t = ground (arith, get-make fields k, h, j.as_number-number n t)

    pub get_boolean-make :
        (b d : Bool)
        → last_of fields k none ≡ some (j.boolean b)
        → get_boolean j (some (make j fields)) k d ≡ b
    get_boolean-make b d h = ground (arith, get-make fields k, h, j.as_boolean-boolean b)

    pub get_object-make :
        (o : j.Object)
        → last_of fields k none ≡ some (j.object o)
        → get_object j (some (make j fields)) k ≡ some o
    get_object-make o h = ground (arith, get-make fields k, h, j.as_object-object o)

    pub get_array-make :
        (vs : List j.Value)
        → last_of fields k none ≡ some (j.array vs)
        → get_array j (some (make j fields)) k ≡ vs
    get_array-make vs h = ground (arith, get-make fields k, h, j.as_array-array vs)

    pub string_at-make_opt :
        (m : Option Bytes)
        → last_of fields k none ≡ or_else (text_or_null j m) none
        → IsTextOrNull m
        → string_at j (some (make j fields)) k ≡ m
    string_at-make_opt none h t = ground (arith, get-make fields k, h)
    string_at-make_opt (some s) h t = string_at-make s h t

    pub get_array-make_absent :
        last_of fields k none ≡ none → get_array j (some (make j fields)) k ≡ []
    get_array-make_absent h = ground (arith, get-make fields k, h)
