-- ===== src/Metadata/Property/RoundTrip.antt =====
-- What is read of the properties of a resource that were written.
use device_service_zigbee.Prelude.{
  ◌≡◌, inl, inr, refl, sym, ap, ◌∙◌, Bool, true, false, ◌||◌, Option, some, [], ◌∷◌, Bytes, codes,
  arith, if◌then◌else◌,
}
use device_service_zigbee.Prelude.Outcome.{done}
use device_service_zigbee.Value.{
  PropertyType, bool, string, binary, uint, int, float32, float64, w8, w16, w32, w64,
}
use device_service_zigbee.Transform.{TransformArg, PropertyValue}
use device_service_zigbee.Metadata.Types.{propertytype_tostring, propertytype_fromstring}
use device_service_zigbee.Metadata.Json.{Json, IsText, is_ascii, string_at, get_string, make}
use device_service_zigbee.Metadata.Json.Fields.{
  string_at-make, string_at-make_opt, get_string-make, get_object-make,
}
use device_service_zigbee.Metadata.Property.{
  PropertyTexts, Units, ProfileProperty, bad_bits, rw_string, rw_of, binary_of, value_fields,
  propertyvalue_write, propertyvalue_read, read_typed, with_args, value_read, units_read,
  units_write, unit_fields, profileproperty_read, profileproperty_write,
}
use device_service_zigbee.Metadata.Arguments.{NumberText}
use device_service_zigbee.Metadata.Arguments.RoundTrip.{
  IsKept, ReadsLong, integer-is_float, arg_kept,
}

propertytype_fromstring-tostring :
    (t : PropertyType) → propertytype_fromstring (some (propertytype_tostring t)) ≡ done (some t)
unfolding propertytype_fromstring
propertytype_fromstring-tostring bool = refl
propertytype_fromstring-tostring string = refl
propertytype_fromstring-tostring binary = refl
propertytype_fromstring-tostring (uint w8) = refl
propertytype_fromstring-tostring (uint w16) = refl
propertytype_fromstring-tostring (uint w32) = refl
propertytype_fromstring-tostring (uint w64) = refl
propertytype_fromstring-tostring (int w8) = refl
propertytype_fromstring-tostring (int w16) = refl
propertytype_fromstring-tostring (int w32) = refl
propertytype_fromstring-tostring (int w64) = refl
propertytype_fromstring-tostring float32 = refl
propertytype_fromstring-tostring float64 = refl

type_ascii : (t : PropertyType) → is_ascii (propertytype_tostring t) ≡ true
type_ascii bool = refl
type_ascii string = refl
type_ascii binary = refl
type_ascii (uint w8) = refl
type_ascii (uint w16) = refl
type_ascii (uint w32) = refl
type_ascii (uint w64) = refl
type_ascii (int w8) = refl
type_ascii (int w16) = refl
type_ascii (int w32) = refl
type_ascii (int w64) = refl
type_ascii float32 = refl
type_ascii float64 = refl

bad_bits-IsKept :
    (t : PropertyType) (a b : TransformArg) → IsKept t a → IsKept t b → bad_bits t a b ≡ false
bad_bits-IsKept t a b (inl e) (inl e') = ground (arith, e, e')
bad_bits-IsKept t a b (inr (i, z, fits, on)) k = ground (arith, integer-is_float t i)
bad_bits-IsKept t a b k (inr (i, z, fits, on)) = ground (arith, integer-is_float t i)

module _ (n : NumberText) (j : Json) where
  -- a property that its JSON keeps
  pub record IsWritable (e : PropertyValue) (x : PropertyTexts) : Type 0 where
    pub mask : IsKept e.type e.mask
    pub shift : IsKept e.type e.shift
    pub scale : IsKept e.type e.scale
    pub offset : IsKept e.type e.offset
    pub base : IsKept e.type e.base
    pub used : e.readable || e.writable ≡ true
    pub assertion : (s : Bytes) × (e.assertion ≡ some s) × IsText j s
    pub minimum : IsText j x.minimum
    pub maximum : IsText j x.maximum
    pub default_value : IsText j x.default_value
    pub lsb : IsText j x.lsb
    pub precision : IsText j x.precision
    pub media_type : IsText j x.media_type

  rw_kept :
      (r w : Bool)
      → r || w ≡ true
      → IsText j (rw_string r w) × (rw_of (some (rw_string r w)) ≡ (r, w))
  rw_kept true true h = (j.is_text-is_ascii (codes "RW") refl, refl)
  rw_kept true false h = (j.is_text-is_ascii (codes "R") refl, refl)
  rw_kept false true h = (j.is_text-is_ascii (codes "W") refl, refl)
  rw_kept false false h = ground (arith, h)

  encoding_text : Bool → Bytes
  encoding_text b = if b then codes "base64" else codes "eNotation"

  encoding_kept : (b : Bool) → IsText j (encoding_text b) × (binary_of (some (encoding_text b)) ≡ b)
  unfolding encoding_text
  encoding_kept true = (j.is_text-is_ascii (codes "base64") refl, refl)
  encoding_kept false = (j.is_text-is_ascii (codes "eNotation") refl, refl)

  -- The value is read from what is written of it, once the arguments are.
  value_read-value_fields :
      (e : PropertyValue) (x : PropertyTexts) (m₁ m₂ m₃ m₄ m₅ : Option Bytes)
      → IsWritable e x
      → value_read j
          (some (make j (value_fields j e x m₁ m₂ m₃ m₄ m₅)))
          e.type
          e.scale
          e.offset
          e.base
          e.mask
          e.shift
        ≡ (e, x)
  unfolding value_read encoding_text
  value_read-value_fields e x m₁ m₂ m₃ m₄ m₅ h =
      let fields = value_fields j e x m₁ m₂ m₃ m₄ m₅ in
      let (s, has_text, text) = h.assertion in
      let (rw_text, rw_back) = rw_kept e.readable e.writable h.used in
      let (enc_text, enc_back) = encoding_kept e.float_as_binary in
      let rw_at : string_at j (some (make j fields)) (codes "readWrite")
          ≡ some (rw_string e.readable e.writable) =
        string_at-make j fields (codes "readWrite") (rw_string e.readable e.writable) refl
          rw_text in
      let enc_at : string_at j (some (make j fields)) (codes "floatEncoding")
          ≡ some (encoding_text e.float_as_binary) =
        string_at-make j fields (codes "floatEncoding") (encoding_text e.float_as_binary) refl
          enc_text in
      let assertion_at : some (get_string j (some (make j fields)) (codes "assertion"))
          ≡ e.assertion =
        ap some (get_string-make j fields (codes "assertion") s (rw has_text refl) text)
        ∙ sym has_text in
      rw
        (
          rw_at,
          rw_back,
          enc_at,
          enc_back,
          assertion_at,
          get_string-make j fields (codes "minimum") x.minimum refl h.minimum,
          get_string-make j fields (codes "maximum") x.maximum refl h.maximum,
          get_string-make j fields (codes "defaultValue") x.default_value refl h.default_value,
          get_string-make j fields (codes "lsb") x.lsb refl h.lsb,
          get_string-make j fields (codes "precision") x.precision refl h.precision,
          get_string-make j fields (codes "mediaType") x.media_type refl h.media_type,
        )
        refl

  -- Where `strtol` reads what "%ld" writes: a property that is readable or writable and has an assertion,
  -- whose texts JSON can hold and whose transforms are 64-bit integers (for an integer type) or absent, is
  -- written and read back as itself.
  pub propertyvalue_read-propertyvalue_write :
      (e : PropertyValue) (x : PropertyTexts)
      → ReadsLong n
      → IsWritable e x
      → (o : j.Object) × (propertyvalue_write n j e x ≡ done o)
        × (propertyvalue_read n j (some o) ≡ done (some (e, x)))
  unfolding propertyvalue_write propertyvalue_read read_typed with_args
  propertyvalue_read-propertyvalue_write e x reads h =
      let (m₁, w₁, t₁, r₁) = arg_kept n j e.type e.mask reads h.mask in
      let (m₂, w₂, t₂, r₂) = arg_kept n j e.type e.shift reads h.shift in
      let (m₃, w₃, t₃, r₃) = arg_kept n j e.type e.scale reads h.scale in
      let (m₄, w₄, t₄, r₄) = arg_kept n j e.type e.offset reads h.offset in
      let (m₅, w₅, t₅, r₅) = arg_kept n j e.type e.base reads h.base in
      let fields = value_fields j e x m₁ m₂ m₃ m₄ m₅ in
      let o = make j fields in
      let type_at : string_at j (some o) (codes "type") ≡ some (propertytype_tostring e.type) =
        string_at-make j fields (codes "type") (propertytype_tostring e.type) refl
          (j.is_text-is_ascii (propertytype_tostring e.type) (type_ascii e.type)) in
      let mask_at = string_at-make_opt j fields (codes "mask") m₁ refl t₁ in
      let shift_at = string_at-make_opt j fields (codes "shift") m₂ refl t₂ in
      let scale_at = string_at-make_opt j fields (codes "scale") m₃ refl t₃ in
      let offset_at = string_at-make_opt j fields (codes "offset") m₄ refl t₄ in
      let base_at = string_at-make_opt j fields (codes "base") m₅ refl t₅ in
      (
        o,
        ground (arith, w₁, w₂, w₃, w₄, w₅),
        rw
            (
              type_at,
              propertytype_fromstring-tostring e.type,
              mask_at,
              shift_at,
              scale_at,
              offset_at,
              base_at,
              r₁,
              r₂,
              r₃,
              r₄,
              r₅,
              bad_bits-IsKept e.type e.mask e.shift h.mask h.shift,
            )
            (ap (λ v. done (some v)) (value_read-value_fields e x m₁ m₂ m₃ m₄ m₅ h)),
      )

  abbrev pub IsUnits : Units → Type 0
  IsUnits u = IsText j u.type × IsText j u.readwrite × IsText j u.default_value

  units_read-units_write : (u : Units) → IsUnits u → units_read j (some (units_write j u)) ≡ u
  units_read-units_write u h =
      rw
        (
          get_string-make j (unit_fields j u) (codes "type") u.type refl h.0,
          get_string-make j (unit_fields j u) (codes "readWrite") u.readwrite refl h.1,
          get_string-make j (unit_fields j u) (codes "defaultValue") u.default_value refl h.2,
        )
        refl

  pub profileproperty_read-profileproperty_write :
      (p : ProfileProperty)
      → ReadsLong n
      → IsWritable p.value p.texts
      → IsUnits p.units
      → (o : j.Object) × (profileproperty_write n j p ≡ done o)
        × (profileproperty_read n j (some o) ≡ done (some p))
  unfolding profileproperty_write profileproperty_read
  profileproperty_read-profileproperty_write p reads h u =
      let (v, written, read) = propertyvalue_read-propertyvalue_write p.value p.texts reads h in
      let fields =
        (codes "value", some (j.object v))
        ∷ (codes "units", some (j.object (units_write j p.units)))
        ∷ [] in
      let value_at = get_object-make j fields (codes "value") v refl in
      let units_at = get_object-make j fields (codes "units") (units_write j p.units) refl in
      (
        make j fields,
        rw written refl,
        rw (value_at, read, units_at, units_read-units_write p.units u) refl,
      )
