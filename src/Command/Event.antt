-- ===== src/Command/Event.antt =====
-- device-sdk-c/src/c/data.c, `edgex_data_process_event`: the event that the results of a command make.
-- An `Event` is what the code hands to the JSON and CBOR libraries, field by field.
pub mod Cbor
pub mod Rules
pub mod Laws
pub mod Times
pub mod Picture
mod Tests
use device_service_zigbee.Prelude.{
  ℕ, Bool, true, false, ◌||◌, Option, none, some, List, [], ◌∷◌, Bytes, if◌then◌else◌, ◌==◌, str_eq,
}
use device_service_zigbee.Prelude.Outcome.{Outcome, done, fault, out_of_bounds, ◌>>=◌}
use device_service_zigbee.Value.{
  PropertyType, binary, Value, binary_result, FloatText, value_to_string,
}
use device_service_zigbee.Value.Equal.{CommandResult}
use device_service_zigbee.Transform.{PropertyValue, LongDouble, outgoing}
use device_service_zigbee.Command.{Row}

pub data Encoding : Type 0 where
  json cbor : Encoding

-- "value" or "binaryValue"
pub data ReadingValue : Type 0 where
  text : Bytes → ReadingValue
  bytes : Bytes → ReadingValue

pub record Reading : Type 0 where
  pub name : Bytes
  pub value : ReadingValue
  pub origin : ℕ
  -- for CBOR, the size of the map that holds the three
  pub size : Option ℕ

pub record Event : Type 0 where
  pub encoding : Encoding
  pub device : Bytes
  pub origin : ℕ
  pub readings : List Reading

abbrev pub is_binary : PropertyType → Bool
is_binary binary = true
is_binary _ = false

pub uses_cbor : List Row → Bool
uses_cbor [] = false
uses_cbor (row ∷ rows) = is_binary row.pval.type || uses_cbor rows

-- the time of a reading, which both branches give
abbrev pub origin_at : ℕ → CommandResult → ℕ
origin_at now r = if r.origin == 0 then now else r.origin

-- the pairs that the CBOR map of a reading is made for; a JSON object is not made for a number of them
abbrev pub pairs_for : Encoding → CommandResult → Option ℕ
pairs_for json r = none
pairs_for cbor r = some (if r.origin == 0 then 2 else 3)

unfoldable pub encoding_of : List Row → Encoding
unfolding uses_cbor
encoding_of rows = if uses_cbor rows then cbor else json

module _ (f : FloatText) (m : LongDouble) where
  -- whether the text of a value is the one that the profile asserts, if it asserts one
  unfoldable pub meets : Option Bytes → Value → Bool → Outcome Bool
  meets none v binfloat = done true
  meets (some []) v binfloat = done true
  meets (some (c ∷ s)) v binfloat = do
    reading ← value_to_string f v binfloat
    done (str_eq reading (c ∷ s))

  unfoldable pub transformed : Bool → Row → CommandResult → Outcome CommandResult
  transformed do_transforms row r = if do_transforms then outgoing m r row.pval row.map else done r

  -- the first loop; `none` where it returns NULL
  unfoldable pub prepare :
      Bool → List Row → List CommandResult → Outcome (Option (List CommandResult))
  prepare do_transforms [] rs = done (some [])
  prepare do_transforms (row ∷ rows) [] = fault out_of_bounds
  prepare do_transforms (row ∷ rows) (r ∷ rs) = do
    r' ← transformed do_transforms row r
    good ← meets row.pval.assertion r'.value row.pval.float_as_binary
    elim good [
      | false ↦ done none
      | true ↦ do
        rest ← prepare do_transforms rows rs
        elim rest [ none ↦ done none | some rs' ↦ done (some (r' ∷ rs')) ]
    ]

  unfoldable pub reading_value : Encoding → Row → Value → Outcome ReadingValue
  reading_value cbor row (binary_result b) = done (bytes b)
  reading_value _ row v = do s ← value_to_string f v row.pval.float_as_binary; done (text s)

  -- the second loop
  unfoldable pub readings_of : Encoding → ℕ → List Row → List CommandResult → Outcome (List Reading)
  readings_of enc now [] rs = done []
  readings_of enc now (row ∷ rows) [] = fault out_of_bounds
  readings_of enc now (row ∷ rows) (r ∷ rs) = do
    v ← reading_value enc row r.value
    rest ← readings_of enc now rows rs
    done (
        record {
          name = row.req.resname;
          value = v;
          origin = origin_at now r;
          size = pairs_for enc r;
        }
        ∷ rest)

  -- `edgex_data_process_event`, at the time `now`
  unfoldable pub process_event :
      ℕ → Bytes → List Row → List CommandResult → Bool → Outcome (Option Event)
  process_event now device rows values do_transforms = do
    prepared ← prepare do_transforms rows values
    elim prepared [
      | none ↦ done none
      | some rs ↦ do
        readings ← readings_of (encoding_of rows) now rows rs
        done (
            some (record {
              encoding = encoding_of rows;
              device = device;
              origin = now;
              readings = readings;
            }))
    ]
