-- ===== src/Driver/Values.antt =====
-- random/user.c: the values of a sensor's frame as readings.
pub mod RoundTrip
use device_service_zigbee.Prelude.{
  ℕ, Option, none, some, List, [], ◌∷◌, map, Bytes, if◌then◌else◌, str_eq,
}
use device_service_zigbee.Prelude.Outcome.{
  Outcome, done, fault, bad_pointer, out_of_bounds, ◌>>=◌, ◌>>◌,
}
use device_service_zigbee.Value.{PropertyType, FloatText, populate_value}
use device_service_zigbee.Value.Equal.{CommandResult}
use device_service_zigbee.Frame.{SensorEvent, take_event, free_event}
use device_service_zigbee.Command.{CommandRequest}

module _ (f : FloatText) where
  -- the loops over the readings, from the values that are left; `none` where a text is no value of
  -- its type
  pub read_values : ℕ → List PropertyType → List Bytes → Outcome (Option (List CommandResult))
  read_values origin [] vs = done (some [])
  read_values origin (t ∷ ts) [] = fault out_of_bounds
  read_values origin (t ∷ ts) (s ∷ vs) = do
    v ← populate_value f t s
    elim v [
      | none ↦ done none
      | some v' ↦ do
        rest ← read_values origin ts vs
        elim rest [
          | none ↦ done none
          | some rs ↦ done (some (record { origin = origin; value = v' } ∷ rs))
        ]
    ]

  -- with an array that is NULL where the frame has no values
  pub read_array :
      ℕ → List PropertyType → Option (List Bytes) → Outcome (Option (List CommandResult))
  unfolding read_values
  read_array origin [] array = done (some [])
  read_array origin (t ∷ ts) none = fault bad_pointer
  read_array origin (t ∷ ts) (some vs) = read_values origin (t ∷ ts) vs

  -- behind the test of the name
  pub read_event : List CommandRequest → SensorEvent → Outcome (Option (List CommandResult))
  unfolding read_array
  read_event requests ev = do
    readings ← read_array ev.origin (map (λ (r : CommandRequest). r.type) requests) ev.value
    free_event ev
    done readings

  -- `user_repget_event_read`: `none` where it returns false
  pub read_reply : Bytes → List CommandRequest → Bytes → Outcome (Option (List CommandResult))
  unfolding read_event
  read_reply devname requests frame = do
    ev ← take_event frame
    if str_eq ev.name devname then read_event requests ev else (do free_event ev; done none)
