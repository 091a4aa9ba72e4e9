-- ===== src/Driver/Values/RoundTrip.antt =====
-- The reply of a sensor, as its frame is written and as the driver reads it.
use device_service_zigbee.Prelude.{
  ℕ, ◌^◌, ◌<◌, ◌≡◌, ◌≢◌, refl, none, some, List, [], ◌∷◌, map, Bytes, All, Lacks, arith, length,
  str_eq_self, str_eq_iff,
}
use device_service_zigbee.Prelude.Outcome.{done}
use device_service_zigbee.Value.{PropertyType, FloatText, Value, populate_value}
use device_service_zigbee.Value.Equal.{CommandResult}
use device_service_zigbee.Frame.{SensorEvent, hash, take_event}
use device_service_zigbee.Frame.Faults.{free_event-filled}
use device_service_zigbee.Frame.RoundTrip.{IsField, event_frame, take_event-event_frame}
use device_service_zigbee.Command.{CommandRequest}
use device_service_zigbee.Driver.Values.{read_values, read_array, read_event, read_reply}

-- the texts read as the values, one by one
abbrev pub ReadAs : FloatText → List PropertyType → List Bytes → List Value → Type 0
ReadAs f [] [] [] = Unit
ReadAs f (t ∷ ts) (s ∷ ss) (v ∷ vs) = (populate_value f t s ≡ done (some v)) × ReadAs f ts ss vs
ReadAs f _ _ _ = ⊥

abbrev pub stamped : ℕ → List Value → List CommandResult
stamped origin = map (λ v. record { origin = origin; value = v })

read_values-ReadAs :
    (f : FloatText) (origin : ℕ) (ts : List PropertyType) (ss : List Bytes) (vs : List Value)
    → ReadAs f ts ss vs
    → read_values f origin ts ss ≡ done (some (stamped origin vs))
unfolding read_values
read_values-ReadAs f origin [] [] [] h = refl
read_values-ReadAs f origin (t ∷ ts) (s ∷ ss) (v ∷ vs) h =
    ground (arith, h.0, read_values-ReadAs f origin ts ss vs h.1)
read_values-ReadAs f origin _ _ _ h = absurd h

pub read_array-ReadAs :
    (f : FloatText) (origin : ℕ) (ts : List PropertyType) (ss : List Bytes) (vs : List Value)
    → ReadAs f ts ss vs
    → read_array f origin ts (some ss) ≡ done (some (stamped origin vs))
unfolding read_array
read_array-ReadAs f origin [] [] [] h = refl
read_array-ReadAs f origin (t ∷ ts) ss vs h = read_values-ReadAs f origin (t ∷ ts) ss vs h
read_array-ReadAs f origin [] _ _ h = absurd h

-- a frame that the round trip of `takeEvent` holds for
abbrev pub IsFrame : SensorEvent → List Bytes → Type 0
IsFrame ev ss =
    IsField ev.name
    × IsField ev.command_device
    × All (Lacks hash) ss
    × (ev.origin < 2 ^ 31)
    × (ev.size < 2 ^ 31)
    × (ev.size ≡ length ss)
    × (ev.value ≡ some ss)

pub take_event-IsFrame :
    (ev : SensorEvent) (ss : List Bytes) → IsFrame ev ss → take_event (event_frame ev ss) ≡ done ev
take_event-IsFrame ev ss (n, c, l, o, s, e, v) = take_event-event_frame ev ss n c l o s e v

abbrev pub types : List CommandRequest → List PropertyType
types = map (λ (r : CommandRequest). r.type)

-- The driver reads the frame of a sensor's reply to a GET of this device as the values that its texts
-- are of the requested types, with the time of the reply.
pub read_reply-event_frame :
    (f : FloatText) (ev : SensorEvent) (ss : List Bytes) (requests : List CommandRequest)
    (vs : List Value)
    → IsFrame ev ss
    → ReadAs f (types requests) ss vs
    → read_reply f ev.name requests (event_frame ev ss) ≡ done (some (stamped ev.origin vs))
unfolding read_reply read_event
read_reply-event_frame f ev ss requests vs h r = ground (
  arith,
  take_event-IsFrame ev ss h,
  str_eq_self ev.name,
  h.5,
  h.6,
  read_array-ReadAs f ev.origin (types requests) ss vs r,
  free_event-filled ev ss h.6 h.5,
)

-- A reply of another device is not used.
pub read_reply_other :
    (f : FloatText) (ev : SensorEvent) (ss : List Bytes) (devname : Bytes)
    (requests : List CommandRequest)
    → IsFrame ev ss
    → ev.name ≢ devname
    → read_reply f devname requests (event_frame ev ss) ≡ done none
unfolding read_reply
read_reply_other f ev ss devname requests h n =
    ground (
      arith,
      take_event-IsFrame ev ss h,
      str_eq_iff ev.name devname,
      free_event-filled ev ss h.6 h.5,
    )
