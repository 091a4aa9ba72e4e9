-- ===== src/Frame.antt =====
-- random/structString.h and the frame types of random/user_typdef.h: the text frames of the serial
-- line, fields that end in '#'. A pointer into a text is the text from there on; a read past the
-- NUL, and pointer arithmetic on NULL, are faults. `malloc` and `strndup` do not fail.
pub mod Search
pub mod RoundTrip
pub mod Faults
mod Tests
use device_service_zigbee.Prelude.{
  ℕ, zero, suc, ◌+◌, ◌%◌, ◌^◌, Bool, Option, none, some, List, [], ◌∷◌, Bytes, codes, ltb, ◌==◌,
  if◌then◌else◌, starts_with, take, drop, length,
}
use device_service_zigbee.Prelude.Int.{ℤ, to_word}
use device_service_zigbee.Prelude.Decimal.{atoi}
use device_service_zigbee.Prelude.Outcome.{Outcome, done, fault, bad_pointer, out_of_bounds, ◌>>=◌}
use mathlib.Core.Option

abbrev pub hash : ℕ
hash = b'#'

-- `strstr`: how far into the text the first occurrence stands
pub strstr : Bytes → Bytes → Option ℕ
strstr [] p = if starts_with p [] then some 0 else none
strstr (c ∷ s) p =
    let rest = strstr s p in if starts_with p (c ∷ s) then some 0 else Option.map suc rest

-- `takeString`: the field up to the next '#', and the text behind it. With no '#' the source
-- subtracts a pointer from NULL.
pub take_string : Bytes → Outcome (Bytes × Bytes)
take_string s = elim (strstr s (hash ∷ [])) [
  | none ↦ fault bad_pointer
  | some n ↦ done (take n s, drop (n + 1) s)
]

-- `sensorEvent`; the array of values is `none` where `value` is NULL
pub record SensorEvent : Type 0 where
  pub name : Bytes
  pub origin : ℕ
  pub command_device : Bytes
  pub size : ℕ
  pub value : Option (List Bytes)

-- one round of the loop of `takeValue`: `find` up to the next '#', which the scan does not bound
pub until_hash : Bytes → Outcome (Bytes × Bytes)
until_hash [] = fault out_of_bounds
until_hash (c ∷ s) =
    let rest = until_hash s in
    if c == hash then done ([], s) else (do (v, r) ← rest; done (c ∷ v, r))

pub fields : ℕ → Bytes → Outcome (List Bytes)
unfolding until_hash
fields zero find = done []
fields (suc n) find = do (v, find') ← until_hash find; vs ← fields n find'; done (v ∷ vs)

-- `ev->size`, a uint32_t, as the `int` that `takeValue` is given: a negative one makes no round
pub rounds : ℕ → ℕ
rounds size = if ltb size (2 ^ 31) then size else 0

-- `takeValue`
pub take_value : Bytes → ℕ → Outcome (Option (List Bytes))
unfolding fields rounds
take_value str size = elim (strstr str (codes "value#")) [
  | none ↦ done none
  | some n ↦ do vs ← fields (rounds size) (drop (n + 6) str); done (some vs)
]

-- `takeEvent`: the values are searched from the start of the frame
pub take_event : Bytes → Outcome SensorEvent
take_event str = do
  (name, str₁) ← take_string str
  (origin, str₂) ← take_string str₁
  o ← atoi origin
  (command, str₃) ← take_string str₂
  (size, str₄) ← take_string str₃
  n ← atoi size
  let n' = to_word (2 ^ 32) n
  value ← take_value str n'
  done (record {
    name = name;
    origin = to_word (2 ^ 64) o;
    command_device = command;
    size = n';
    value = value;
  })

-- `freeEvent` reads `size` cells of the array, whether or not it is there and filled
pub free_event : SensorEvent → Outcome (Unit {0})
free_event ev = if ev.size == 0 then done tt else elim ev.value [
  | none ↦ fault bad_pointer
  | some vs ↦ if length vs == ev.size then done tt else fault bad_pointer
]

-- `repDiscovery`
pub record RepDiscovery : Type 0 where
  pub devname : Bytes
  pub mac : Bytes
  pub profile : Bytes
  pub model : Bytes

-- `takeDiscovery`
pub take_discovery : Bytes → Outcome RepDiscovery
take_discovery str = do
  (devname, str₁) ← take_string str
  (mac, str₂) ← take_string str₁
  (profile, str₃) ← take_string str₂
  (model, str₄) ← take_string str₃
  done (record { devname = devname; mac = mac; profile = profile; model = model })
