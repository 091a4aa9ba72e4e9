-- ===== src/Driver/Serial.antt =====
-- random/device-random.c: the threads `RX` and `TX`, with user_serial_read and user_serial_write. A
-- read of the line is given as what it returns; the buffer of `RX` keeps its contents between reads.
pub mod Dispatch
use device_service_zigbee.Prelude.{
  ℕ, ◌+◌, Bool, ◌||◌, Option, none, some, List, [], ◌∷◌, ◌++◌, Bytes, length, drop, tail, ltb, ◌==◌,
  if◌then◌else◌,
}
use device_service_zigbee.Prelude.Outcome.{Outcome, done, fault, out_of_bounds, ◌>>=◌}
use device_service_zigbee.Queue.Spec.{head}
use device_service_zigbee.Driver.{Queues, enqueued}

-- `user_serial_read` of some bytes: a NUL goes behind them, in the buffer or not
pub store : Bytes → Bytes → Outcome Bytes
store buffer bytes =
    if ltb (length bytes) (length buffer)
    then done (bytes ++ 0 ∷ drop (length bytes + 1) buffer)
    else fault out_of_bounds

-- the text that starts a buffer
pub c_string : Bytes → Outcome Bytes
c_string [] = fault out_of_bounds
c_string (c ∷ s) = let rest = c_string s in if c == 0 then done [] else (do t ← rest; done (c ∷ t))

-- the `switch` of `RX`; CMD_PUSH is 'a', CMD_GET is 'b', and CMD_DISCOVERY is 'd'
pub dispatch : ℕ → Bytes → Queues → Queues
dispatch cmd s qs =
    if cmd == b'a'
    then record qs { events = enqueued s qs.events }
    else if cmd == b'b'
    then record qs { get_handler = enqueued s qs.get_handler }
    else if cmd == b'd'
    then record qs { discovery = enqueued s qs.discovery }
    else qs

-- whether the `switch` has a case, and so reads the text at `test + 2`
abbrev pub is_cmd : ℕ → Bool
is_cmd cmd = cmd == b'a' || (cmd == b'b' || cmd == b'd')

-- a round of `RX`; a read that fails returns `none`
pub rx : Queues → Bytes → Option Bytes → Outcome (Queues × Bytes)
unfolding store c_string dispatch
rx qs buffer none = done (qs, buffer)
rx qs buffer (some []) = do b ← store buffer []; done (qs, b)
rx qs buffer (some (cmd ∷ m)) = do
  b ← store buffer (cmd ∷ m)
  if is_cmd cmd then (do s ← c_string (drop 2 b); done (dispatch cmd s qs, b)) else done (qs, b)

-- a round of `TX`, with the bytes that it writes: `user_serial_write` ends a text in a newline and a NUL
pub tx : Queues → Queues × Bytes
tx qs = elim (head qs.tx) [
  | none ↦ (qs, [])
  | some s ↦ (record qs { tx = tail qs.tx }, s ++ 10 ∷ 0 ∷ [])
]
