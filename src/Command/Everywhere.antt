-- ===== src/Command/Everywhere.antt =====
-- device-sdk-c/src/c/device.c: `allCommand`, a command on every device that has it, and the buffer of its
-- reply. The queue of devices, which devmap.c makes, and the texts of events, which the JSON and CBOR
-- libraries make, are arguments. Releasing the devices and freeing the queue are left out.
pub mod Replies
mod Tests
use device_service_zigbee.Prelude.{
  ℕ, ◌+◌, ◌-◌, Bool, true, false, Option, none, some, List, [], ◌∷◌, ◌++◌, Bytes, codes,
  if◌then◌else◌, ◌==◌, length, take, tail,
}
use device_service_zigbee.Prelude.Outcome.{Outcome, done, fault, out_of_bounds, ◌>>=◌}
use device_service_zigbee.Command.{CmdInfo}
use device_service_zigbee.Command.Event.{Encoding, json, cbor, Event}
use device_service_zigbee.Command.Run.{HttpStatus, ok, not_found, Device, Effect, Service, run_one}

-- `enc`, `bsize` and `nret`, with what is written to `buff`: for JSON up to the NUL
pub record Buffer : Type 0 where
  pub enc : Encoding
  pub bsize : ℕ
  pub text : Bytes
  pub nret : ℕ

abbrev pub opened : Buffer
opened = record { enc = json; bsize = 3; text = codes "["; nret = 0 }

abbrev pub is_ok : HttpStatus → Bool
is_ok ok = true
is_ok _ = false

-- `strcat`: behind CBOR there is no NUL
append_json : Bytes → Buffer → Outcome Buffer
append_json s b = elim b.enc [
  | cbor ↦ fault out_of_bounds
  | json ↦ done (record {
    enc = json;
    bsize = b.bsize + (length s + (if b.nret == 0 then 0 else 1));
    text = b.text ++ ((if b.nret == 0 then [] else codes ",") ++ s);
    nret = b.nret + 1;
  })
]

-- `buff[0] = '\374'` for the first reply, and `memcpy` to `buff + bsize - 2`
append_cbor : Bytes → Buffer → Buffer
append_cbor s b = record {
  enc = cbor;
  bsize = b.bsize + length s;
  text = take (b.bsize - 2) (if b.nret == 0 then 252 ∷ tail b.text else b.text) ++ s;
  nret = b.nret + 1;
}

-- the end of the array; for JSON the reply goes up to the NUL
closed : Buffer → Bytes
closed b = elim b.enc [ json ↦ b.text ++ codes "]" | cbor ↦ take (b.bsize - 2) b.text ++ 255 ∷ [] ]

-- what the loop has so far
pub record Progress : Type 0 where
  pub ret : HttpStatus
  pub effects : List Effect
  pub buffer : Buffer

pub record Reply : Type 0 where
  pub status : HttpStatus
  pub effects : List Effect
  -- the size of the buffer, the encoding and the bytes
  pub reply : Option (ℕ × Encoding × Bytes)

module _ (svc : Service) (encoded : Event → Bytes) (body : Bytes) where
  add_reply : Option Event → Buffer → Outcome Buffer
  add_reply none b = done b
  add_reply (some e) b = elim e.encoding [
    | json ↦ append_json (encoded e) b
    | cbor ↦ done (append_cbor (encoded e) b)
  ]

  -- a round of the loop
  pub command_one : Device → CmdInfo → Progress → Outcome Progress
  command_one dev cmd p = do
    ((code, effects), reply) ← run_one svc dev cmd body
    b ← add_reply reply p.buffer
    done (record {
      ret = if is_ok p.ret then p.ret else code;
      effects = p.effects ++ effects;
      buffer = b;
    })

  command_each : List (Device × CmdInfo) → Progress → Outcome Progress
  command_each [] p = done p
  command_each ((dev, cmd) ∷ q) p = do p' ← command_one dev cmd p; command_each q p'

  finish : Progress → Reply
  finish p = record {
    status = p.ret;
    effects = p.effects;
    reply = if is_ok p.ret then some (p.buffer.bsize, p.buffer.enc, closed p.buffer) else none;
  }

  -- `allCommand`
  pub all_command : List (Device × CmdInfo) → Outcome Reply
  all_command q = do
    p ← command_each q (record { ret = not_found; effects = []; buffer = opened })
    done (finish p)
