-- ===== src/Driver/Discovery.antt =====
-- random/device-random.c: `random_discover` and `user_add_new_device`. The registration of a device
-- by the service is a parameter.
pub mod Addresses
use device_service_zigbee.Prelude.{
  ℕ, ◌+◌, Bool, true, false, Option, none, some, List, [], ◌∷◌, ◌++◌, Bytes, codes, length, tail,
}
use device_service_zigbee.Prelude.Decimal.{decimal}
use device_service_zigbee.Prelude.Outcome.{Outcome, done, ◌>>=◌}
use device_service_zigbee.Queue.Spec.{head}
use device_service_zigbee.Frame.{RepDiscovery, take_discovery}
use device_service_zigbee.Driver.{Queues, enqueued}
use device_service_zigbee.Driver.Frames.{fits}
use device_service_zigbee.Driver.Polling.{arrive}

-- the frame that tells the device its address
abbrev pub add_frame : RepDiscovery → Bytes → Bytes
add_frame rep addr =
    codes "e#"
    ++ (rep.devname
        ++ (codes "#" ++ (rep.mac ++ (codes "#" ++ (addr ++ (codes "#" ++ (addr ++ codes "#")))))))

-- `address_zigbee`, which nothing changes
abbrev pub address_zigbee : ℕ
address_zigbee = 4689

-- `lengRepDevice`
abbrev pub add_frame_size : RepDiscovery → ℕ
add_frame_size rep = 1 + 4 + length rep.mac + length rep.profile + length rep.model + 5

-- `add` is `edgex_device_add_device`: the id of a new device of that name and profile, if it succeeds
module _ (address : ℕ) (add : Bytes → Bytes → Option Bytes) where
  -- `user_add_new_device`; `addr_str` has four characters
  pub add_new_device : Bytes → Queues → Outcome (Bool × Queues)
  add_new_device input qs = do
    addr ← fits 4 (decimal address)
    rep ← take_discovery input
    frame ← fits (add_frame_size rep) (add_frame rep addr)
    elim (add addr rep.profile) [
      | none ↦ done (false, qs)
      | some id ↦ done (true, record qs { tx = enqueued frame qs.tx })
    ]

  -- a round of the loop, with the frames that arrive while it sleeps
  pub discover_round : List Bytes → Queues → Outcome Queues
  unfolding add_new_device
  discover_round frames qs =
      let asked = record qs {
        tx = enqueued (codes "d#newdevice#") qs.tx;
        discovery = arrive frames qs.discovery;
      } in
      elim (head asked.discovery) [
        | none ↦ done asked
        | some s ↦ do
          (_, qs') ← add_new_device s (record asked { discovery = tail asked.discovery })
          done qs'
      ]

  -- `random_discover`; the list has one entry for each of the five rounds
  pub random_discover : List (List Bytes) → Queues → Outcome Queues
  unfolding discover_round
  random_discover [] qs = done qs
  random_discover (frames ∷ more) qs = do qs' ← discover_round frames qs; random_discover more qs'
