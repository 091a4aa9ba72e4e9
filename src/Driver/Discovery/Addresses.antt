-- ===== src/Driver/Discovery/Addresses.antt =====
-- What becomes of a device that answers a discovery.
use device_service_zigbee.Prelude.{
  ℕ, ◌+◌, ◌*◌, ◌≤◌, ◌≡◌, true, false, Option, none, some, ◌++◌, Bytes, codes, arith, length,
  length-append, ltb, ◌&&◌, Bool-cases, inl, inr, if◌then◌else◌,
}
use device_service_zigbee.Prelude.Decimal.{decimal, length-decimal, length-decimal_ge}
use device_service_zigbee.Prelude.Outcome.{done, fault, out_of_bounds}
use device_service_zigbee.Frame.{RepDiscovery, take_discovery}
use device_service_zigbee.Driver.{Queues, enqueued}
use device_service_zigbee.Driver.Discovery.{add_frame, add_new_device}

length-add_frame :
    (rep : RepDiscovery) (addr : Bytes)
    → length (add_frame rep addr) ≡ length rep.devname + length rep.mac + 2 * length addr + 6
length-add_frame rep addr = omega (
  arith,
  length-append rep.devname
      (codes "#" ++ (rep.mac ++ (codes "#" ++ (addr ++ (codes "#" ++ (addr ++ codes "#")))))),
  length-append rep.mac (codes "#" ++ (addr ++ (codes "#" ++ (addr ++ codes "#")))),
  length-append addr (codes "#" ++ (addr ++ codes "#")),
  length-append addr (codes "#"),
)

-- A device that answers a discovery is told its address exactly if the service registers it, where the
-- address is below 1000, and the device's name and twice the address are shorter than its profile and
-- model and four. Otherwise, and so with the address of the driver, a buffer is overrun.
pub add_new_device_cases :
    (address : ℕ) (add : Bytes → Bytes → Option Bytes) (input : Bytes) (qs : Queues)
    (rep : RepDiscovery)
    → take_discovery input ≡ done rep
    → add_new_device address add input qs ≡ (
        if ltb address 1000
          && ltb
              (length rep.devname + 2 * length (decimal address))
              (length rep.profile + length rep.model + 4)
        then elim (add (decimal address) rep.profile) [
          | none ↦ done (false, qs)
          | some id ↦
              done (true, record qs { tx = enqueued (add_frame rep (decimal address)) qs.tx })
        ]
        else fault out_of_bounds)
unfolding add_new_device
add_new_device_cases address add input qs rep e = elim (Bool-cases (ltb address 1000)) [
  | inl t ↦
      let short : length (decimal address) ≤ 3 = length-decimal 2 address (ground (arith, t)) in
      ground (arith, t, e, short, length-add_frame rep (decimal address))
  | inr n ↦
      let long : 4 ≤ length (decimal address) = length-decimal_ge 3 address (ground (arith, n)) in
      ground (arith, n, long)
]
