-- ===== src/Driver.antt =====
-- random/device-random.c and random/user.c: the driver between the device service and the Zigbee
-- coordinator on the serial line. Its threads and handlers meet in four bounded queues, which are
-- taken as the FIFOs that user_queue.c implements. What happens between two calls of a queue is
-- one step; printing is left out.
pub mod Frames
pub mod Values
pub mod Serial
pub mod Polling
pub mod Discovery
pub mod Push
mod Tests
use device_service_zigbee.Prelude.{ℕ, List, [], Bytes}
use device_service_zigbee.Queue.Spec.{Fifo, push}

-- `QueuePush`, `QueueTX`, `QueueGetHandler` and `QueueDiscovery`
pub record Queues : Type 0 where
  pub events : Fifo
  pub tx : Fifo
  pub get_handler : Fifo
  pub discovery : Fifo

-- the capacity that `main` gives each
abbrev pub capacity : ℕ
capacity = 10

abbrev pub enqueued : Bytes → Fifo → Fifo
enqueued = push capacity

abbrev pub no_entries : Queues
no_entries = record { events = []; tx = []; get_handler = []; discovery = [] }
