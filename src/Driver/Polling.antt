-- ===== src/Driver/Polling.antt =====
-- random/device-random.c: `random_get_handler`, which polls the queue of replies, and
-- `random_put_handler`. What the receiving thread puts into the queue before each poll is an argument.
pub mod Waiting
use device_service_zigbee.Prelude.{
  ℕ, zero, suc, Bool, true, false, Option, none, some, List, [], ◌∷◌, Bytes, tail,
}
use device_service_zigbee.Prelude.Outcome.{Outcome, done, ◌>>=◌}
use device_service_zigbee.Value.{FloatText}
use device_service_zigbee.Value.Equal.{CommandResult}
use device_service_zigbee.Command.{CommandRequest}
use device_service_zigbee.Queue.Spec.{Fifo, head}
use device_service_zigbee.Driver.{Queues, enqueued}
use device_service_zigbee.Driver.Frames.{get_frame, put_frame}
use device_service_zigbee.Driver.Values.{read_reply}

-- frames that `RX` adds to a queue, the first one first
pub arrive : List Bytes → Fifo → Fifo
arrive [] q = q
arrive (s ∷ ss) q = arrive ss (enqueued s q)

-- what arrives before each of so many polls: nothing more once the list ends
pub rounds : ℕ → List (List Bytes) → List (List Bytes)
rounds zero arrivals = []
rounds (suc n) [] = [] ∷ rounds n []
rounds (suc n) (ss ∷ sss) = ss ∷ rounds n sss

abbrev pub polls : ℕ
polls = 5000

module _ (f : FloatText) (devname : Bytes) (requests : List CommandRequest) where
  -- a poll: only a reply that can be used is taken out of the queue
  pub poll : Fifo → Outcome (Option (List CommandResult) × Fifo)
  poll q = elim (head q) [
    | none ↦ done (none, q)
    | some s ↦ do
      reply ← read_reply f devname requests s
      elim reply [ none ↦ done (none, q) | some rs ↦ done (some rs, tail q) ]
  ]

  -- the loop, with the frames that arrive before each of its polls
  pub wait : List (List Bytes) → Fifo → Outcome (Option (List CommandResult) × Fifo)
  unfolding arrive poll
  wait [] q = done (none, q)
  wait (ss ∷ sss) q = do
    (reply, q') ← poll (arrive ss q)
    elim reply [ none ↦ wait sss q' | some rs ↦ done (some rs, q') ]

  -- `random_get_handler`, with what arrives before its polls
  pub random_get_handler :
      List (List Bytes) → Queues → Outcome (Option (List CommandResult) × Queues)
  unfolding wait rounds
  random_get_handler arrivals qs = do
    frame ← get_frame devname requests
    (reply, q) ← wait (rounds polls arrivals) qs.get_handler
    done (reply, record qs { tx = enqueued frame qs.tx; get_handler = q })

  -- `random_put_handler`, which does not wait for an answer
  pub random_put_handler : List CommandResult → Queues → Outcome (Bool × Queues)
  random_put_handler values qs = do
    frame ← put_frame f devname requests values
    done (true, record qs { tx = enqueued frame qs.tx })
