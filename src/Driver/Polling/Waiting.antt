-- ===== src/Driver/Polling/Waiting.antt =====
-- How long a GET waits, and for what.
use device_service_zigbee.Prelude.{
  ℕ, zero, suc, refl, take, ◌+◌, ◌≤◌, ◌<◌, ◌≡◌, ◌≢◌, sym, ap, ◌∙◌, none, some, List, [], ◌∷◌, ◌++◌,
  append-nil, append_assoc, Bytes, All, concat, arith, length, length-append,
}
use device_service_zigbee.Prelude.Outcome.{done}
use device_service_zigbee.Value.{FloatText, Value}
use device_service_zigbee.Value.Equal.{CommandResult}
use device_service_zigbee.Frame.{SensorEvent}
use device_service_zigbee.Frame.RoundTrip.{event_frame}
use device_service_zigbee.Command.{CommandRequest}
use device_service_zigbee.Queue.Spec.{Fifo}
use device_service_zigbee.Driver.{Queues, enqueued}
use device_service_zigbee.Driver.Frames.{get_frame}
use device_service_zigbee.Driver.Values.{read_reply}
use device_service_zigbee.Driver.Values.RoundTrip.{
  IsFrame, ReadAs, types, stamped, read_reply-event_frame, read_reply_other,
}
use device_service_zigbee.Driver.Polling.{rounds, polls, arrive, poll, wait, random_get_handler}

-- While there is room, frames line up behind those that are there.
pub arrive_room : (ss : List Bytes) (q : Fifo) → length q + length ss ≤ 10 → arrive ss q ≡ q ++ ss
unfolding arrive
arrive_room [] q h = sym (append-nil q)
arrive_room (s ∷ ss) q h =
    let one : enqueued s q ≡ q ++ s ∷ [] = ground (arith, h) in
    rw one (
      arrive_room ss (q ++ s ∷ []) (omega (arith, length-append q (s ∷ [])))
      ∙ append_assoc q (s ∷ []) ss)

concat-take_none : (n : ℕ) → concat {A = Bytes} (take n []) ≡ []
concat-take_none zero = refl
concat-take_none (suc n) = refl

concat-rounds :
    (n : ℕ) (arrivals : List (List Bytes)) → concat (rounds n arrivals) ≡ concat (take n arrivals)
unfolding rounds
concat-rounds zero arrivals = refl
concat-rounds (suc n) [] = concat-rounds n [] ∙ concat-take_none n
concat-rounds (suc n) (ss ∷ sss) = ap (λ l. ss ++ l) (concat-rounds n sss)

rounds_split :
    (n : ℕ) (early : List (List Bytes)) (x : List Bytes) (rest : List (List Bytes))
    → length early < n
    → (rest' : List (List Bytes)) × (rounds n (early ++ x ∷ rest) ≡ early ++ x ∷ rest')
unfolding rounds
rounds_split zero early x rest h = absurd (omega arith)
rounds_split (suc n) [] x rest h = (rounds n rest, refl)
rounds_split (suc n) (e ∷ early) x rest h =
    let (rest', same) = rounds_split n early x rest (omega arith) in (rest', ap (◌∷◌ e) same)

module _ (f : FloatText) (devname : Bytes) (requests : List CommandRequest) where
  wait_blocked :
      (x : Bytes) (arrivals : List (List Bytes)) (q : Fifo)
      → read_reply f devname requests x ≡ done none
      → length (x ∷ q) + length (concat arrivals) ≤ 10
      → wait f devname requests arrivals (x ∷ q) ≡ done (none, x ∷ (q ++ concat arrivals))
  unfolding wait poll
  wait_blocked x [] q h room = ap (λ l. done (none, x ∷ l)) (sym (append-nil q))
  wait_blocked x (ss ∷ sss) q h room =
      let split = length-append ss (concat sss) in
      let behind : arrive ss (x ∷ q) ≡ x ∷ (q ++ ss) =
        arrive_room ss (x ∷ q) (omega (arith, split)) in
      let rest = wait_blocked x sss (q ++ ss) h (omega (arith, split, length-append q ss)) in
      ground (arith, behind, h, rest, append_assoc q ss (concat sss))

  wait_answered :
      (early rest : List (List Bytes)) (x : Bytes) (more : List Bytes) (rs : List CommandResult)
      → All (λ ss. ss ≡ []) early
      → read_reply f devname requests x ≡ done (some rs)
      → length more < 10
      → wait f devname requests (early ++ (x ∷ more) ∷ rest) [] ≡ done (some rs, more)
  unfolding wait poll arrive
  wait_answered [] rest x more rs none_yet h room =
      let behind : arrive more (x ∷ []) ≡ x ∷ more = arrive_room more (x ∷ []) (omega arith) in
      ground (arith, behind, h)
  wait_answered (ss ∷ early) rest x more rs none_yet h room =
      rw none_yet.0 (wait_answered early rest x more rs none_yet.1 h room)

-- Where the request has a frame, the queue of replies is empty, and the first frame to come, before one
-- of the 5000 polls, is a reply of the device with values of the requested types, a GET returns these
-- values, takes the frame out, leaves the frames behind it, and has sent one request. With that reply
-- at most nine more frames come before the same poll; its origin and number of values are below 2 ^ 31,
-- its texts and names have no '#', and its device and command names do not end in "value".
pub random_get_handler_answered :
    (f : FloatText) (qs : Queues) (requests : List CommandRequest) (frame : Bytes)
    (ev : SensorEvent) (ss : List Bytes) (vs : List Value) (early rest : List (List Bytes))
    (more : List Bytes)
    → get_frame ev.name requests ≡ done frame
    → qs.get_handler ≡ []
    → All (λ batch. batch ≡ []) early
    → length early < polls
    → IsFrame ev ss
    → ReadAs f (types requests) ss vs
    → length more < 10
    → random_get_handler f ev.name requests (early ++ (event_frame ev ss ∷ more) ∷ rest) qs
      ≡ done
          (some (stamped ev.origin vs), record qs { tx = enqueued frame qs.tx; get_handler = more })
unfolding random_get_handler
random_get_handler_answered f qs requests frame ev ss vs early rest more sent empty quiet soon h r
      room =
    let (rest', same) = rounds_split polls early (event_frame ev ss ∷ more) rest soon in
    ground (
      arith,
      sent,
      empty,
      same,
      wait_answered f ev.name requests early rest' (event_frame ev ss) more (stamped ev.origin vs)
          quiet (read_reply-event_frame f ev ss requests vs h r) room,
    )

-- A reply of another device at the head of the queue stays there: where the request has a frame, and as
-- long as the queue does not overflow, a GET ends after its 5000 polls without values, whatever replies
-- come, and leaves that reply at the head. That reply's origin and number of values are below 2 ^ 31, its
-- texts and names have no '#', and its device and command names do not end in "value".
pub random_get_handler_blocked :
    (f : FloatText) (qs : Queues) (devname : Bytes) (requests : List CommandRequest) (frame : Bytes)
    (ev : SensorEvent) (ss : List Bytes) (q : List Bytes) (arrivals : List (List Bytes))
    → get_frame devname requests ≡ done frame
    → qs.get_handler ≡ event_frame ev ss ∷ q
    → IsFrame ev ss
    → ev.name ≢ devname
    → length q + length (concat (take polls arrivals)) < 10
    → random_get_handler f devname requests arrivals qs
      ≡ done (
        none,
        record qs {
          tx = enqueued frame qs.tx;
          get_handler = event_frame ev ss ∷ (q ++ concat (take polls arrivals));
        },
      )
unfolding random_get_handler
random_get_handler_blocked f qs devname requests frame ev ss q arrivals sent head h other room =
    let total = concat-rounds polls arrivals in
    ground (
      arith,
      sent,
      head,
      total,
      wait_blocked f devname requests (event_frame ev ss) (rounds polls arrivals) q
          (read_reply_other f ev ss devname requests h other) (rw total (omega arith)),
    )
