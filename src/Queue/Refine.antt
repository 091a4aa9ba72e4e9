-- ===== src/Queue/Refine.antt =====
-- The queue of user_queue.c against the FIFO of `Spec`: no call meets a bad pointer, and no
-- sequence of calls tells the two apart.
use device_service_zigbee.Prelude.{
  ℕ, ◌^◌, ◌<◌, ◌≡◌, refl, ◌∙◌, inl, inr, List, [], ◌∷◌, ◌++◌, arith, Bytes, ◌==◌, length,
  Bool-cases, ==_iff,
}
use device_service_zigbee.Prelude.Outcome.{Outcome, done, ◌>>=◌}
use device_service_zigbee.Queue.{
  Heap, Queue, load, create_queue, pop_front, clear_q_node, en_queue, read_q_node, de_queue,
  size_queue,
}
use device_service_zigbee.Queue.Spec
use device_service_zigbee.Queue.Spec.{
  Op, enqueue, dequeue, read, clear, size, Reply, nothing, text, number,
}
use device_service_zigbee.Queue.Chain.{
  Nodes, node, strs, head_ptr, IsQueue, length-strs, strs-append,
}
use device_service_zigbee.Queue.Link.{pop_front-IsQueue, en_queue_room, en_queue_full}

-- what holds of a call that meets its specification
abbrev Refines : ℕ → Outcome (Reply × Queue) → Reply × Spec.Fifo → Type 0
Refines cap o r =
    (q : Queue) × (ys : Nodes) × (o ≡ done (r.0, q))
    × (strs ys ≡ r.1)
    × IsQueue q ys
    × (q.cap ≡ cap)

-- a client's call
pub perform : Queue → Op → Outcome (Reply × Queue)
perform q (enqueue s) = do q' ← en_queue q s; done (nothing, q')
perform q dequeue = do (o, q') ← de_queue q; done (text o, q')
perform q read = do o ← read_q_node q; done (text o, q)
perform q clear = do q' ← clear_q_node q; done (nothing, q')
perform q size = done (number (size_queue q), q)

en_queue-Refines :
    (q : Queue) (xs : Nodes) (s : Bytes)
    → IsQueue q xs
    → Refines q.cap (perform q (enqueue s)) (Spec.call q.cap (strs xs) (enqueue s))
unfolding perform Spec.call
en_queue-Refines q [] s v =
    let (q', e, w, c) = en_queue_room s v (omega (arith, v.positive)) in
    (q', (q.heap.fresh, s) ∷ [], ground (arith, e), ground arith, w, c)
en_queue-Refines q ((a, u) ∷ xs) s v = elim (Bool-cases (length ((a, u) ∷ xs) == q.cap)) [
  | inl full ↦
      let (q', e, w, c) = en_queue_full a u xs s v ((==_iff _ _).0 full) in
      (
        q',
        xs ++ (q.heap.fresh, s) ∷ [],
        ground (arith, e),
        ground (arith, full, length-strs xs, strs-append xs ((q.heap.fresh, s) ∷ [])),
        w,
        c,
      )
  | inr room ↦
      let (q', e, w, c) = en_queue_room s v (ground (arith, v.within)) in
      (
        q',
        (a, u) ∷ xs ++ (q.heap.fresh, s) ∷ [],
        ground (arith, e),
        ground (arith, room, length-strs xs, strs-append xs ((q.heap.fresh, s) ∷ [])),
        w,
        c,
      )
]

-- No call on a queue meets a fault, and each returns and leaves what the FIFO does.
perform-Refines :
    (q : Queue) (xs : Nodes) (o : Op)
    → IsQueue q xs
    → Refines q.cap (perform q o) (Spec.call q.cap (strs xs) o)
unfolding perform Spec.call de_queue read_q_node load clear_q_node size_queue
perform-Refines q xs (enqueue s) v = unfold perform Spec.call in en_queue-Refines q xs s v
perform-Refines q [] dequeue v = (q, [], ground (arith, v.front), refl, v, refl)
perform-Refines q ((a, s) ∷ xs) dequeue v = (
  pop_front q a (node s (head_ptr xs)),
  xs,
  ground (arith, v.front, v.cells.0),
  refl,
  pop_front-IsQueue q a s xs v,
  unfold pop_front in refl,
)
perform-Refines q [] read v = (q, [], ground (arith, v.front), refl, v, refl)
perform-Refines q ((a, s) ∷ xs) read v =
    (q, (a, s) ∷ xs, ground (arith, v.front, v.cells.0), refl, v, refl)
perform-Refines q [] clear v = (q, [], ground (arith, v.front), refl, v, refl)
perform-Refines q ((a, s) ∷ xs) clear v = (
  pop_front q a (node s (head_ptr xs)),
  xs,
  ground (arith, v.front, v.cells.0),
  refl,
  pop_front-IsQueue q a s xs v,
  unfold pop_front in refl,
)
perform-Refines q xs size v = (q, xs, ground (arith, v.size, length-strs xs), refl, v, refl)

-- a client's calls in order, with what each returns
pub performs : Queue → List Op → Outcome (List Reply × Queue)
performs q [] = done ([], q)
performs q (o ∷ os) = do (r, q') ← perform q o; (rs, q'') ← performs q' os; done (r ∷ rs, q'')

-- The calls return what those of the FIFO return, and leave a queue that holds what it holds.
abbrev pub RunsAs : ℕ → Spec.Fifo → Queue → List Op → Type 0
RunsAs cap xs q os =
    (q' : Queue) × (ys : Nodes) × (performs q os ≡ done ((Spec.calls cap xs os).0, q'))
    × (strs ys ≡ (Spec.calls cap xs os).1)
    × IsQueue q' ys

pub performs-RunsAs :
    (os : List Op) (q : Queue) (xs : Nodes) (cap : ℕ)
    → q.cap ≡ cap
    → IsQueue q xs
    → RunsAs cap (strs xs) q os
unfolding performs Spec.calls
performs-RunsAs [] q xs cap c v = (q, xs, refl, refl, v)
performs-RunsAs (o ∷ os) q xs cap c v =
    let (q₁, ys, e, held, w, c₁) = perform-Refines q xs o v in
    let (q₂, zs, e₂, held₂, w₂) = performs-RunsAs os q₁ ys cap (c₁ ∙ c) w in
    (q₂, zs, ground (arith, c, e, held, e₂), ground (arith, c, held, held₂), w₂)

create_queue-IsQueue :
    (h : Heap) (cap : ℕ) → 0 < cap → cap < 2 ^ 16 → IsQueue (create_queue h cap) []
unfolding create_queue
create_queue-IsQueue h cap pos small = record {
  front = refl;
  rear = refl;
  size = refl;
  cells = tt;
  distinct = tt;
  below = tt;
  within = omega arith;
  positive = pos;
  small = small;
}

-- A new queue with a capacity from 1 to 65535 meets no bad pointer in any sequence of calls of
-- `enQueue`, `deQueue`, `readQNode`, `clearQNode` and `sizeQueue`. The calls return what those of
-- the FIFO that drops its oldest entry when full return, and the list on the heap holds at the end
-- what the FIFO holds.
pub create_queue-performs :
    (h : Heap) (cap : ℕ) (os : List Op)
    → 0 < cap
    → cap < 2 ^ 16
    → RunsAs cap [] (create_queue h cap) os
unfolding create_queue
create_queue-performs h cap os pos small =
    performs-RunsAs os (create_queue h cap) [] cap refl (create_queue-IsQueue h cap pos small)
