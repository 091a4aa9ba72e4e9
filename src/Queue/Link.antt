-- ===== src/Queue/Link.antt =====
-- How `enQueue` and `clearQNode` change the chain of nodes under a queue.
use device_service_zigbee.Prelude.{
  ℕ, suc, ◌<◌, ◌≡◌, refl, sym, none, some, [], ◌∷◌, ◌++◌, arith, Bytes, length, length-append,
}
use device_service_zigbee.Prelude.Outcome.{Outcome, done}
use device_service_zigbee.Queue.{
  Heap, Queue, update, incr, load, new_node, free_q_node, pop_front, clear_q_node, link, en_queue,
}
use device_service_zigbee.Queue.Chain.{
  Nodes, node, head_ptr, Avoids, IsQueue, last_ptr-append, Avoids-of_Below, Below-suc, Below-append,
  Distinct-append, Cells-update, Cells-link, last_ptr-cons,
}

-- a queue of nodes `xs`, and a new node `t` that is not linked yet
record Ready (q : Queue) (xs : Nodes) (t : ℕ) (s : Bytes) : Type 0 where
  queue : IsQueue q xs
  cell : q.heap.cell t ≡ some (node s none)
  apart : Avoids t xs
  old : t < q.heap.fresh

abbrev with_heap : Queue → Heap → Queue
with_heap q h = record q { heap = h }

new_node-Ready :
    {q : Queue} {xs : Nodes} (s : Bytes)
    → IsQueue q xs
    → Ready (with_heap q (new_node s q.heap).1) xs q.heap.fresh s
unfolding new_node
new_node-Ready {q} {xs} s v = record {
  queue = record {
    front = v.front;
    rear = v.rear;
    size = v.size;
    cells =
        Cells-update q.heap.cell q.heap.fresh _ xs (Avoids-of_Below q.heap.fresh xs v.below)
          v.cells;
    distinct = v.distinct;
    below = Below-suc q.heap.fresh xs v.below;
    within = v.within;
    positive = v.positive;
    small = v.small;
  };
  cell = ground arith;
  apart = Avoids-of_Below q.heap.fresh xs v.below;
  old = omega arith;
}

-- What taking the first node off a queue leaves.
pub pop_front-IsQueue :
    (q : Queue) (a : ℕ) (s : Bytes) (xs : Nodes)
    → IsQueue q ((a, s) ∷ xs)
    → IsQueue (pop_front q a (node s (head_ptr xs))) xs
unfolding pop_front free_q_node
pop_front-IsQueue q a s [] v = ground arith
pop_front-IsQueue q a s (x ∷ xs) v = record {
  front = refl;
  rear = v.rear;
  size = omega (arith, v.size, v.within, v.small);
  cells = Cells-update q.heap.cell a none (x ∷ xs) v.distinct.0 v.cells.1;
  distinct = v.distinct.1;
  below = v.below.1;
  within = omega (arith, v.within);
  positive = v.positive;
  small = v.small;
}

clear_q_node-nil : (q : Queue) → IsQueue q [] → clear_q_node q ≡ done q
unfolding clear_q_node
clear_q_node-nil q v = ground (arith, v.front)

clear_q_node-cons :
    (q : Queue) (a : ℕ) (s : Bytes) (xs : Nodes)
    → IsQueue q ((a, s) ∷ xs)
    → clear_q_node q ≡ done (pop_front q a (node s (head_ptr xs)))
unfolding clear_q_node load
clear_q_node-cons q a s xs v = ground (arith, v.front, v.cells.0)

pop_front-Ready :
    (q : Queue) (a : ℕ) (u : Bytes) (xs : Nodes) {t : ℕ} {s : Bytes}
    → Ready q ((a, u) ∷ xs) t s
    → Ready (pop_front q a (node u (head_ptr xs))) xs t s
pop_front-Ready q a u xs r = record {
  queue = pop_front-IsQueue q a u xs r.queue;
  cell = unfold pop_front free_q_node in ground (arith, r.apart.0, r.cell);
  apart = r.apart.1;
  old = unfold pop_front free_q_node in r.old;
}

-- What a call leaves, when it meets no fault: a queue of nodes `ys`, of the same capacity.
abbrev pub Leaves : ℕ → Outcome Queue → Nodes → Type 0
Leaves cap o ys = (q : Queue) × (o ≡ done q) × IsQueue q ys × (q.cap ≡ cap)

length-snoc : (xs : Nodes) (x : ℕ × Bytes) → length (xs ++ x ∷ []) ≡ suc (length xs)
length-snoc xs x = omega (arith, length-append xs (x ∷ []))

link-nil : (q : Queue) (t : ℕ) (s : Bytes) → Ready q [] t s → Leaves q.cap (link q t) ((t, s) ∷ [])
unfolding link
link-nil q t s r = (
  record q { size = incr q.size; front = some t; rear = some t },
  ground (arith, r.queue.rear),
  record {
    front = refl;
    rear = refl;
    size = omega (arith, r.queue.size);
    cells = (r.cell, tt);
    distinct = (tt, tt);
    below = (r.old, tt);
    within = omega (arith, r.queue.positive);
    positive = r.queue.positive;
    small = r.queue.small;
  },
  refl,
)

link-cons :
    (q : Queue) (t : ℕ) (s : Bytes) (x : ℕ × Bytes) (xs : Nodes)
    → Ready q (x ∷ xs) t s
    → length (x ∷ xs) < q.cap
    → Leaves q.cap (link q t) (x ∷ xs ++ (t, s) ∷ [])
unfolding link load
link-cons q t s (a, u) xs r room =
    let v = r.queue in
    let (p, last) = last_ptr-cons (a, u) xs in
    let (n, found, cells) =
      Cells-link q.heap.cell p t s ((a, u) ∷ xs) v.distinct r.apart v.cells r.cell last in
    (
      record q {
        heap = record q.heap { cell = update q.heap.cell p (some (record n { next = some t })) };
        size = incr q.size;
        rear = some t;
      },
      ground (arith, v.rear, last, found),
      record {
        front = v.front;
        rear = sym (last_ptr-append ((a, u) ∷ xs) t s);
        size = omega (arith, v.size, v.small, length-snoc xs (t, s));
        cells = cells;
        distinct = Distinct-append t s ((a, u) ∷ xs) v.distinct r.apart;
        below = Below-append q.heap.fresh t s ((a, u) ∷ xs) v.below r.old;
        within = omega (arith, length-snoc xs (t, s));
        positive = v.positive;
        small = v.small;
      },
      refl,
    )

link-Leaves :
    (q : Queue) (t : ℕ) (s : Bytes) (xs : Nodes)
    → Ready q xs t s
    → length xs < q.cap
    → Leaves q.cap (link q t) (xs ++ (t, s) ∷ [])
link-Leaves q t s [] r room = link-nil q t s r
link-Leaves q t s (x ∷ xs) r room = link-cons q t s x xs r room

pub en_queue_room :
    {q : Queue} {xs : Nodes} (s : Bytes)
    → IsQueue q xs
    → length xs < q.cap
    → Leaves q.cap (en_queue q s) (xs ++ (q.heap.fresh, s) ∷ [])
unfolding en_queue new_node
en_queue_room {q} {xs} s v room =
    let (q', e, w, c) = link-Leaves _ q.heap.fresh s xs (new_node-Ready s v) room in
    (q', ground (arith, v.size, e), w, c)

pub en_queue_full :
    {q : Queue} (a : ℕ) (u : Bytes) (xs : Nodes) (s : Bytes)
    → IsQueue q ((a, u) ∷ xs)
    → suc (length xs) ≡ q.cap
    → Leaves q.cap (en_queue q s) (xs ++ (q.heap.fresh, s) ∷ [])
unfolding en_queue new_node
en_queue_full {q} a u xs s v full =
    let r = new_node-Ready s v in
    let (q', e, w, c) =
      link-Leaves _ q.heap.fresh s xs (pop_front-Ready _ a u xs r)
        (unfold pop_front in omega arith) in
    (q', ground (arith, v.size, clear_q_node-cons _ a u xs r.queue, e), w, c)
