-- ===== src/Queue/Free.antt =====
-- `freeQueue`: it ends, and gives back exactly the nodes of the queue.
use device_service_zigbee.Prelude.{ℕ, zero, suc, ◌≤◌, ◌≡◌, refl, none, some, [], ◌∷◌, arith, length}
use device_service_zigbee.Prelude.Outcome.{done}
use device_service_zigbee.Queue.{Heap, Queue, load, free_q_node, free_nodes, free_queue}
use device_service_zigbee.Queue.Chain.{
  Nodes, head_ptr, Avoids, Distinct, Cells, IsQueue, Cells-update,
}

-- the addresses hold no node any more
abbrev pub Freed : Heap → Nodes → Type 0
Freed h [] = Unit
Freed h ((a, s) ∷ xs) = (h.cell a ≡ none) × Freed h xs

-- what `freeQueue` leaves of the heap: its own nodes are gone, and nothing else is touched
pub record IsFreed (h h' : Heap) (xs : Nodes) : Type 0 where
  pub freed : Freed h' xs
  pub others : (b : ℕ) → Avoids b xs → h'.cell b ≡ h.cell b

free_nodes-IsFreed :
    (xs : Nodes) (fuel : ℕ) (h : Heap)
    → Cells h.cell xs
    → Distinct xs
    → length xs ≤ fuel
    → (h' : Heap) × (free_nodes fuel (head_ptr xs) h ≡ done (some h')) × IsFreed h h' xs
unfolding free_nodes load free_q_node
free_nodes-IsFreed [] fuel h c d l =
    (h, ground arith, record { freed = tt; others = λ b apart. refl })
free_nodes-IsFreed ((a, s) ∷ xs) zero h c d l = absurd (omega arith)
free_nodes-IsFreed ((a, s) ∷ xs) (suc fuel) h c d l =
    let h₁ = free_q_node a h in
    let (h', e, w) =
      free_nodes-IsFreed xs fuel h₁ (Cells-update h.cell a none xs d.0 c.1) d.1 (omega arith) in
    (
      h',
      ground (arith, c.0, e),
      record {
        freed = (ground (arith, w.others a d.0), w.freed);
        others = λ b apart. ground (arith, w.others b apart.1, apart.0);
      },
    )

-- `freeQueue` ends within as many rounds as the queue has entries and meets no bad pointer. It
-- frees every node of the queue and changes no other cell of the heap.
pub free_queue-IsFreed :
    (q : Queue) (xs : Nodes)
    → IsQueue q xs
    → (h : Heap) × (free_queue q ≡ done (some h)) × IsFreed q.heap h xs
unfolding free_queue
free_queue-IsFreed q xs v =
    let (h, e, w) =
      free_nodes-IsFreed xs q.size q.heap v.cells v.distinct (omega (arith, v.size)) in
    (h, ground (arith, v.front, e), w)
