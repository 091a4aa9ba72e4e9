-- ===== src/Queue/Spec.antt =====
-- What a queue of user_queue.c promises: a FIFO of at most `cap` strings that makes room for a new
-- one by dropping its oldest. Clients see the calls `Op` and, of each, a reply.
use device_service_zigbee.Prelude.{
  ℕ, Option, none, some, List, [], ◌∷◌, ◌++◌, Bytes, ◌==◌, if◌then◌else◌, length, tail,
}

abbrev pub Fifo : Type 0
Fifo = List Bytes

-- the calls of a client
pub data Op : Type 0 where
  enqueue : Bytes → Op
  dequeue read clear size : Op

-- what a call lets its client see
pub data Reply : Type 0 where
  nothing : Reply
  text : Option Bytes → Reply
  number : ℕ → Reply

abbrev pub push : ℕ → Bytes → Fifo → Fifo
push cap s xs = (if length xs == cap then tail xs else xs) ++ s ∷ []

abbrev pub head : Fifo → Option Bytes
head [] = none
head (x ∷ xs) = some x

unfoldable pub call : ℕ → Fifo → Op → Reply × Fifo
call cap xs (enqueue s) = (nothing, push cap s xs)
call cap xs dequeue = (text (head xs), tail xs)
call cap xs read = (text (head xs), xs)
call cap xs clear = (nothing, tail xs)
call cap xs size = (number (length xs), xs)

unfoldable pub calls : ℕ → Fifo → List Op → List Reply × Fifo
calls cap xs [] = ([], xs)
calls cap xs (o ∷ os) =
    let (r, ys) = call cap xs o in let (rs, zs) = calls cap ys os in (r ∷ rs, zs)
