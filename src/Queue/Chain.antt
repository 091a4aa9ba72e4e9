-- ===== src/Queue/Chain.antt =====
-- The heap under a queue: a chain of distinct nodes from `front` to `rear`, and what storing into
-- the heap does to it.
use device_service_zigbee.Prelude.{
  ℕ, suc, ◌^◌, ◌≤◌, ◌<◌, ◌≡◌, refl, ◌≢◌, ap, Option, none, some, List, [], ◌∷◌, ◌++◌, arith, Bytes,
  length,
}
use device_service_zigbee.Queue.{QNode, Queue, update}

-- the nodes in order, each with its address
abbrev pub Nodes : Type 0
Nodes = List (ℕ × Bytes)

abbrev pub node : Bytes → Option ℕ → QNode
node s p = record { str = s; next = p }

abbrev pub strs : Nodes → List Bytes
strs [] = []
strs ((a, s) ∷ xs) = s ∷ strs xs

abbrev pub head_ptr : Nodes → Option ℕ
head_ptr [] = none
head_ptr ((a, s) ∷ xs) = some a

abbrev pub last_ptr : Nodes → Option ℕ
last_ptr [] = none
last_ptr ((a, s) ∷ []) = some a
last_ptr ((a, s) ∷ x ∷ xs) = last_ptr (x ∷ xs)

abbrev pub Avoids : ℕ → Nodes → Type 0
Avoids a [] = Unit
Avoids a ((b, s) ∷ xs) = (b ≢ a) × Avoids a xs

abbrev pub Below : ℕ → Nodes → Type 0
Below k [] = Unit
Below k ((b, s) ∷ xs) = (b < k) × Below k xs

abbrev pub Distinct : Nodes → Type 0
Distinct [] = Unit
Distinct ((a, s) ∷ xs) = Avoids a xs × Distinct xs

-- each address holds its string and the address of the next
abbrev pub Cells : (ℕ → Option QNode) → Nodes → Type 0
Cells c [] = Unit
Cells c ((a, s) ∷ xs) = (c a ≡ some (node s (head_ptr xs))) × Cells c xs

-- a queue whose nodes are `xs`
pub record IsQueue (q : Queue) (xs : Nodes) : Type 0 where
  pub front : q.front ≡ head_ptr xs
  pub rear : q.rear ≡ last_ptr xs
  pub size : q.size ≡ length xs
  pub cells : Cells q.heap.cell xs
  pub distinct : Distinct xs
  pub below : Below q.heap.fresh xs
  pub within : length xs ≤ q.cap
  pub positive : 0 < q.cap
  pub small : q.cap < 2 ^ 16

pub length-strs : (xs : Nodes) → length (strs xs) ≡ length xs
length-strs [] = refl
length-strs ((a, s) ∷ xs) = ap suc (length-strs xs)

pub strs-append : (xs ys : Nodes) → strs (xs ++ ys) ≡ strs xs ++ strs ys
strs-append [] ys = refl
strs-append ((a, s) ∷ xs) ys = ap (◌∷◌ s) (strs-append xs ys)

pub last_ptr-append : (xs : Nodes) (t : ℕ) (s : Bytes) → last_ptr (xs ++ (t, s) ∷ []) ≡ some t
last_ptr-append [] t s = refl
last_ptr-append ((a, u) ∷ []) t s = refl
last_ptr-append ((a, u) ∷ x ∷ xs) t s = last_ptr-append (x ∷ xs) t s

pub Avoids-of_Below : (k : ℕ) (xs : Nodes) → Below k xs → Avoids k xs
Avoids-of_Below k [] h = tt
Avoids-of_Below k ((b, s) ∷ xs) h = (omega arith, Avoids-of_Below k xs h.1)

pub Below-suc : (k : ℕ) (xs : Nodes) → Below k xs → Below (suc k) xs
Below-suc k [] h = tt
Below-suc k ((b, s) ∷ xs) h = (omega arith, Below-suc k xs h.1)

pub Below-append :
    (k t : ℕ) (s : Bytes) (xs : Nodes) → Below k xs → t < k → Below k (xs ++ (t, s) ∷ [])
Below-append k t s [] h lt = (lt, tt)
Below-append k t s ((b, u) ∷ xs) h lt = (h.0, Below-append k t s xs h.1 lt)

pub Avoids-append :
    (a t : ℕ) (s : Bytes) (xs : Nodes) → Avoids a xs → t ≢ a → Avoids a (xs ++ (t, s) ∷ [])
Avoids-append a t s [] h ne = (ne, tt)
Avoids-append a t s ((b, u) ∷ xs) h ne = (h.0, Avoids-append a t s xs h.1 ne)

pub Distinct-append :
    (t : ℕ) (s : Bytes) (xs : Nodes) → Distinct xs → Avoids t xs → Distinct (xs ++ (t, s) ∷ [])
Distinct-append t s [] d h = (tt, tt)
Distinct-append t s ((b, u) ∷ xs) d h =
    (Avoids-append b t s xs d.0 (λ e. h.0 (omega arith)), Distinct-append t s xs d.1 h.1)

pub Cells-update :
    (c : ℕ → Option QNode) (a : ℕ) (v : Option QNode) (xs : Nodes)
    → Avoids a xs
    → Cells c xs
    → Cells (update c a v) xs
Cells-update c a v [] h k = tt
Cells-update c a v ((b, s) ∷ xs) h k = (ground arith, Cells-update c a v xs h.1 k.1)

last_ptr-ne : (a r : ℕ) (xs : Nodes) → Avoids a xs → last_ptr xs ≡ some r → r ≢ a
last_ptr-ne a r [] h e = cc
last_ptr-ne a r ((b, s) ∷ []) h e = ground arith
last_ptr-ne a r ((b, s) ∷ x ∷ xs) h e = last_ptr-ne a r (x ∷ xs) h.1 e

-- what `enQueue` finds behind `rear`, and what it makes of the chain
abbrev pub Extended : (ℕ → Option QNode) → ℕ → ℕ → Bytes → Nodes → Type 0
Extended c r t s xs =
    (n : QNode) × (c r ≡ some n)
    × Cells (update c r (some (record n { next = some t }))) (xs ++ (t, s) ∷ [])

pub Cells-link :
    (c : ℕ → Option QNode) (r t : ℕ) (s : Bytes) (xs : Nodes)
    → Distinct xs
    → Avoids t xs
    → Cells c xs
    → c t ≡ some (node s none)
    → last_ptr xs ≡ some r
    → Extended c r t s xs
Cells-link c r t s [] d h k e l = cc
Cells-link c r t s ((a, u) ∷ []) d h k e l =
    (node u none, ground arith, (ground arith, (ground arith, tt)))
Cells-link c r t s ((a, u) ∷ (b, w) ∷ xs) d h k e l =
    let (n, found, cells) = Cells-link c r t s ((b, w) ∷ xs) d.1 h.1 k.1 e l in
    (n, found, (ground (arith, last_ptr-ne a r ((b, w) ∷ xs) d.0 l), cells))

pub last_ptr-cons : (x : ℕ × Bytes) (xs : Nodes) → (r : ℕ) × (last_ptr (x ∷ xs) ≡ some r)
last_ptr-cons (a, s) [] = (a, refl)
last_ptr-cons (a, s) (y ∷ xs) = last_ptr-cons y xs
