-- ===== src/Tests/QueueTest.antt =====
-- util/queue.c on a queue of two nodes.
use vmsim.Prelude.{ℕ, ◌≡◌, refl, none, some, [], ◌∷◌, ◌++◌, arith, ◌==◌, if◌then◌else◌, ℤ, pos}
use vmsim.Run.{ok}
use vmsim.Node.{node, null, Heap}
use vmsim.Queue.Fifo
use vmsim.Queue.{Queue, queue_pop, queue_push}
use vmsim.Queue.Linked.{Cells, IsQueue, items}
use vmsim.Queue.Refine.{queue_pop_refines, queue_push_refines}

abbrev two_nodes : Heap ℕ
two_nodes p = if p == 7 then some (node 10 4) else if p == 4 then some (node 20 null) else none

abbrev two_cells : Cells ℕ
two_cells = (7, 10) ∷ (4, 20) ∷ []

abbrev two_items : Queue
two_items = record { head = 7; tail = 4; size = 2 }

two_items-IsQueue : IsQueue two_nodes two_items two_cells
two_items-IsQueue = record {
  head = refl;
  tail = refl;
  size = refl;
  linked = (ground arith, refl, ground arith, (ground arith, refl, ground arith, tt));
}

queue_pop_refines_example :
    (x : ℕ) × (q' : Queue) × (h' : Heap ℕ) × (ys : Cells ℕ) × (queue_pop 0 two_items two_nodes
      ≡ ok (x, q', h'))
    × IsQueue h' q' ys
    × ((x, items ys) ≡ Fifo.pop 0 (items two_cells))
queue_pop_refines_example = queue_pop_refines 0 two_nodes two_items two_cells two_items-IsQueue

queue_push_refines_example :
    (status : ℤ) × (q' : Queue) × (h' : Heap ℕ) × (queue_push 0 9 two_items 30 two_nodes
      ≡ ok (status, q', h'))
    × IsQueue h' q' (two_cells ++ (9, 30) ∷ [])
    × (items (two_cells ++ (9, 30) ∷ []) ≡ Fifo.push (items two_cells) 30)
    × (status ≡ (if two_items.size == 0 then pos 1 else pos 0))
queue_push_refines_example =
    queue_push_refines 0 two_nodes two_items two_cells 9 30 two_items-IsQueue (ground arith) refl
