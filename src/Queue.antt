-- ===== src/Queue.antt =====
-- util/queue.h, util/queue.c: a FIFO queue of linked nodes with its head, its tail and its size.
pub mod Fifo
pub mod Linked
pub mod Refine
use vmsim.Prelude.{
  ℕ, suc, ◌+◌, ◌-◌, Bool, true, false, Option, none, some, List, [], ◌∷◌, ◌==◌, if◌then◌else◌, ltb,
  not, ℤ, pos, negsuc,
}
use vmsim.Node.{
  Ptr, null, Node, Heap, node_init, node_set_data, node_set_next, node_destroy, for_each_loop, load,
}
use vmsim.Run.{Run, ok, fault, ◌>>=◌, ◌>>◌, assert}

-- `queue_t`. The size is an `int`; it counts allocated nodes, so it does not overflow.
pub record Queue : Type 0 where
  pub head : Ptr
  pub tail : Ptr
  pub size : ℕ

-- `fresh` is what `malloc` returns
unfoldable pub queue_init : Ptr → Run Queue
queue_init fresh = do
  assert (not (fresh == null))
  ok (record { head = null; tail = null; size = 0 })

unfoldable pub queue_size : Queue → ℕ
queue_size q = q.size

module _ {A : Type 0} (nothing : A) where
  -- the node that is popped is freed; `nothing` stands for `NULL`
  unfoldable pub queue_pop : Queue → Heap A → Run (A × Queue × Heap A)
  unfolding load node_destroy
  queue_pop q h =
      if ltb 0 q.size
      then (do
        n ← load h q.head
        (_, h') ← node_destroy none q.head h
        ok (
          n.item,
          record {
            head = n.next;
            tail = if q.head == q.tail then null else q.tail;
            size = q.size - 1;
          },
          h',
        ))
      else ok (nothing, q, h)

  -- `fresh` is what `malloc` returns for the new node
  unfoldable pub queue_push : Ptr → Queue → A → Heap A → Run (ℤ × Queue × Heap A)
  unfolding node_init node_set_data node_set_next
  queue_push fresh q item h = do
    (node, h₁) ← node_init nothing fresh h
    (_, h₂) ← node_set_data node item h₁
    (status, h₃) ← node_set_next q.tail node h₂
    ok (
      status,
      record {
        head = elim status [ pos n ↦ if n == 1 then node else q.head | negsuc _ ↦ q.head ];
        tail = node;
        size = q.size + 1;
      },
      h₃,
    )

module _ {A : Type 0} where
  -- the calls that `func` gets, in order; the loop is given one round more than there are nodes
  unfoldable pub queue_for_each : Queue → Heap A → Run (List A)
  unfolding for_each_loop
  queue_for_each q h = for_each_loop (q.size + 1) h q.head

-- the header is freed only if the queue is empty; the Boolean says whether it was
unfoldable pub queue_destroy : Queue → ℤ × Bool
queue_destroy q = if q.size == 0 then (pos 0, true) else (negsuc 0, false)
