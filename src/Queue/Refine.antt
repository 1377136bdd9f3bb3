-- ===== src/Queue/Refine.antt =====
-- util/queue.c implements the FIFO list of Queue/Fifo.antt, with no fault.
use vmsim.Prelude.{
  ℕ, suc, zero, ◌+◌, ◌<◌, ◌≡◌, refl, ◌≢◌, none, some, [], ◌∷◌, ◌++◌, arith, ◌==◌, sym, ap, ◌∙◌,
  if◌then◌else◌, length, ℤ, pos, length-append,
}
use vmsim.Node.{Ptr, null, Node, node, Heap, write, for_each_loop}
use vmsim.Run.{ok}
use vmsim.Queue.Fifo
use vmsim.Queue.{Queue, queue_init, queue_pop, queue_push, queue_for_each}
use vmsim.Queue.Linked.{
  Cells, occurs, first, last, items, Linked, IsQueue, Linked-frame, occurs-none, Linked-append,
  tail_after_pop, items-append, last-append, first-append, last-node,
}

module _ {A : Type 0} where
  pub queue_init-IsQueue :
      (h : Heap A) (fresh : Ptr)
      → fresh ≢ null
      → (q : Queue) × (queue_init fresh ≡ ok q) × IsQueue h q []
  unfolding queue_init
  queue_init-IsQueue h fresh ne = (
    record { head = null; tail = null; size = 0 },
    ground arith,
    record { head = refl; tail = refl; size = refl; linked = tt },
  )

  module _ (nothing : A) where
    -- queue_pop on a well-formed queue ends without a fault, gives what the FIFO list gives, and
    -- leaves a well-formed queue with the rest.
    pub queue_pop_refines :
        (h : Heap A) (q : Queue) (xs : Cells A)
        → IsQueue h q xs
        → (x : A) × (q' : Queue) × (h' : Heap A) × (ys : Cells A) × (queue_pop nothing q h
            ≡ ok (x, q', h'))
          × IsQueue h' q' ys
          × ((x, items ys) ≡ Fifo.pop nothing (items xs))
    unfolding queue_pop Fifo.pop write
    queue_pop_refines h q [] is = (nothing, q, h, [], ground arith, is, refl)
    queue_pop_refines h q ((p, v) ∷ xs) is = (
      v,
      record { head = first xs; tail = last xs; size = length xs },
      write h p none,
      xs,
      rw (is.head, is.tail, is.size) (ground (arith, is.linked, tail_after_pop p v xs)),
      record {
        head = refl;
        tail = refl;
        size = refl;
        linked = Linked-frame h _ xs (λ a o. ground arith) is.linked.3;
      },
      refl,
    )

    -- the heap after a push behind the node `n` at `t`
    abbrev pushed : Heap A → Ptr → A → Ptr → Node A → Heap A
    pushed h fresh v t n =
        write (write (write h fresh (some (node nothing null))) fresh (some (node v null))) t
          (some (record n { next = fresh }))

    pushed-fresh :
        (h : Heap A) (fresh : Ptr) (v : A) (t : Ptr) (n : Node A)
        → t ≢ fresh
        → pushed h fresh v t n fresh ≡ some (node v null)
    unfolding write
    pushed-fresh h fresh v t n ne = ground arith

    pushed-other :
        (h : Heap A) (fresh : Ptr) (v : A) (t : Ptr) (n : Node A) (a : Ptr)
        → a ≢ t
        → a ≢ fresh
        → pushed h fresh v t n a ≡ h a
    unfolding write
    pushed-other h fresh v t n a ne ne' = ground arith

    pushed-last :
        (h : Heap A) (fresh : Ptr) (v : A) (t : Ptr) (n m : Node A)
        → h t ≡ some n
        → h t ≡ some m
        → pushed h fresh v t n t ≡ some (record m { next = fresh })
    unfolding write
    pushed-last h fresh v t n m e e' = ground arith

    queue_push-link :
        (h : Heap A) (q : Queue) (fresh : Ptr) (v : A) (t : Ptr) (n : Node A)
        → q.tail ≡ t
        → t ≢ null
        → h t ≡ some n
        → fresh ≢ null
        → t ≢ fresh
        → queue_push nothing fresh q v h
          ≡ ok (
            pos 0,
            record { head = q.head; tail = fresh; size = q.size + 1 },
            pushed h fresh v t n,
          )
    unfolding queue_push write
    queue_push-link h q fresh v t n e nt et nf ne = ground arith

    -- queue_push on a well-formed queue, with a pointer from malloc that is neither null nor in use,
    -- ends without a fault, leaves a well-formed queue with the item at the end of the FIFO list,
    -- and returns 1 exactly when the queue was empty.
    pub queue_push_refines :
        (h : Heap A) (q : Queue) (xs : Cells A) (fresh : Ptr) (v : A)
        → IsQueue h q xs
        → fresh ≢ null
        → h fresh ≡ none
        → (status : ℤ) × (q' : Queue) × (h' : Heap A) × (queue_push nothing fresh q v h
            ≡ ok (status, q', h'))
          × IsQueue h' q' (xs ++ (fresh, v) ∷ [])
          × (items (xs ++ (fresh, v) ∷ []) ≡ Fifo.push (items xs) v)
          × (status ≡ (if q.size == 0 then pos 1 else pos 0))
    unfolding queue_push Fifo.push write
    queue_push_refines h q [] fresh v is ne new = (
      pos 1,
      record { head = fresh; tail = fresh; size = 1 },
      write (write h fresh (some (node nothing null))) fresh (some (node v null)),
      ground arith,
      record { head = refl; tail = refl; size = refl; linked = (ne, ground arith, refl, tt) },
      refl,
      ground arith,
    )
    queue_push_refines h q (y ∷ xs) fresh v is ne new =
        let (ln, n, e) = last-node h y xs is.linked in
        let apart : last (y ∷ xs) ≢ fresh = λ p. cc (sym e ∙ ap h p ∙ new) in
        (
          pos 0,
          record { head = q.head; tail = fresh; size = q.size + 1 },
          pushed h fresh v (last (y ∷ xs)) n,
          queue_push-link h q fresh v (last (y ∷ xs)) n is.tail ln e ne apart,
          record {
            head = ground (arith, is.head, first-append xs (fresh, v));
            tail = sym (last-append (y ∷ xs) (fresh, v));
            size = omega (arith, is.size, length-append (y ∷ xs) ((fresh, v) ∷ []));
            linked =
                Linked-append h (pushed h fresh v (last (y ∷ xs)) n) fresh v (y ∷ xs) ne
                  (pushed-fresh h fresh v _ n apart) (occurs-none h fresh (y ∷ xs) new is.linked)
                  (λ a o d. pushed-other h fresh v _ n a d (λ p. cc (
                    sym o
                    ∙ ap (λ b. occurs b (y ∷ xs)) p
                    ∙ occurs-none h fresh (y ∷ xs) new is.linked)))
                  (λ m em. pushed-last h fresh v _ n m e em) is.linked;
          },
          items-append (y ∷ xs) ((fresh, v) ∷ []),
          ground (arith, is.size),
        )

  for_each_loop-items :
      (h : Heap A) (xs : Cells A) (f : ℕ)
      → length xs < f
      → Linked h xs
      → for_each_loop f h (first xs) ≡ ok (items xs)
  unfolding for_each_loop
  for_each_loop-items h xs zero lt l = absurd (omega arith)
  for_each_loop-items h [] (suc f) lt l = refl
  for_each_loop-items h ((p, v) ∷ xs) (suc f) lt l =
      ground (arith, l.0, l.1, for_each_loop-items h xs f (omega arith) l.3)

  -- queue_for_each on a well-formed queue ends without a fault and calls the function with every
  -- item, in the order in which they would be popped.
  pub queue_for_each-items :
      (h : Heap A) (q : Queue) (xs : Cells A) → IsQueue h q xs → queue_for_each q h ≡ ok (items xs)
  unfolding queue_for_each
  queue_for_each-items h q xs is =
      rw is.head (for_each_loop-items h xs (q.size + 1) (omega (arith, is.size)) is.linked)
