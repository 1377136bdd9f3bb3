-- ===== src/Node.antt =====
-- util/list.h, util/list.c: singly linked nodes, on an explicit heap of nodes.
use vmsim.Prelude.{
  ℕ, zero, suc, Option, none, some, List, [], ◌∷◌, ◌==◌, if◌then◌else◌, ℤ, pos, negsuc, not,
}
use vmsim.Run.{Run, ok, fault, bad_access, out_of_fuel, ◌>>=◌, ◌>>◌, assert}

abbrev pub Ptr : Type 0
Ptr = ℕ

abbrev pub null : Ptr
null = 0

-- `node_t`, whose data is a value of type `A` in place of a `void*`
pub record Node (A : Type 0) : Type 0 where
  pub item : A
  pub next : Ptr

abbrev pub Heap : Type 0 → Type 0
Heap A = Ptr → Option (Node A)

module _ {A : Type 0} where
  abbrev pub node : A → Ptr → Node A
  node v q = record { item = v; next = q }

  unfoldable pub write : Heap A → Ptr → Option (Node A) → Heap A
  write h p c a = if a == p then c else h a

  -- `*p`
  unfoldable pub load : Heap A → Ptr → Run (Node A)
  load h p =
      if p == null then fault bad_access else elim (h p) [ none ↦ fault bad_access | some n ↦ ok n ]

  -- `fresh` is what `malloc` returns, `nothing` the `NULL` that the node's data is set to
  unfoldable pub node_init : A → Ptr → Heap A → Run (Ptr × Heap A)
  node_init nothing fresh h = do
    assert (not (fresh == null))
    ok (fresh, write h fresh (some (node nothing null)))

  unfoldable pub node_set_data : Ptr → A → Heap A → Run (ℤ × Heap A)
  unfolding load
  node_set_data nd v h =
      if nd == null
      then ok (negsuc 0, h)
      else do n ← load h nd; ok (pos 0, write h nd (some (record n { item = v })))

  unfoldable pub node_set_next : Ptr → Ptr → Heap A → Run (ℤ × Heap A)
  unfolding load
  node_set_next nd q h =
      if nd == null
      then ok (pos 1, h)
      else do n ← load h nd; ok (pos 0, write h nd (some (record n { next = q })))

  -- `destfunc` is `none` when it is `NULL`
  unfoldable pub node_destroy : Option (A → Heap A → Run (Heap A)) → Ptr → Heap A → Run (ℤ × Heap A)
  unfolding load
  node_destroy destfunc nd h = do
    n ← load h nd
    elim destfunc [
      | some destroy ↦ do h' ← destroy n.item h; ok (pos 0, write h' nd none)
      | none ↦ ok (pos 1, write h nd none)
    ]

  -- the loop over the nodes from `p` on; `seen` is what `func` has been called with, in order
  unfoldable pub for_each_loop : ℕ → Heap A → Ptr → Run (List A)
  unfolding load
  for_each_loop zero h p = fault out_of_fuel
  for_each_loop (suc f) h p =
      if p == null
      then ok []
      else do n ← load h p; rest ← for_each_loop f h n.next; ok (n.item ∷ rest)
