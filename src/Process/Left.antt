-- ===== src/Process/Left.antt =====
-- src/libsrpc_proc.c: what becomes of the blocks of a process that is destroyed.
use simplerpc.Common.{
  ℕ, ◌+◌, ◌^◌, ◌<◌, ◌≡◌, refl, ◌∙◌, ap, true, false, none, some, List, [], length, neg, negative,
  arith, e_nomem,
}
use simplerpc.Trash.{Trash, create_node, destroy_node}
use simplerpc.Trash.Freed.{add_all-destroy_node}
use simplerpc.Process.{Proc, proc_get}
use simplerpc.Process.Destroy.{Leaving, leaving_with, trash_of, Setting, part_with, proc_destroy}
use simplerpc.Process.Walked.{
  Present, users, users-Proper, users-le, pass-listed, freed_after, walk-freed, walk-once,
}

module _ (g : Setting) (pid : ℕ) (procs : List Proc) (p : Proc)
    (registered : proc_get procs pid ≡ some p) (present : Present g.blocks) where
  pub proc_destroy-freed :
      g.locked ≡ false
      → (l : Leaving) × ((proc_destroy g pid procs).leaving ≡ some l)
        × (l.freed ≡ freed_after (users g.blocks) [])
        × ((proc_destroy g pid procs).given_back ≡ true)
  unfolding proc_destroy part_with
  proc_destroy-freed open_memory =
      let (l, e, freed) =
        walk-freed g.memory (length g.blocks + 1) g.blocks (leaving_with none g.requests) present
          refl (omega (arith, users-le g.blocks)) in
      (
        l,
        rw (registered, proc_destroy) (rw open_memory e),
        freed,
        rw (registered, proc_destroy) (rw open_memory refl),
      )

  -- When the memory of a registered process is locked by others, memory for the lists is to be
  -- had and the collector’s list takes a node, libsrpc_proc_destroy ends its walk after one
  -- pass and frees no block: the blocks of the program, fewer than 2 ^ 30 and none NULL, are
  -- all in the list that the collector gets, with the UID of the process, and
  -- libsrpc_shm_trash_destroy_node will free exactly them, each once and in order; the block of
  -- the process is given back too. The walk goes on after a result of 0, as the loop of the
  -- allocator is written; the allocator’s comment says that it begins again.
  pub proc_destroy-listed :
      (cells : ℕ → ℕ)
      → g.locked ≡ true
      → g.cells ≡ some cells
      → g.memory ≡ true
      → negative g.add_node ≡ false
      → length (users g.blocks) < 2 ^ 30
      → (t : Trash) × (l : Leaving) × ((proc_destroy g pid procs).listed ≡ some t)
        × (destroy_node t ≡ users g.blocks)
        × (t.uid ≡ p.proc_uid)
        × ((proc_destroy g pid procs).leaving ≡ some l)
        × (l.freed ≡ [])
        × ((proc_destroy g pid procs).given_back ≡ true)
  unfolding proc_destroy part_with create_node
  proc_destroy-listed cells locked has_cells memory pushed few =
      let (t, all, order, within, uid) =
        add_all-destroy_node cells p.proc_uid (users g.blocks) (users-Proper g.blocks present)
          few in
      let empty : Trash = record { uid = p.proc_uid; num = 1024; cnt = 0; ptr = cells } in
      let once = walk-once true g.blocks (leaving_with (some empty) g.requests) in
      let (bs', l, e, listed, freed) =
        pass-listed g.blocks (leaving_with (some empty) g.requests) empty present refl in
      (
        t,
        l,
        rw (registered, proc_destroy)
            (rw (locked, has_cells, memory, pushed) (ap trash_of (once e) ∙ listed ∙ all)),
        order,
        uid,
        rw (registered, proc_destroy) (rw (locked, has_cells, memory) (once e)),
        freed,
        rw (registered, proc_destroy) (rw (locked, has_cells, pushed) refl),
      )

  pub proc_destroy-no_memory :
      g.locked ≡ true
      → g.cells ≡ none
      → ((proc_destroy g pid procs).rc ≡ neg e_nomem)
        × ((proc_destroy g pid procs).leaving ≡ some (leaving_with none g.requests))
        × ((proc_destroy g pid procs).listed ≡ none)
        × ((proc_destroy g pid procs).given_back ≡ false)
  unfolding proc_destroy part_with create_node
  proc_destroy-no_memory locked no_cells =
      rw (registered, proc_destroy) (rw (locked, no_cells) (refl, refl, refl, refl))
