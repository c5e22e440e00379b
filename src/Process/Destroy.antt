-- ===== src/Process/Destroy.antt =====
-- src/libsrpc_proc.c: `libsrpc_proc_destroy` and its destructor for the blocks that a process leaves.
-- The blocks that have the UID of the process are an argument, with what the allocator answers about each;
-- the walk calls the destructor for them as the loop in libs/tlsf_txn/tlsf_txn.c does.
use simplerpc.Common.{
  ℕ, zero, suc, ◌+◌, length, Bool, true, false, not, ◌||◌, Option, none, some, List, [], ◌∷◌, ◌==◌,
  if◌then◌else◌, update, ℤ, pos, negsuc, neg, negative, e_inval, e_nomem,
}
use simplerpc.Request.{Request, req_destroy}
use simplerpc.Trash.{Trash, create_node, add_ptr}
use simplerpc.Process.{Proc, proc_get}

-- A block with what tlsf_get_data_type and tlsf_getdc answer.
pub record Block : Type 0 where
  pub ptr : ℕ
  pub data_type : ℤ
  pub dc : ℤ

-- What happens to a block by its type: PROC and REGFN, REQUEST, or a block of the program.
pub data Kind : Type 0 where
  daemon request user : Kind

abbrev pub kind_of : ℤ → Kind
kind_of (pos n) = if (n == 1) || (n == 2) then daemon else if n == 3 then request else user
kind_of (negsuc n) = user

abbrev pub is_zero : ℤ → Bool
is_zero (pos n) = n == 0
is_zero (negsuc n) = false

-- `destructor_fn_t`, the requests by their addresses, and what was done to the blocks: those marked for the
-- collector and those freed, the last one first. `memory` says whether realloc has memory.
pub record Leaving : Type 0 where
  pub dc_count : ℕ
  pub trash : Option Trash
  pub requests : ℕ → Option Request
  pub marked : List ℕ
  pub freed : List ℕ

abbrev pub put_off : ℕ → Leaving → Leaving
put_off ptr l = record l {
  dc_count = l.dc_count + 1;
  requests = update l.requests ptr (req_destroy (l.requests ptr)).1;
  marked = ptr ∷ l.marked;
}

abbrev pub drop_user : (memory : Bool) → ℕ → Leaving → ℤ × Leaving
drop_user memory ptr l = elim l.trash [
  | none ↦ (pos 1, record l { freed = ptr ∷ l.freed })
  | some t ↦ (pos 0, record l { trash = (add_ptr memory ptr (some t)).1 })
]

-- `destructor_fn`
unfoldable pub destructor_fn : (memory : Bool) → Block → Leaving → ℤ × Leaving
destructor_fn memory b l = if b.ptr == 0 then (neg e_inval, l) else elim (kind_of b.data_type) [
  | daemon ↦ (pos 0, l)
  | request ↦ (pos 0, if is_zero b.dc then put_off b.ptr l else l)
  | user ↦ drop_user memory b.ptr l
]

-- A pass of tlsf_free_uid_blocks over the blocks of the heap that have the UID: it comes to the end, it
-- ends where the destructor has freed a block, with the blocks that are left, or an error stops the walk.
pub data Pass : Type 0 where
  over found : List Block → Leaving → Pass
  stopped : Leaving → Pass

-- A block that was not freed: that of a request is marked now.
abbrev pub left_as : Block → Block
left_as b = elim (kind_of b.data_type) [
  | daemon ↦ b
  | request ↦ if is_zero b.dc then record b { dc = pos 1 } else b
  | user ↦ b
]

abbrev pub keep_block : Block → Pass → Pass
keep_block b (over bs l) = over (b ∷ bs) l
keep_block b (found bs l) = found (b ∷ bs) l
keep_block b (stopped l) = stopped l

unfoldable pub pass : (memory : Bool) → List Block → Leaving → Pass
unfolding destructor_fn
pass memory [] l = over [] l
pass memory (b ∷ bs) l =
    let (rc, l') = destructor_fn memory b l in
    let rest = keep_block (left_as b) (pass memory bs l') in
    elim rc [ pos zero ↦ rest | pos (suc n) ↦ found bs l' | negsuc n ↦ stopped l' ]

-- The walk of tlsf_free_uid_blocks, for at most `rounds` passes: as it is written, it begins again from
-- the start of the heap after a result above 0 and goes on after 0.
unfoldable pub walk : (rounds : ℕ) (memory : Bool) → List Block → Leaving → Option Leaving
unfolding pass
walk zero memory bs l = none
walk (suc rounds) memory bs l = elim (pass memory bs l) [
  | over bs' l' ↦ some l'
  | stopped l' ↦ some l'
  | found bs' l' ↦ walk rounds memory bs' l'
]

-- Every pass but the last frees a block.
abbrev pub walk_all : (memory : Bool) → List Block → Leaving → Option Leaving
walk_all memory bs l = walk (length bs + 1) memory bs l

-- `libsrpc_list_remove` of the process from the list of processes.
abbrev pub remove_proc : ℕ → List Proc → List Proc
remove_proc address [] = []
remove_proc address (p ∷ ps) =
    let rest = remove_proc address ps in if p.address == address then ps else p ∷ rest

-- What `libsrpc_proc_destroy` meets: what the removals and the push to the collector's list return, whether
-- the memory of the process is locked, memory for a list of blocks and for its growth, the blocks of the
-- process, and the requests after its queue was cleared.
pub record Setting : Type 0 where
  pub list_remove : ℤ
  pub locked : Bool
  pub cells : Option (ℕ → ℕ)
  pub memory : Bool
  pub add_node : ℤ
  pub blocks : List Block
  pub requests : ℕ → Option Request

-- What it leaves: its result, the list of processes, the process with its functions withdrawn and its
-- queue cleared, what became of its blocks, the list of blocks that the collector has, and whether the
-- block of the process is the collector's too.
pub record Destroyed : Type 0 where
  pub rc : ℤ
  pub procs : List Proc
  pub withdrawn : Option Proc
  pub leaving : Option Leaving
  pub listed : Option Trash
  pub given_back : Bool

abbrev pub leaving_with : Option Trash → (ℕ → Option Request) → Leaving
leaving_with t requests = record {
  dc_count = 0;
  trash = t;
  requests = requests;
  marked = [];
  freed = [];
}

-- The blocks of a process whose memory nobody has locked.
abbrev pub free_blocks : Setting → Proc → List Proc → Destroyed
free_blocks g p procs = record {
  rc = g.list_remove;
  procs = procs;
  withdrawn = some p;
  leaving = walk_all g.memory g.blocks (leaving_with none g.requests);
  listed = none;
  given_back = true;
}

abbrev pub trash_of : Option Leaving → Option Trash
trash_of none = none
trash_of (some l) = l.trash

-- The blocks of a process whose memory is locked, gathered in a list for 1024 blocks.
abbrev pub list_blocks : Setting → Proc → List Proc → Trash → Destroyed
list_blocks g p procs t =
    let left = walk_all g.memory g.blocks (leaving_with (some t) g.requests) in
    record {
      rc = if negative g.add_node then neg e_inval else pos 0;
      procs = procs;
      withdrawn = some p;
      leaving = left;
      listed = if negative g.add_node then none else trash_of left;
      given_back = not (negative g.add_node);
    }

-- Without memory for the list.
abbrev pub leave_blocks : Setting → Proc → List Proc → Destroyed
leave_blocks g p procs = record {
  rc = neg e_nomem;
  procs = procs;
  withdrawn = some p;
  leaving = some (leaving_with none g.requests);
  listed = none;
  given_back = false;
}

-- From the search for locks on.
unfoldable pub part_with : Setting → Proc → List Proc → Destroyed
unfolding walk
part_with g p procs =
    if g.locked
    then (elim (create_node g.cells 1024 p.proc_uid) [
      | none ↦ leave_blocks g p procs
      | some t ↦ list_blocks g p procs t
    ])
    else free_blocks g p procs

-- `libsrpc_proc_destroy`
unfoldable pub proc_destroy : Setting → (pid : ℕ) → List Proc → Destroyed
unfolding part_with
proc_destroy g pid procs = elim (proc_get procs pid) [
  | none ↦ record {
    rc = neg e_inval;
    procs = procs;
    withdrawn = none;
    leaving = some (leaving_with none g.requests);
    listed = none;
    given_back = false;
  }
  | some p ↦
      part_with g (record p { sign = 0 })
        (if negative g.list_remove then procs else remove_proc p.address procs)
]
