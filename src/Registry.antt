-- ===== src/Registry.antt =====
-- src/libsrpc.c and src/libsrpc_private.h: the registry of the processes that serve a function. One
-- thread of the daemon writes to it, so a compare-and-swap here always succeeds. The slots of a block
-- are its memory, a function from their numbers; what memory of the allocator holds is an argument.
pub mod Count
pub mod Fill
pub mod Grow
pub mod Insert
pub mod Dirty
pub mod Remove
pub mod Table
mod Tests
use simplerpc.Common.{
  ℕ, zero, suc, ◌+◌, ◌-◌, ◌*◌, ◌/◌, ◌%◌, ◌^◌, Bool, true, false, not, ◌||◌, Option, none, some,
  List, [], ◌∷◌, ltb, leb, ◌==◌, if◌then◌else◌, word32, word64, ℤ, pos, neg, negative, update,
  e_nomem, e_shmnoinit, e_inval,
}

-- LIBSRPC_REGFN_SIGN, LIBSRPC_RFEB_SZ and LIBSRPC_RFMB_SZ
abbrev pub regfn_sign : ℕ
regfn_sign = 529996421

abbrev pub rfeb_sz : ℕ
rfeb_sz = 32

abbrev pub rfmb_sz : ℕ
rfmb_sz = 8

-- `srpc_regfn_ext_block_t`: its header is 16 bytes, and a slot 8.
pub record ExtBlock : Type 0 where
  pub sign : ℕ
  pub szfn : ℕ
  pub size : ℕ
  pub proc : ℕ → ℕ

-- `libsrpc_rpc_func_t`, and the blocks that were handed over to the collector.
pub record Function : Type 0 where
  pub num_all : ℕ
  pub ext_block : Option ExtBlock
  pub main_block : ℕ → ℕ
  pub retired : List ExtBlock

-- The slot `i` lies within the first `size` bytes of a block.
abbrev pub slot_within : ℕ → ℕ → Bool
slot_within size i = leb (16 + (i + 1) * 8) size

-- The block that `libsrpc_regfn_ext_block` makes from memory that holds `blank`.
pub next_block : Option ExtBlock → (blank : ℕ → ℕ) → ExtBlock
next_block none blank = record {
  sign = regfn_sign;
  szfn = rfeb_sz;
  size = 16 + rfeb_sz * 8;
  proc = blank;
}
next_block (some old) blank =
    let szfn = (rfeb_sz + old.szfn) % word32 in
    let sz = (old.size + szfn * 8) % word64 in
    let szmc = if ltb sz old.size then sz else old.size in
    record {
      sign = regfn_sign;
      szfn = szfn;
      size = sz;
      proc = λ i. if slot_within szmc i then old.proc i else blank i;
    }

abbrev pub retire : Option ExtBlock → List ExtBlock → List ExtBlock
retire none gone = gone
retire (some old) gone = record old { sign = 0 } ∷ gone

-- `libsrpc_regfn_ext_block`, `none` for -ENOMEM; `memory` is what the allocator gives.
pub regfn_ext_block : (memory : Option (ℕ → ℕ)) → Function → Option Function
unfolding next_block
regfn_ext_block none f = none
regfn_ext_block (some blank) f = some (record f {
  ext_block = some (next_block f.ext_block blank);
  retired = retire f.ext_block f.retired;
})

-- The loop over the `n` slots from `i` that puts the process into the first one that is NULL.
pub fill_free : (n i : ℕ) → (ℕ → ℕ) → (proc : ℕ) → Option (ℕ → ℕ)
fill_free zero i slots proc = none
fill_free (suc n) i slots proc =
    let rest = fill_free n (suc i) slots proc in
    if slots i == 0 then some (update slots i proc) else rest

abbrev pub count_one : Function → ℕ
count_one f = (f.num_all + 1) % word32

unfoldable pub needs_block : Function → Bool
needs_block f = elim f.ext_block [ none ↦ true | some eb ↦ leb eb.szfn f.num_all ]

-- The loop of `libsrpc_regfn_insert` over the extended block.
pub fill_ext : (proc : ℕ) → Function → Option Function
unfolding fill_free
fill_ext proc f = elim f.ext_block [
  | none ↦ none
  | some eb ↦ elim (fill_free eb.szfn 0 eb.proc proc) [
    | none ↦ none
    | some slots ↦
        some (record f { ext_block = some (record eb { proc = slots }); num_all = count_one f })
  ]
]

-- The attempts of `libsrpc_regfn_insert` at the extended block; `memory j` is what the allocator
-- gives in attempt `j`.
pub insert_ext : (attempts j : ℕ) → (memory : ℕ → Option (ℕ → ℕ)) → ℕ → Function → ℤ × Function
unfolding regfn_ext_block needs_block fill_ext
insert_ext zero j memory proc f = (neg e_nomem, f)
insert_ext (suc attempts) j memory proc f =
    elim (if needs_block f then regfn_ext_block (memory j) f else some f) [
      | none ↦ insert_ext attempts (suc j) memory proc f
      | some g ↦ elim (fill_ext proc g) [
        | none ↦ insert_ext attempts (suc j) memory proc g
        | some h ↦ (pos 0, h)
      ]
    ]

-- `libsrpc_regfn_insert`
pub insert : (memory : ℕ → Option (ℕ → ℕ)) → ℕ → Function → ℤ × Function
unfolding fill_free insert_ext
insert memory proc f = elim (fill_free rfmb_sz 0 f.main_block proc) [
  | some slots ↦ (pos 0, record f { main_block = slots; num_all = count_one f })
  | none ↦ insert_ext 10 0 memory proc f
]

-- The loop over the `n` slots from `i` that takes a process out, with the number of processes.
pub clear_slots : (n i proc : ℕ) → (ℕ → ℕ) → (num : ℕ) → (ℕ → ℕ) × ℕ
clear_slots zero i proc slots num = (slots, num)
clear_slots (suc n) i proc slots num =
    let taken : (ℕ → ℕ) × ℕ =
      if slots i == proc then (update slots i 0, (num + word32 - 1) % word32) else (slots, num) in
    clear_slots n (suc i) proc taken.0 taken.1

-- `libsrpc_regfn_remove`
pub remove : ℕ → Function → Function
unfolding clear_slots
remove proc f =
    let main = clear_slots rfmb_sz 0 proc f.main_block f.num_all in
    elim f.ext_block [
      | none ↦ record f { main_block = main.0; num_all = main.1 }
      | some eb ↦
          let ext = clear_slots eb.szfn 0 proc eb.proc main.1 in
          record f {
            main_block = main.0;
            ext_block = some (record eb { proc = ext.0 });
            num_all = ext.1;
          }
    ]
