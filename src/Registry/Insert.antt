-- ===== src/Registry/Insert.antt =====
-- `libsrpc_regfn_insert` on a registry in order.
use simplerpc.Common.{
  ℕ, suc, ◌+◌, ◌<◌, ◌≡◌, refl, ◌≢◌, ap, ◌∙◌, sym, subst, Bool, true, false, not, ◌&&◌, ◌==◌, Option,
  none, some, leb, if◌then◌else◌, word32, pos, arith, update, inl, inr, ◌⊎◌,
}
use native.Mathlib.Nat.{mod-eq_of_lt}
use native.Mathlib.Decide.{dec_lt}
use simplerpc.Registry.{
  ExtBlock, Function, rfmb_sz, regfn_ext_block, count_one, needs_block, fill_ext, insert_ext,
  insert,
}
use simplerpc.Registry.Count.{count, bit, taken, count-update, count-le}
use simplerpc.Registry.Fill.{fill_free-count, fill_free-full}
use simplerpc.Registry.Grow.{some-inj, IsBlock, in_ext, total, IsRegistry}

-- One entry for `proc` more, and every other entry as it was.
abbrev pub Added : ℕ → Function → Function → Type 0
Added proc f g = (test : ℕ → Bool) → test 0 ≡ false → total test g ≡ total test f + bit (test proc)

abbrev pub entry : (ℕ → Bool) → ℕ → Bool
entry test p = not (p == 0) && test p

pub needs_block-none : (f : Function) → f.ext_block ≡ none → needs_block f ≡ true
unfolding needs_block
needs_block-none f e = rw e refl

needs_block-some :
    (f : Function) (eb : ExtBlock) → f.ext_block ≡ some eb → needs_block f ≡ leb eb.szfn f.num_all
unfolding needs_block
needs_block-some f eb e = ap (λ o. elim o [ none ↦ true | some b ↦ leb b.szfn f.num_all ]) e

-- With the main block full, and no larger block needed, the extended block has a free slot.
has_room :
    (f : Function)
    → IsRegistry f
    → count taken rfmb_sz 0 f.main_block ≡ rfmb_sz
    → needs_block f ≡ false
    → (eb : ExtBlock) × (f.ext_block ≡ some eb) × (count taken eb.szfn 0 eb.proc < eb.szfn)
has_room f is all keep = go f.ext_block refl
  where
    go :
        (o : Option ExtBlock)
        → f.ext_block ≡ o
        → (eb : ExtBlock) × (f.ext_block ≡ some eb) × (count taken eb.szfn 0 eb.proc < eb.szfn)
    go none e = absurd (let grows = needs_block-none f e in ground (arith, grows, keep))
    go (some eb) e = (
      eb,
      e,
      (let fits = sym (needs_block-some f eb e) ∙ keep in
          let held = ap (in_ext taken) e in
          let less : f.num_all < eb.szfn = ground (arith, fits) in
          omega (arith, less, held, is.num, all)),
    )

module _ {f : Function} (proc : ℕ) (is : IsRegistry f) (ne : proc ≢ 0)
    (few : f.num_all + 1 < word32) where
  one_more : count_one f ≡ f.num_all + 1
  one_more = mod-eq_of_lt few

  taken_proc : bit (taken proc) ≡ 1
  taken_proc = ground arith

  counted : (g : Function) → Added proc f g → g.num_all ≡ count_one f → g.num_all ≡ total taken g
  counted g added num = omega (arith, num, one_more, is.num, added taken refl, taken_proc)

  insert_main :
      (memory : ℕ → Option (ℕ → ℕ))
      → count taken rfmb_sz 0 f.main_block < rfmb_sz
      → (g : Function) × (insert memory proc f ≡ (pos 0, g)) × IsRegistry g × Added proc f g
  unfolding insert
  insert_main memory room =
      let (k, lo, hi, at, e) = fill_free-count rfmb_sz 0 proc f.main_block room in
      let g : Function = record f {
        main_block = update f.main_block k proc;
        num_all = count_one f;
      } in
      let added : Added proc f g = λ test not_it.
        let step = count-update test rfmb_sz 0 k proc f.main_block lo hi in
        let old : test (f.main_block k) ≡ false = ap test at ∙ not_it in
        ground (arith, step, old) in
      (g, rw (insert, e) refl, record { num = counted g added refl; ext = is.ext }, added)

  fill_ext-IsRegistry :
      (eb : ExtBlock)
      → f.ext_block ≡ some eb
      → count taken eb.szfn 0 eb.proc < eb.szfn
      → (g : Function) × (fill_ext proc f ≡ some g) × IsRegistry g × Added proc f g
  unfolding fill_ext
  fill_ext-IsRegistry eb at_eb room =
      let (k, lo, hi, at, e) = fill_free-count eb.szfn 0 proc eb.proc room in
      let grown : ExtBlock = record eb { proc = update eb.proc k proc } in
      let g : Function = record f { ext_block = some grown; num_all = count_one f } in
      let here = is.ext eb at_eb in
      let added : Added proc f g = λ test not_it.
        let step = count-update test eb.szfn 0 k proc eb.proc lo hi in
        let old : test (eb.proc k) ≡ false = ap test at ∙ not_it in
        let old_total = ap (in_ext test) at_eb in ground (arith, step, old, old_total) in
      let block : IsBlock grown = record {
        signed_as = here.signed_as;
        room = here.room;
        tail = λ i le inside. let old = here.tail i le inside in ground (arith, old, hi);
      } in
      (
        g,
        rw (fill_ext, at_eb, e) refl,
        record {
          num = counted g added refl;
          ext = λ b same. subst IsBlock (some-inj grown b same) block;
        },
        added,
      )

insert_ext-step :
    (attempts j : ℕ) (memory : ℕ → Option (ℕ → ℕ)) (proc : ℕ) (f g h : Function)
    → (if needs_block f then regfn_ext_block (memory j) f else some f) ≡ some g
    → fill_ext proc g ≡ some h
    → insert_ext (suc attempts) j memory proc f ≡ (pos 0, h)
unfolding insert_ext
insert_ext-step attempts j memory proc f g h e e' = rw (insert_ext, e, e') refl

pub insert-full :
    (memory : ℕ → Option (ℕ → ℕ)) (proc : ℕ) (f : Function)
    → count taken rfmb_sz 0 f.main_block ≡ rfmb_sz
    → insert memory proc f ≡ insert_ext 10 0 memory proc f
unfolding insert
insert-full memory proc f full = rw (insert, fill_free-full rfmb_sz 0 proc f.main_block full) refl

-- The same for every test of what the slots hold, where NULL is no entry.
abbrev pub AddedOne : ℕ → Function → Function → Type 0
AddedOne proc f g =
    (test : ℕ → Bool) → total (entry test) g ≡ total (entry test) f + bit (entry test proc)

-- A slot of the main block is free, or the extended block has more slots than processes are counted.
abbrev pub HasRoom : Function → Type 0
HasRoom f =
    (count taken rfmb_sz 0 f.main_block < rfmb_sz)
    ⊎ ((eb : ExtBlock) × (f.ext_block ≡ some eb) × (f.num_all < eb.szfn))

-- A process registered for a function whose registry is in order and has room, that is, a free
-- slot in the main block or an extended block with more slots than processes are counted:
-- whatever the allocator’s memory holds, the call returns 0, the registry stays in order with its
-- counter equal to its entries, the process has one entry more, and every other process has as
-- many as before, if the counter with one more fits 32 bits.
pub insert-IsRegistry :
    {f : Function} (memory : ℕ → Option (ℕ → ℕ)) (proc : ℕ)
    → IsRegistry f
    → HasRoom f
    → proc ≢ 0
    → f.num_all + 1 < word32
    → (g : Function) × (insert memory proc f ≡ (pos 0, g)) × IsRegistry g × AddedOne proc f g
insert-IsRegistry {f} memory proc is has ne few =
    elim (dec_lt (count taken rfmb_sz 0 f.main_block) rfmb_sz) [
      | yes room ↦
          let (g, e, is_g, added) = insert_main proc is ne few memory room in
          (g, e, is_g, λ test. added (entry test) refl)
      | no full ↦
          let all : count taken rfmb_sz 0 f.main_block ≡ rfmb_sz =
            omega (arith, count-le taken rfmb_sz 0 f.main_block) in
          let (h, e, is_h, added) = extended all (keeps all has) in
          (h, insert-full memory proc f all ∙ e, is_h, λ test. added (entry test) refl)
    ]
  where
    keeps : count taken rfmb_sz 0 f.main_block ≡ rfmb_sz → HasRoom f → needs_block f ≡ false
    keeps all (inl room) = absurd (omega (arith, all, room))
    keeps all (inr (eb, at_eb, lt)) = needs_block-some f eb at_eb ∙ ground (arith, lt)

    extended :
        count taken rfmb_sz 0 f.main_block ≡ rfmb_sz
        → needs_block f ≡ false
        → (h : Function) × (insert_ext 10 0 memory proc f ≡ (pos 0, h))
          × IsRegistry h
          × Added proc f h
    extended all keep =
        let (eb, at_eb, room) = has_room f is all keep in
        let (h, e', is_h, added) = fill_ext-IsRegistry proc is ne few eb at_eb room in
        (h, insert_ext-step 9 0 memory proc f f h (rw keep refl) e', is_h, added)
