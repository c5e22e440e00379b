-- ===== src/Registry/Remove.antt =====
-- `libsrpc_regfn_remove` on a registry in order.
use simplerpc.Common.{
  ℕ, zero, suc, ◌+◌, ◌-◌, ◌%◌, ◌≤◌, ◌<◌, ◌≡◌, refl, ◌≢◌, ap, ◌∙◌, sym, subst, Bool, false, Option,
  none, some, eq→==, ◌==◌, if◌then◌else◌, word32, arith, update, inl, inr, Bool-cases, ◌⊎◌,
  update_ne,
}
use native.Mathlib.Decide.{ℕ_discrete}
use simplerpc.Registry.{ExtBlock, Function, rfmb_sz, clear_slots, remove}
use simplerpc.Registry.Count.{count, bit, taken, count-cong, count-update_below}
use simplerpc.Registry.Grow.{some-inj, IsBlock, in_ext, total, IsRegistry}

abbrev pub is_proc : ℕ → ℕ → Bool
is_proc proc p = p == proc

-- The slots with the process taken out.
abbrev erased : ℕ → (ℕ → ℕ) → ℕ → ℕ
erased proc slots j = if slots j == proc then 0 else slots j

clear_slots_hit :
    (n i proc num : ℕ) (slots : ℕ → ℕ)
    → slots i ≡ proc
    → clear_slots (suc n) i proc slots num
      ≡ clear_slots n (suc i) proc (update slots i 0) ((num + word32 - 1) % word32)
unfolding clear_slots
clear_slots_hit n i proc num slots hit = let yes_it = eq→== (slots i) proc hit in rw yes_it refl

clear_slots_miss :
    (n i proc num : ℕ) (slots : ℕ → ℕ)
    → (slots i == proc) ≡ false
    → clear_slots (suc n) i proc slots num ≡ clear_slots n (suc i) proc slots num
unfolding clear_slots
clear_slots_miss n i proc num slots miss = rw miss refl

clear_slots-outside :
    (n i proc num : ℕ) (slots : ℕ → ℕ) (j : ℕ)
    → (j < i) ⊎ (i + n ≤ j)
    → (clear_slots n i proc slots num).0 j ≡ slots j
unfolding clear_slots
clear_slots-outside zero i proc num slots j out = refl
clear_slots-outside (suc n) i proc num slots j out = elim (Bool-cases (slots i == proc)) [
  | inl hit ↦
      let at : slots i ≡ proc = ground arith in
      let step = ap (λ r. r.0 j) (clear_slots_hit n i proc num slots at) in
      step
      ∙ clear_slots-outside n (suc i) proc _ (update slots i 0) j (ground (arith, out))
      ∙ update_ne slots i j 0 (ground (arith, out))
  | inr miss ↦
      ap (λ r. r.0 j) (clear_slots_miss n i proc num slots miss)
      ∙ clear_slots-outside n (suc i) proc num slots j (ground (arith, out))
]

clear_slots-erased :
    (n i proc num : ℕ) (slots : ℕ → ℕ) (j : ℕ)
    → i ≤ j
    → j < i + n
    → (clear_slots n i proc slots num).0 j ≡ erased proc slots j
clear_slots-erased zero i proc num slots j lo hi = absurd (omega arith)
clear_slots-erased (suc n) i proc num slots j lo hi = elim (Bool-cases (slots i == proc)) [
  | inl hit ↦
      let at : slots i ≡ proc = ground arith in
      let step = ap (λ r. r.0 j) (clear_slots_hit n i proc num slots at) in
      elim (ℕ_discrete j i) [
        | yes here ↦
            step
            ∙ clear_slots-outside n (suc i) proc _ (update slots i 0) j (inl (omega arith))
            ∙ ground (arith, here, at)
        | no apart ↦
            let rest =
              clear_slots-erased n (suc i) proc ((num + word32 - 1) % word32) (update slots i 0) j
                (omega arith) (omega arith) in
            let same = update_ne slots i j 0 apart in
            step ∙ rest ∙ ap (λ p. if p == proc then 0 else p) same
      ]
  | inr miss ↦ ap (λ r. r.0 j) (clear_slots_miss n i proc num slots miss) ∙ elim (ℕ_discrete j i) [
    | yes here ↦
        clear_slots-outside n (suc i) proc num slots j (inl (omega arith))
        ∙ ground (arith, here, miss)
    | no apart ↦ clear_slots-erased n (suc i) proc num slots j (omega arith) (omega arith)
  ]
]

-- Each entry that goes is counted down.
clear_slots-num :
    (n i proc num : ℕ) (slots : ℕ → ℕ)
    → num < word32
    → count (is_proc proc) n i slots ≤ num
    → (clear_slots n i proc slots num).1 + count (is_proc proc) n i slots ≡ num
unfolding clear_slots count
clear_slots-num zero i proc num slots small le = omega arith
clear_slots-num (suc n) i proc num slots small le = elim (Bool-cases (slots i == proc)) [
  | inl hit ↦
      let at : slots i ≡ proc = ground arith in
      let step = ap (λ r. r.1) (clear_slots_hit n i proc num slots at) in
      let same = count-update_below (is_proc proc) n (suc i) i 0 slots (omega arith) in
      let one : bit (slots i == proc) ≡ 1 = rw hit refl in
      let rest =
        clear_slots-num n (suc i) proc ((num + word32 - 1) % word32) (update slots i 0)
          (omega arith) (omega (arith, same, one, le, small)) in
      omega (arith, step, same, one, rest, le, small)
  | inr miss ↦
      let step = ap (λ r. r.1) (clear_slots_miss n i proc num slots miss) in
      let none_here : bit (slots i == proc) ≡ 0 = rw miss refl in
      let rest = clear_slots-num n (suc i) proc num slots small (omega (arith, none_here, le)) in
      omega (arith, step, none_here, rest)
]

count-erased :
    (test : ℕ → Bool) (n i proc : ℕ) (slots : ℕ → ℕ)
    → test 0 ≡ false
    → count test n i (erased proc slots) + (if test proc then count (is_proc proc) n i slots else 0)
      ≡ count test n i slots
unfolding count
count-erased test zero i proc slots zero_out = ground arith
count-erased test (suc n) i proc slots zero_out =
    let rest = count-erased test n (suc i) proc slots zero_out in ground (arith, rest)

cleared-count :
    (test : ℕ → Bool) (n proc num : ℕ) (slots : ℕ → ℕ)
    → test 0 ≡ false
    → count test n 0 (clear_slots n 0 proc slots num).0
        + (if test proc then count (is_proc proc) n 0 slots else 0)
      ≡ count test n 0 slots
cleared-count test n proc num slots zero_out =
    let same =
      count-cong test n 0 (clear_slots n 0 proc slots num).0 (erased proc slots)
        (λ j lo hi. clear_slots-erased n 0 proc num slots j lo hi) in
    omega (arith, same, count-erased test n 0 proc slots zero_out)

-- What is left of the entries that pass a test: all but those of the process.
abbrev pub Left : ℕ → Function → Function → Type 0
Left proc f g =
    (test : ℕ → Bool)
    → test 0 ≡ false
    → total test g + (if test proc then total (is_proc proc) f else 0) ≡ total test f

remove-none :
    (proc : ℕ) (f : Function)
    → f.ext_block ≡ none
    → remove proc f ≡ record f {
      main_block = (clear_slots rfmb_sz 0 proc f.main_block f.num_all).0;
      ext_block = none;
      num_all = (clear_slots rfmb_sz 0 proc f.main_block f.num_all).1;
    }
unfolding remove
remove-none proc f e =
    let main = clear_slots rfmb_sz 0 proc f.main_block f.num_all in
    rw (remove, e)
      (ap
        (λ (o : Option ExtBlock). record f { main_block = main.0; ext_block = o; num_all = main.1 })
        e)

remove-some :
    (proc : ℕ) (f : Function) (eb : ExtBlock)
    → f.ext_block ≡ some eb
    → let main = clear_slots rfmb_sz 0 proc f.main_block f.num_all in
      let ext = clear_slots eb.szfn 0 proc eb.proc main.1 in
      remove proc f ≡ record f {
        main_block = main.0;
        ext_block = some (record eb { proc = ext.0 });
        num_all = ext.1;
      }
unfolding remove
remove-some proc f eb e = rw (remove, e) refl

module _ (proc : ℕ) (f : Function) (is : IsRegistry f) (ne : proc ≢ 0)
    (small : f.num_all < word32) where
  abbrev main : (ℕ → ℕ) × ℕ
  main = clear_slots rfmb_sz 0 proc f.main_block f.num_all

  taken_share : (x : ℕ) → (if taken proc then x else 0) ≡ x
  taken_share x = ground arith

  main_taken :
      count taken rfmb_sz 0 main.0 + count (is_proc proc) rfmb_sz 0 f.main_block
      ≡ count taken rfmb_sz 0 f.main_block
  main_taken = omega (
    arith,
    cleared-count taken rfmb_sz proc f.num_all f.main_block refl,
    taken_share (count (is_proc proc) rfmb_sz 0 f.main_block),
  )

  main_num : main.1 + count (is_proc proc) rfmb_sz 0 f.main_block ≡ f.num_all
  main_num =
      clear_slots-num rfmb_sz 0 proc f.num_all f.main_block small
        (omega (arith, main_taken, is.num))

  Shrunk : Function → Type 0
  Shrunk g = IsRegistry g × Left proc f g × (g.num_all + total (is_proc proc) f ≡ f.num_all)

  without_ext :
      f.ext_block ≡ none
      → Shrunk (record f { main_block = main.0; ext_block = none; num_all = main.1 })
  unfolding Shrunk
  without_ext e =
      let held = ap (in_ext taken) e in
      let mine = ap (in_ext (is_proc proc)) e in
      (
        record {
          num = omega (arith, held, mine, main_taken, main_num, is.num);
          ext = λ eb no_block. absurd (ground (arith, no_block));
        },
        λ test zero_out.
            let part = cleared-count test rfmb_sz proc f.num_all f.main_block zero_out in
            let old = ap (in_ext test) e in ground (arith, part, old, mine),
        omega (arith, mine, main_num),
      )

  module _ (eb : ExtBlock) (e : f.ext_block ≡ some eb) where
    abbrev ext : (ℕ → ℕ) × ℕ
    ext = clear_slots eb.szfn 0 proc eb.proc main.1

    ext_taken :
        count taken eb.szfn 0 ext.0 + count (is_proc proc) eb.szfn 0 eb.proc
        ≡ count taken eb.szfn 0 eb.proc
    ext_taken = omega (
      arith,
      cleared-count taken eb.szfn proc main.1 eb.proc refl,
      taken_share (count (is_proc proc) eb.szfn 0 eb.proc),
    )

    held : in_ext taken f.ext_block ≡ count taken eb.szfn 0 eb.proc
    held = ap (in_ext taken) e

    mine : in_ext (is_proc proc) f.ext_block ≡ count (is_proc proc) eb.szfn 0 eb.proc
    mine = ap (in_ext (is_proc proc)) e

    ext_num : ext.1 + count (is_proc proc) eb.szfn 0 eb.proc ≡ main.1
    ext_num =
        clear_slots-num eb.szfn 0 proc main.1 eb.proc (omega (arith, main_num, small))
          (omega (arith, ext_taken, main_taken, main_num, is.num, held))

    block : IsBlock (record eb { proc = ext.0 })
    block =
        let here = is.ext eb e in
        record {
          signed_as = here.signed_as;
          room = here.room;
          tail = λ i le inside.
              clear_slots-outside eb.szfn 0 proc main.1 eb.proc i (inr (omega arith))
              ∙ here.tail i le inside;
        }

    with_ext : Shrunk (record f {
      main_block = main.0;
      ext_block = some (record eb { proc = ext.0 });
      num_all = ext.1;
    })
    unfolding Shrunk
    with_ext = (
      record {
        num = omega (arith, held, main_taken, ext_taken, main_num, ext_num, is.num);
        ext = λ b same. subst IsBlock (some-inj (record eb { proc = ext.0 }) b same) block;
      },
      λ test zero_out.
          let part = cleared-count test rfmb_sz proc f.num_all f.main_block zero_out in
          let part' = cleared-count test eb.szfn proc main.1 eb.proc zero_out in
          let old = ap (in_ext test) e in ground (arith, part, part', old, mine),
      omega (arith, mine, main_num, ext_num),
    )

  remove-Shrunk : Shrunk (remove proc f)
  remove-Shrunk = go f.ext_block refl
    where
      go : (o : Option ExtBlock) → f.ext_block ≡ o → Shrunk (remove proc f)
      go none e = subst Shrunk (sym (remove-none proc f e)) (without_ext e)
      go (some eb) e = subst Shrunk (sym (remove-some proc f eb e)) (with_ext eb e)

-- A process that is taken out of a registry in order has no entry left, every other process keeps
-- its entries, the counter goes down by the entries that went, and the registry stays in order.
pub remove-IsRegistry :
    (proc : ℕ) (f : Function)
    → IsRegistry f
    → proc ≢ 0
    → f.num_all < word32
    → IsRegistry (remove proc f)
      × Left proc f (remove proc f)
      × ((remove proc f).num_all + total (is_proc proc) f ≡ f.num_all)
unfolding Shrunk
remove-IsRegistry proc f is ne small = remove-Shrunk proc f is ne small
