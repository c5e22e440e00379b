-- ===== src/Registry/Grow.antt =====
-- The registry in order, and the step to a larger extended block.
use simplerpc.Common.{
  ℕ, ◌+◌, ◌*◌, ◌^◌, ◌≤◌, ◌<◌, ◌≡◌, refl, ap, ◌∙◌, sym, subst, Bool, true, false, Option, none, some,
  ltb, ge→ltb, if◌then◌else◌, word32, arith, inl, inr, Bool-cases,
}
use native.Mathlib.Nat.{mod-eq_of_lt}
use simplerpc.Registry.{
  ExtBlock, Function, regfn_sign, rfeb_sz, rfmb_sz, slot_within, next_block, regfn_ext_block,
}
use simplerpc.Registry.Count.{count, taken, count-cong, count-add, count-zero, count-le}

-- An extended block: its slots lie in its bytes, and what is behind them is cleared.
pub record IsBlock (eb : ExtBlock) : Type 0 where
  pub signed_as : eb.sign ≡ regfn_sign
  pub room : 16 + eb.szfn * 8 ≤ eb.size
  pub tail : (i : ℕ) → eb.szfn ≤ i → slot_within eb.size i ≡ true → eb.proc i ≡ 0

abbrev pub in_ext : (ℕ → Bool) → Option ExtBlock → ℕ
in_ext test none = 0
in_ext test (some eb) = count test eb.szfn 0 eb.proc

-- The entries of the registry that pass a test.
abbrev pub total : (ℕ → Bool) → Function → ℕ
total test f = count test rfmb_sz 0 f.main_block + in_ext test f.ext_block

abbrev pub Ordered : Option ExtBlock → Type 0
Ordered o = (eb : ExtBlock) → o ≡ some eb → IsBlock eb

-- The counter is the number of entries, and the extended block is in order.
pub record IsRegistry (f : Function) : Type 0 where
  pub num : f.num_all ≡ total taken f
  pub ext : Ordered f.ext_block

-- The next block fits the types of its fields.
abbrev pub Growable : Option ExtBlock → Type 0
Growable o = (eb : ExtBlock) → o ≡ some eb → (rfeb_sz + eb.szfn < word32) × (eb.size < 2 ^ 63)

module _ (eb : ExtBlock) (blank : ℕ → ℕ) (is : IsBlock eb) (small : rfeb_sz + eb.szfn < word32)
    (short : eb.size < 2 ^ 63) where
  abbrev next : ExtBlock
  next = next_block (some eb) blank

  next-szfn : next.szfn ≡ rfeb_sz + eb.szfn
  unfolding next_block
  next-szfn = mod-eq_of_lt small

  next-size : next.size ≡ eb.size + (rfeb_sz + eb.szfn) * 8
  unfolding next_block
  next-size = rw (mod-eq_of_lt small) (mod-eq_of_lt (omega (arith, small, short)))

  next-proc : (i : ℕ) → next.proc i ≡ (if slot_within eb.size i then eb.proc i else blank i)
  unfolding next_block
  next-proc i = let wider : ltb next.size eb.size ≡ false = wider_lem in rw wider refl
    where
      wider_lem : ltb next.size eb.size ≡ false
      wider_lem = ge→ltb _ _ (omega (arith, next-size))

  next-low : (i : ℕ) → i < eb.szfn → next.proc i ≡ eb.proc i
  next-low i lt =
      let inside : slot_within eb.size i ≡ true = ground (arith, is.room) in
      rw inside at (next-proc i)

  next-high : ((i : ℕ) → blank i ≡ 0) → (i : ℕ) → eb.szfn ≤ i → next.proc i ≡ 0
  next-high clear i le = elim (Bool-cases (slot_within eb.size i)) [
    | inl inside ↦ (rw inside at (next-proc i)) ∙ is.tail i le inside
    | inr outside ↦ (rw outside at (next-proc i)) ∙ clear i
  ]

next_block-IsBlock :
    (o : Option ExtBlock) (blank : ℕ → ℕ)
    → Ordered o
    → Growable o
    → ((i : ℕ) → blank i ≡ 0)
    → IsBlock (next_block o blank)
unfolding next_block
next_block-IsBlock none blank is small clear = record {
  signed_as = refl;
  room = omega arith;
  tail = λ i le inside. clear i;
}
next_block-IsBlock (some eb) blank is small clear =
    let (few, short) = small eb refl in
    let here = is eb refl in
    record {
      signed_as = refl;
      room =
          omega (
            arith,
            next-szfn eb blank here few short,
            next-size eb blank here few short,
            here.room,
          );
      tail = λ i le inside.
          next-high eb blank here few short clear i
            (omega (arith, le, next-szfn eb blank here few short));
    }

-- The larger block holds the entries of the old one.
next_block-count :
    (o : Option ExtBlock) (blank : ℕ → ℕ) (test : ℕ → Bool)
    → Ordered o
    → Growable o
    → ((i : ℕ) → blank i ≡ 0)
    → test 0 ≡ false
    → in_ext test (some (next_block o blank)) ≡ in_ext test o
unfolding next_block
next_block-count none blank test is small clear not_it =
    count-zero test rfeb_sz 0 blank not_it (λ j lo hi. clear j)
next_block-count (some eb) blank test is small clear not_it =
    let (few, short) = small eb refl in
    let here = is eb refl in
    let larger : (next_block (some eb) blank).szfn ≡ eb.szfn + rfeb_sz =
      omega (arith, next-szfn eb blank here few short) in
    let proc = (next_block (some eb) blank).proc in
    let parts = count-add test eb.szfn rfeb_sz 0 proc in
    let low : count test eb.szfn 0 proc ≡ count test eb.szfn 0 eb.proc =
      count-cong test eb.szfn 0 proc eb.proc
        (λ j lo hi. next-low eb blank here few short j (omega arith)) in
    let high : count test rfeb_sz (0 + eb.szfn) proc ≡ 0 =
      count-zero test rfeb_sz (0 + eb.szfn) proc not_it
        (λ j lo hi. next-high eb blank here few short clear j (omega arith)) in
    ap (λ n. count test n 0 proc) larger ∙ omega (arith, parts, low, high)

pub some-inj : (a b : ExtBlock) → some a ≡ some b → a ≡ b
some-inj a b e = ground arith

next_block-room :
    (o : Option ExtBlock) (blank : ℕ → ℕ)
    → Ordered o
    → Growable o
    → in_ext taken o < (next_block o blank).szfn
unfolding next_block
next_block-room none blank is small = omega arith
next_block-room (some eb) blank is small =
    let (few, short) = small eb refl in
    omega (arith, next-szfn eb blank (is eb refl) few short, count-le taken eb.szfn 0 eb.proc)

-- With cleared memory the extended block grows: the registry stays in order, every process has the
-- entries that it had, and there is room in the block for one more.
pub regfn_ext_block-IsRegistry :
    {f : Function} {blank : ℕ → ℕ}
    → IsRegistry f
    → Growable f.ext_block
    → ((i : ℕ) → blank i ≡ 0)
    → (g : Function) × (eb : ExtBlock) × (regfn_ext_block (some blank) f ≡ some g)
      × (g.ext_block ≡ some eb)
      × IsRegistry g
      × ((test : ℕ → Bool) → test 0 ≡ false → total test g ≡ total test f)
      × (count taken eb.szfn 0 eb.proc < eb.szfn)
unfolding regfn_ext_block
regfn_ext_block-IsRegistry {f} {blank} is small clear = (
  _,
  next_block f.ext_block blank,
  refl,
  refl,
  record {
    num = is.num ∙ sym (same taken refl);
    ext = λ eb e.
        subst IsBlock (some-inj _ eb e) (next_block-IsBlock f.ext_block blank is.ext small clear);
  },
  same,
  omega (
    arith,
    next_block-room f.ext_block blank is.ext small,
    next_block-count f.ext_block blank taken is.ext small clear refl,
  ),
)
  where
    same :
        (test : ℕ → Bool)
        → test 0 ≡ false
        → count test rfmb_sz 0 f.main_block + in_ext test (some (next_block f.ext_block blank))
          ≡ total test f
    same test not_it =
        ap (λ n. count test rfmb_sz 0 f.main_block + n)
          (next_block-count f.ext_block blank test is.ext small clear not_it)
