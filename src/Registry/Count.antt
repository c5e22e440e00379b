-- ===== src/Registry/Count.antt =====
-- How many of the slots of a block pass a test.
use simplerpc.Common.{
  ℕ, zero, suc, ◌+◌, ◌≤◌, ◌<◌, ◌≡◌, refl, ap, sym, Bool, false, not, ◌==◌, if◌then◌else◌, arith,
  update, update_ne,
}
use native.Mathlib.Decide.{ℕ_discrete}

-- Of the `n` slots from `i`.
unfoldable pub count : (ℕ → Bool) → (n i : ℕ) → (ℕ → ℕ) → ℕ
count test zero i f = 0
count test (suc n) i f = (if test (f i) then 1 else 0) + count test n (suc i) f

abbrev pub bit : Bool → ℕ
bit b = if b then 1 else 0

abbrev pub taken : ℕ → Bool
taken p = not (p == 0)

pub count-cong :
    (test : ℕ → Bool) (n i : ℕ) (f g : ℕ → ℕ)
    → ((j : ℕ) → i ≤ j → j < i + n → f j ≡ g j)
    → count test n i f ≡ count test n i g
unfolding count
count-cong test zero i f g same = refl
count-cong test (suc n) i f g same =
    let here = same i (omega arith) (omega arith) in
    let rest = count-cong test n (suc i) f g (λ j lo hi. same j (omega arith) (omega arith)) in
    rw (here, rest)

pub count-update_below :
    (test : ℕ → Bool) (n i k p : ℕ) (f : ℕ → ℕ)
    → k < i
    → count test n i (update f k p) ≡ count test n i f
count-update_below test n i k p f below =
    count-cong test n i (update f k p) f (λ j lo hi. update_ne f k j p (omega arith))

-- Changing one slot exchanges its share.
pub count-update :
    (test : ℕ → Bool) (n i k p : ℕ) (f : ℕ → ℕ)
    → i ≤ k
    → k < i + n
    → count test n i (update f k p) + bit (test (f k)) ≡ count test n i f + bit (test p)
unfolding count
count-update test zero i k p f lo hi = absurd (omega arith)
count-update test (suc n) i k p f lo hi = elim (ℕ_discrete k i) [
  | yes here ↦
      let rest = count-update_below test n (suc i) k p f (omega arith) in
      let at : update f k p i ≡ p = ground (arith, here) in rw (at, rest, here) (omega arith)
  | no apart ↦
      let rest = count-update test n (suc i) k p f (omega arith) (omega arith) in
      let at : update f k p i ≡ f i = update_ne f k i p (λ e. apart (sym e)) in
      rw at (omega (arith, rest))
]

zero_plus : (b : ℕ) → 0 + b ≡ b
zero_plus b = omega arith

plus_zero : (b : ℕ) → b + 0 ≡ b
plus_zero b = omega arith

suc_plus : (a b : ℕ) → suc a + b ≡ suc (a + b)
suc_plus a b = omega arith

plus_suc : (a b : ℕ) → a + suc b ≡ suc a + b
plus_suc a b = omega arith

pub count-add :
    (test : ℕ → Bool) (a b i : ℕ) (f : ℕ → ℕ)
    → count test (a + b) i f ≡ count test a i f + count test b (i + a) f
unfolding count
count-add test zero b i f =
    let len = ap (λ n. count test n i f) (zero_plus b) in
    let at = ap (λ j. count test b j f) (plus_zero i) in omega (arith, len, at)
count-add test (suc a) b i f =
    let len = ap (λ n. count test n i f) (suc_plus a b) in
    let at = ap (λ j. count test b j f) (plus_suc i a) in
    let rest = count-add test a b (suc i) f in omega (arith, len, at, rest)

pub count-zero :
    (test : ℕ → Bool) (n i : ℕ) (f : ℕ → ℕ)
    → test 0 ≡ false
    → ((j : ℕ) → i ≤ j → j < i + n → f j ≡ 0)
    → count test n i f ≡ 0
unfolding count
count-zero test zero i f not_it all = refl
count-zero test (suc n) i f not_it all =
    let here = all i (omega arith) (omega arith) in
    let rest = count-zero test n (suc i) f not_it (λ j lo hi. all j (omega arith) (omega arith)) in
    rw (here, not_it, rest) refl

-- With fewer than `n` taken slots one of them is NULL.
pub count-le : (test : ℕ → Bool) (n i : ℕ) (f : ℕ → ℕ) → count test n i f ≤ n
unfolding count
count-le test zero i f = omega arith
count-le test (suc n) i f = let rest = count-le test n (suc i) f in ground (arith, rest)
