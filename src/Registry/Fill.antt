-- ===== src/Registry/Fill.antt =====
-- The loop that puts a process into the first free slot.
use simplerpc.Common.{
  ℕ, zero, suc, ◌+◌, ◌≤◌, ◌<◌, ◌≡◌, refl, none, some, ◌==◌, arith, update, inl, inr, Bool-cases,
}
use simplerpc.Registry.{fill_free}
use simplerpc.Registry.Count.{count, taken, count-le}

-- It finds a slot exactly when one is NULL, and then one process more is in the slots.
pub fill_free-count :
    (n i proc : ℕ) (slots : ℕ → ℕ)
    → count taken n i slots < n
    → (k : ℕ) × (i ≤ k)
      × (k < i + n)
      × (slots k ≡ 0)
      × (fill_free n i slots proc ≡ some (update slots k proc))
unfolding fill_free count
fill_free-count zero i proc slots room = absurd (omega arith)
fill_free-count (suc n) i proc slots room = elim (Bool-cases (slots i == 0)) [
  | inl free ↦ (i, omega arith, omega arith, ground arith, ground arith)
  | inr used ↦
      let less : count taken n (suc i) slots < n = ground (arith, used) in
      let (k, lo, hi, at, e) = fill_free-count n (suc i) proc slots less in
      (k, omega arith, omega arith, at, ground (arith, e))
]

pub fill_free-full :
    (n i proc : ℕ) (slots : ℕ → ℕ) → count taken n i slots ≡ n → fill_free n i slots proc ≡ none
unfolding fill_free count
fill_free-full zero i proc slots full = refl
fill_free-full (suc n) i proc slots full =
    let le = count-le taken n (suc i) slots in
    let rest = fill_free-full n (suc i) proc slots in ground (arith, le, rest)
