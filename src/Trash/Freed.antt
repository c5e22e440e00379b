-- ===== src/Trash/Freed.antt =====
-- Every block of a list is in its array, and is freed with the list.
use simplerpc.Common.{
  length-append, ℕ, zero, suc, ◌+◌, ◌*◌, ◌/◌, ◌%◌, ◌^◌, ◌≤◌, ◌<◌, ◌≡◌, refl, ◌≢◌, ap, ◌∙◌, sym,
  subst, true, false, some, ltb, ◌==◌, word32, pos, arith, update, update_ne, List, [], ◌∷◌, length,
  append_assoc, append-nil, ◌++◌,
}
use native.Mathlib.Decide.{dec_lt}
use native.Mathlib.Nat.{mod-eq_of_lt}
use simplerpc.Trash.{Trash, create_node, larger, put, add_ptr, free_cells, destroy_node, add_all}

free_cells-update :
    (n i k p : ℕ) (ptr : ℕ → ℕ) → i + n ≤ k → free_cells n i (update ptr k p) ≡ free_cells n i ptr
unfolding free_cells
free_cells-update zero i k p ptr out = refl
free_cells-update (suc n) i k p ptr out =
    let here = update_ne ptr k i p (omega arith) in
    let rest = free_cells-update n (suc i) k p ptr (omega arith) in rw (here, rest) refl

free_cells-last :
    (n i : ℕ) (ptr : ℕ → ℕ) → free_cells (suc n) i ptr ≡ free_cells n i ptr ++ ptr (i + n) ∷ []
unfolding free_cells
free_cells-last zero i ptr = ap (λ k. ptr k ∷ []) (plus_zero i)
  where
    plus_zero : (i : ℕ) → i ≡ i + 0
    plus_zero i = omega arith
free_cells-last (suc n) i ptr =
    ap (λ xs. ptr i ∷ xs) (free_cells-last n (suc i) ptr)
    ∙ ap (λ k. ptr i ∷ free_cells n (suc i) ptr ++ ptr k ∷ []) (shift i n)
  where
    shift : (i n : ℕ) → suc i + n ≡ i + suc n
    shift i n = omega arith

-- A list holds the blocks `ps`, in its array, and can grow.
pub record IsTrash (ps : List ℕ) (t : Trash) : Type 0 where
  pub holds_all : destroy_node t ≡ ps
  pub counted : t.cnt ≡ length ps
  pub within : t.cnt ≤ t.num
  pub grows : 4 ≤ t.num
  pub modest : t.num ≤ 1024 + 2 * t.cnt

put-IsTrash :
    (ps : List ℕ) (p : ℕ) (t : Trash)
    → IsTrash ps t
    → t.cnt < t.num
    → t.cnt + 1 < word32
    → IsTrash (ps ++ p ∷ []) (put p t)
unfolding destroy_node
put-IsTrash ps p t is room small =
    let count_up : (t.cnt + 1) % word32 ≡ suc t.cnt = omega (arith, small) in
    record {
      holds_all =
          ap (λ n. free_cells n 0 (update t.ptr t.cnt p)) count_up
          ∙ free_cells-last t.cnt 0 (update t.ptr t.cnt p)
          ∙ ap (λ xs. xs ++ update t.ptr t.cnt p (0 + t.cnt) ∷ [])
              (free_cells-update t.cnt 0 t.cnt p t.ptr (omega arith) ∙ is.holds_all)
          ∙ ap (λ q. ps ++ q ∷ []) (ground arith);
      counted = omega (arith, count_up, is.counted, length-append ps (p ∷ []));
      within = omega (arith, count_up, room);
      grows = is.grows;
      modest = omega (arith, count_up, is.modest);
    }

larger-IsTrash :
    (ps : List ℕ) (p : ℕ) (t : Trash)
    → IsTrash ps t
    → t.num ≤ t.cnt
    → t.cnt + 1 < 2 ^ 30
    → IsTrash (ps ++ p ∷ []) (put p (record t { num = larger t.num }))
unfolding destroy_node
larger-IsTrash ps p t is full small =
    let count_up : (t.cnt + 1) % word32 ≡ suc t.cnt = omega (arith, small) in
    let size : larger t.num ≡ t.num + t.num / 4 = mod-eq_of_lt (omega (arith, is.modest, small)) in
    let next =
      put-IsTrash ps p (record t { num = suc t.cnt })
        (record {
          holds_all = is.holds_all;
          counted = is.counted;
          within = omega arith;
          grows = omega (arith, is.grows, full);
          modest = omega arith;
        })
        (omega arith) (omega arith) in
    record {
      holds_all = next.holds_all;
      counted = next.counted;
      within = omega (arith, count_up, size, is.grows, is.within, full);
      grows = omega (arith, size, is.grows);
      modest = omega (arith, count_up, size, is.modest, is.within, full);
    }

add_ptr-IsTrash :
    (ps : List ℕ) (p : ℕ) (t : Trash)
    → IsTrash ps t
    → p ≢ 0
    → length ps + 1 < 2 ^ 30
    → (t' : Trash) × (add_ptr true p (some t) ≡ (pos 0, some t'))
      × IsTrash (ps ++ p ∷ []) t'
      × (t'.uid ≡ t.uid)
unfolding add_ptr
add_ptr-IsTrash ps p t is ne small =
    let not_null : (p == 0) ≡ false = ground arith in
    elim (dec_lt t.cnt t.num) [
      | yes room ↦
          let free : ltb t.cnt t.num ≡ true = ground arith in
          (
            put p t,
            rw (add_ptr, not_null, free) refl,
            put-IsTrash ps p t is room (omega (arith, is.counted, small)),
            refl,
          )
      | no full ↦
          let none_free : ltb t.cnt t.num ≡ false = ground arith in
          (
            put p (record t { num = larger t.num }),
            rw (add_ptr, not_null, none_free) refl,
            larger-IsTrash ps p t is (omega arith) (omega (arith, is.counted, small)),
            refl,
          )
    ]

-- No block is NULL.
abbrev pub Proper : List ℕ → Type 0
Proper [] = true ≡ true
Proper (p ∷ ps) = (p ≢ 0) × Proper ps

add_all-IsTrash :
    (qs ps : List ℕ) (t : Trash)
    → IsTrash qs t
    → Proper ps
    → length qs + length ps < 2 ^ 30
    → (t' : Trash) × (add_all ps (some t) ≡ some t') × IsTrash (qs ++ ps) t' × (t'.uid ≡ t.uid)
unfolding add_all
add_all-IsTrash qs [] t is proper small =
    (t, refl, subst (λ xs. IsTrash xs t) (sym (append-nil qs)) is, refl)
add_all-IsTrash qs (p ∷ ps) t is (ne, proper) small =
    let (t1, e1, is1, uid1) = add_ptr-IsTrash qs p t is ne (omega arith) in
    let (t2, e2, is2, uid2) =
      add_all-IsTrash (qs ++ p ∷ []) ps t1 is1 proper (omega (arith, length-append qs (p ∷ []))) in
    (
      t2,
      ap (λ r. add_all ps r.1) e1 ∙ e2,
      subst (λ xs. IsTrash xs t2) (append_assoc qs (p ∷ []) ps) is2,
      uid2 ∙ uid1,
    )

-- The blocks, fewer than 2 ^ 30 and none NULL, that the destructor adds to a new list for 1024
-- blocks while realloc has memory are all in its array, which does not overflow, and
-- libsrpc_shm_trash_destroy_node frees exactly them, each once and in order.
pub add_all-destroy_node :
    (cells : ℕ → ℕ) (uid : ℕ) (ps : List ℕ)
    → Proper ps
    → length ps < 2 ^ 30
    → (t : Trash) × (add_all ps (create_node (some cells) 1024 uid) ≡ some t)
      × (destroy_node t ≡ ps)
      × (t.cnt ≤ t.num)
      × (t.uid ≡ uid)
unfolding create_node destroy_node
add_all-destroy_node cells uid ps proper small =
    let (t, e, is, uid_at) =
      add_all-IsTrash [] ps (record { uid = uid; num = 1024; cnt = 0; ptr = cells })
        (record {
          holds_all = refl;
          counted = refl;
          within = omega arith;
          grows = omega arith;
          modest = omega arith;
        })
        proper (omega arith) in
    (t, e, is.holds_all, is.within, uid_at)
