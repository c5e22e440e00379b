-- ===== src/Sockets/Whole.antt =====
-- src/libsrpc_unix_socket.c: `send_full` and `read_full` move whole buffers, whatever the pieces.
use simplerpc.Common.{
  ℕ, zero, suc, ◌+◌, ◌-◌, ◌≤◌, ◌<◌, ◌≡◌, refl, ◌∙◌, ap, Option, none, some, List, [], ◌∷◌, ◌++◌,
  length, take, drop, take-drop, length-drop, length-take, take-append, drop-append, ltb, ℤ, pos,
  negsuc, arith, if◌then◌else◌,
}
use simplerpc.Sockets.{Io, interrupted, failed, moved, then_wrote, send_full, read_full}

-- No answer is an error, and no `read` or `send` moves nothing.
abbrev pub Steady : List Io → Type 0
Steady [] = Unit
Steady (interrupted ∷ answers) = Steady answers
Steady (failed e ∷ answers) = ⊥
Steady (moved w ∷ answers) = (0 < w) × Steady answers

-- How many bytes the answers move at most.
abbrev pub moves : List Io → ℕ
moves [] = 0
moves (interrupted ∷ answers) = moves answers
moves (failed e ∷ answers) = moves answers
moves (moved w ∷ answers) = w + moves answers

pub send_full-whole :
    (answers : List Io) (buf : List ℕ)
    → Steady answers
    → length buf ≤ moves answers
    → send_full answers buf ≡ some (pos 0, buf)
unfolding send_full
send_full-whole [] [] steady enough = refl
send_full-whole (a ∷ answers) [] steady enough = refl
send_full-whole [] (b ∷ buf) steady enough = absurd (omega arith)
send_full-whole (interrupted ∷ answers) (b ∷ buf) steady enough =
    send_full-whole answers (b ∷ buf) steady enough
send_full-whole (failed e ∷ answers) (b ∷ buf) steady enough = absurd steady
send_full-whole (moved w ∷ answers) (b ∷ buf) (some_bytes, steady) enough =
    ap (then_wrote (take w (b ∷ buf)))
      (send_full-whole answers (drop w (b ∷ buf)) steady (omega (arith, length-drop w (b ∷ buf))))
    ∙ ap (λ l. some (pos 0, l)) (take-drop w (b ∷ buf))

pub send_full-written :
    (answers : List Io) (buf out : List ℕ) → send_full answers buf ≡ some (pos 0, out) → out ≡ buf
unfolding send_full
send_full-written [] [] out h = ground arith
send_full-written (a ∷ answers) [] out h = ground arith
send_full-written [] (b ∷ buf) out h = cc
send_full-written (interrupted ∷ answers) (b ∷ buf) out h =
    send_full-written answers (b ∷ buf) out h
send_full-written (failed e ∷ answers) (b ∷ buf) out h = ground arith
send_full-written (moved w ∷ answers) (b ∷ buf) out h =
    go (send_full answers (drop w (b ∷ buf))) h (send_full-written answers (drop w (b ∷ buf)))
  where
    go :
        (r : Option (ℤ × List ℕ))
        → then_wrote (take w (b ∷ buf)) r ≡ some (pos 0, out)
        → ((out' : List ℕ) → r ≡ some (pos 0, out') → out' ≡ drop w (b ∷ buf))
        → out ≡ b ∷ buf
    go none h k = cc
    go (some (pos zero, ys)) h k = ground (arith, k ys refl, take-drop w (b ∷ buf))
    go (some (pos (suc n), ys)) h k = ground arith
    go (some (negsuc n, ys)) h k = ground arith

-- One `read` of `n` bytes, with more of the message in the stream.
read_full-step :
    (answers : List Io) (w n len : ℕ) (msg rest : List ℕ)
    → n ≡ (if ltb w (suc len) then w else suc len)
    → 0 < n
    → n ≤ length msg
    → read_full answers (suc len - n) (drop n msg ++ rest) ≡ some (pos 0, drop n msg, rest)
    → read_full (moved w ∷ answers) (suc len) (msg ++ rest) ≡ some (pos 0, msg, rest)
unfolding read_full
read_full-step answers w n len msg rest e positive fits h =
    rw (← e, take-append n msg rest fits, drop-append n msg rest fits, length-take n msg fits, h)
      (ground (arith, take-drop n msg))

pub read_full-whole :
    (answers : List Io) (len : ℕ) (msg rest : List ℕ)
    → Steady answers
    → length msg ≡ len
    → len ≤ moves answers
    → read_full answers len (msg ++ rest) ≡ some (pos 0, msg, rest)
unfolding read_full
read_full-whole [] zero [] rest steady e enough = refl
read_full-whole (a ∷ answers) zero [] rest steady e enough = refl
read_full-whole answers zero (b ∷ msg) rest steady e enough = absurd (omega arith)
read_full-whole [] (suc len) msg rest steady e enough = absurd (omega arith)
read_full-whole (interrupted ∷ answers) (suc len) msg rest steady e enough =
    read_full-whole answers (suc len) msg rest steady e enough
read_full-whole (failed x ∷ answers) (suc len) msg rest steady e enough = absurd steady
read_full-whole (moved w ∷ answers) (suc len) msg rest (positive, steady) e enough =
    read_full-step answers w (if ltb w (suc len) then w else suc len) len msg rest refl
      (ground arith) (ground arith)
      (read_full-whole answers (suc len - (if ltb w (suc len) then w else suc len))
        (drop (if ltb w (suc len) then w else suc len) msg) rest steady
        (length-drop (if ltb w (suc len) then w else suc len) msg
          ∙ ap (λ k. k - (if ltb w (suc len) then w else suc len)) e)
        (ground arith))
