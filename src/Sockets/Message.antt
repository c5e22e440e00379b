-- ===== src/Sockets/Message.antt =====
-- src/libsrpc_unix_socket.c: the message of introduction, from `send_msg_regfn` to `read_msg_regfn`.
use simplerpc.Common.{
  ℕ, zero, suc, ◌+◌, ◌-◌, ◌*◌, ◌^◌, ◌≤◌, ◌<◌, ◌≡◌, ◌≢◌, refl, ◌∙◌, ap, true, none, some, inl, inr,
  Bool-cases, List, [], ◌∷◌, ◌++◌, append_assoc, append-nil, length, length-append, take, drop,
  take_all, take-append, pos, neg, arith, if◌then◌else◌,
}
use simplerpc.Sockets.{
  Io, send_msg_regfn, read_msg_regfn, accept_msg, message, msg_size, le32, le64, get32, get64,
  zeros, put_words, get_words, signature, strncmp_eq,
}
use simplerpc.Sockets.Whole.{Steady, moves, send_full-written, read_full-whole}

-- A name that the 32 bytes hold with its NUL.
abbrev pub NoNul : List ℕ → Type 0
NoNul [] = Unit
NoNul (b ∷ bs) = (b ≢ 0) × NoNul bs

abbrev pub IsName : List ℕ → Type 0
IsName name = (length name ≤ 31) × NoNul name

abbrev pub Words : List ℕ → Type 0
Words [] = Unit
Words (w ∷ ws) = (w < 2 ^ 64) × Words ws

get32-le32 : (n : ℕ) (xs : List ℕ) → n < 2 ^ 32 → get32 (le32 n ++ xs) ≡ n
unfolding get32 le32
get32-le32 n xs h = omega arith

get64-le64 : (n : ℕ) (xs : List ℕ) → n < 2 ^ 64 → get64 (le64 n ++ xs) ≡ n
unfolding get64 le64
get64-le64 n xs h = omega arith

get_words-put_words : (ws xs : List ℕ) → Words ws → get_words (length ws) (put_words ws ++ xs) ≡ ws
unfolding get_words put_words le64
get_words-put_words [] xs h = refl
get_words-put_words (w ∷ ws) xs (h, hs) =
    rw (append_assoc (le64 w) (put_words ws) xs, get64-le64 w (put_words ws ++ xs) h)
      (ap (λ l. w ∷ l) (get_words-put_words ws xs hs))

length-zeros : (n : ℕ) → length (zeros n) ≡ n
unfolding zeros
length-zeros zero = refl
length-zeros (suc n) = ap suc (length-zeros n)

signature-name : (name : List ℕ) → IsName name → signature name ≡ name ++ zeros (32 - length name)
unfolding signature
signature-name name (short, h) = rw (take_all 31 name short) refl

length-signature : (name : List ℕ) → IsName name → length (signature name) ≡ 32
length-signature name h =
    rw
      (
        signature-name name h,
        length-append name (zeros (32 - length name)),
        length-zeros (32 - length name),
      )
      (omega (arith, h.0))

pub strncmp_eq_self : (n k : ℕ) (a : List ℕ) → NoNul a → strncmp_eq n (a ++ zeros k) a ≡ true
unfolding strncmp_eq zeros
strncmp_eq_self zero k a h = refl
strncmp_eq_self (suc n) zero [] h = refl
strncmp_eq_self (suc n) (suc k) [] h = refl
strncmp_eq_self (suc n) k (x ∷ a) (h, hs) = ground (arith, strncmp_eq_self n k a hs)

pub strncmp_eq_sound :
    (n k : ℕ) (a b : List ℕ)
    → NoNul a
    → NoNul b
    → length a < n
    → strncmp_eq n (a ++ zeros k) b ≡ true
    → a ≡ b
unfolding strncmp_eq zeros
strncmp_eq_sound zero k a b ha hb lt h = absurd (omega arith)
strncmp_eq_sound (suc n) k [] [] ha hb lt h = refl
strncmp_eq_sound (suc n) zero [] (y ∷ b) ha hb lt h = ground arith
strncmp_eq_sound (suc n) (suc k) [] (y ∷ b) ha hb lt h = ground arith
strncmp_eq_sound (suc n) k (x ∷ a) [] ha hb lt h = ground arith
strncmp_eq_sound (suc n) k (x ∷ a) (y ∷ b) (hx, ha) (hy, hb) lt h =
    ground (arith, strncmp_eq_sound n k a b ha hb (omega arith))

drop-exact : (n k : ℕ) (xs ys : List ℕ) → length xs ≡ n → drop (n + k) (xs ++ ys) ≡ drop k ys
drop-exact zero k [] ys e = let z : 0 + k ≡ k = omega arith in ap (λ j. drop j ys) z
drop-exact zero k (x ∷ xs) ys e = absurd (omega arith)
drop-exact (suc n) k [] ys e = absurd (omega arith)
drop-exact (suc n) k (x ∷ xs) ys e =
    let s : suc n + k ≡ suc (n + k) = omega arith in
    ap (λ j. drop j (x ∷ (xs ++ ys))) s ∙ drop-exact n k xs ys (omega arith)

length-put_words : (ws : List ℕ) → length (put_words ws) ≡ 8 * length ws
unfolding put_words le64 le32
length-put_words [] = refl
length-put_words (w ∷ ws) = omega (arith, length-put_words ws)

module _ (sender bmp : List ℕ) (named : IsName sender) where
  message-size :
      (xs : List ℕ)
      → msg_size (length bmp) < 2 ^ 32
      → get32 (message sender bmp ++ xs) ≡ msg_size (length bmp)
  unfolding message
  message-size xs h =
      rw
        (append_assoc (le32 (msg_size (length bmp)))
          (signature sender ++ (zeros 4 ++ put_words bmp)) xs)
        (get32-le32 (msg_size (length bmp)) _ h)

  message-signature : take 32 (drop 4 (message sender bmp)) ≡ signature sender
  unfolding message le32
  message-signature =
      take-append 32 (signature sender) (zeros 4 ++ put_words bmp)
        (omega (arith, length-signature sender named))
      ∙ take_all 32 (signature sender) (omega (arith, length-signature sender named))

  message-words : drop 40 (message sender bmp) ≡ put_words bmp
  unfolding message le32 zeros
  message-words =
      drop-exact 32 4 (signature sender) (zeros 4 ++ put_words bmp) (length-signature sender named)

  accept_msg-message :
      (name : List ℕ)
      → msg_size (length bmp) < 2 ^ 32
      → Words bmp
      → accept_msg name (length bmp) (message sender bmp)
        ≡ (if strncmp_eq 32 (signature sender) name then (pos 0, some bmp) else (neg 1, none))
  unfolding accept_msg
  accept_msg-message name small words =
      rw (message-words, message-signature) (ground (arith, size, values))
    where
      size : get32 (message sender bmp) ≡ msg_size (length bmp)
      size = rw (← append-nil (message sender bmp)) (message-size [] small)

      values : get_words (length bmp) (put_words bmp) ≡ bmp
      values = rw (← append-nil (put_words bmp)) (get_words-put_words bmp [] words)

  length-message : length (message sender bmp) ≡ msg_size (length bmp)
  unfolding message le32
  length-message = omega (
    arith,
    length-append (signature sender) (zeros 4 ++ put_words bmp),
    length-append (zeros 4) (put_words bmp),
    length-zeros 4,
    length-put_words bmp,
    length-signature sender named,
  )

  read_msg_regfn-message :
      (answers : List Io) (name rest : List ℕ)
      → msg_size (length bmp) < 2 ^ 32
      → Words bmp
      → Steady answers
      → msg_size (length bmp) ≤ moves answers
      → read_msg_regfn answers true name (length bmp) (message sender bmp ++ rest) ≡ (
          if strncmp_eq 32 (signature sender) name
          then some (pos 0, some bmp, rest)
          else some (neg 1, none, rest))
  unfolding read_msg_regfn
  read_msg_regfn-message answers name rest small words steady enough =
      rw
        (read_full-whole answers (msg_size (length bmp)) (message sender bmp) rest steady
          length-message enough)
        (ground (arith, accept_msg-message name small words))

  -- The message of registration that send_msg_regfn has sent whole, read by a daemon of the
  -- same name, for a registered process, from a stream that starts with it, however the kernel
  -- cuts it into parts, is accepted with the sender’s bitmap, and what follows it in the stream
  -- is left, if the name has at most 31 bytes and no NUL, the message is shorter than 2 ^ 32
  -- bytes, the words of the bitmap fit 64 bits, and the reads do not fail and deliver enough
  -- bytes.
  pub read_msg_regfn-sent :
      (sending receiving : List Io) (out rest : List ℕ)
      → msg_size (length bmp) < 2 ^ 32
      → Words bmp
      → send_msg_regfn sending sender bmp ≡ some (pos 0, out)
      → Steady receiving
      → msg_size (length bmp) ≤ moves receiving
      → read_msg_regfn receiving true sender (length bmp) (out ++ rest)
        ≡ some (pos 0, some bmp, rest)
  unfolding send_msg_regfn
  read_msg_regfn-sent sending receiving out rest small words sent steady enough =
      rw (send_full-written sending (message sender bmp) out sent)
        (read_msg_regfn-message receiving sender rest small words steady enough ∙ rw same refl)
    where
      same : strncmp_eq 32 (signature sender) sender ≡ true
      same =
          rw (signature-name sender named) (strncmp_eq_self 32 (32 - length sender) sender named.1)

  pub read_msg_regfn-other_version :
      (receiving : List Io) (name rest : List ℕ)
      → msg_size (length bmp) < 2 ^ 32
      → Words bmp
      → IsName name
      → sender ≢ name
      → Steady receiving
      → msg_size (length bmp) ≤ moves receiving
      → read_msg_regfn receiving true name (length bmp) (message sender bmp ++ rest)
        ≡ some (neg 1, none, rest)
  read_msg_regfn-other_version receiving name rest small words reader differ steady enough =
      read_msg_regfn-message receiving name rest small words steady enough
      ∙ (elim (Bool-cases (strncmp_eq 32 (signature sender) name)) [
        | inl e ↦ absurd (
            differ (
              strncmp_eq_sound 32 (32 - length sender) sender name named.1 reader.1
                (omega (arith, named.0)) (rw (← signature-name sender named) e)))
        | inr e ↦ rw e refl
      ])
