-- ===== src/Sockets.antt =====
-- src/libsrpc_unix_socket.c: whole messages over a stream socket, and the message with which a
-- process introduces itself to the daemon. What the kernel answers to each `send` and `read` is a
-- list; `none` means that its answers are used up before the call returns.
pub mod Whole
pub mod Message
pub mod Server
pub mod Served
pub mod Counted
pub mod Client
pub mod Told
pub mod Init
pub mod Setup
mod Tests
use simplerpc.Common.{
  ℕ, zero, suc, ◌+◌, ◌-◌, ◌*◌, ◌/◌, ◌%◌, ◌^◌, Bool, true, false, not, ◌&&◌, Option, none, some,
  List, [], ◌∷◌, ◌++◌, length, take, drop, ltb, ◌==◌, if◌then◌else◌, ℤ, pos, neg, negsuc,
}

-- An answer of the kernel: EINTR, another error, or up to so many bytes moved.
pub data Io : Type 0 where
  interrupted : Io
  failed : ℕ → Io
  moved : ℕ → Io

abbrev pub then_wrote : List ℕ → Option (ℤ × List ℕ) → Option (ℤ × List ℕ)
then_wrote xs none = none
then_wrote xs (some (rc, ys)) = some (rc, xs ++ ys)

-- `send_full`: its result and the bytes that have gone out.
unfoldable pub send_full : List Io → (buf : List ℕ) → Option (ℤ × List ℕ)
send_full answers [] = some (pos 0, [])
send_full [] (b ∷ buf) = none
send_full (interrupted ∷ answers) (b ∷ buf) = send_full answers (b ∷ buf)
send_full (failed e ∷ answers) (b ∷ buf) = some (neg 1, [])
send_full (moved w ∷ answers) (b ∷ buf) =
    then_wrote (take w (b ∷ buf)) (send_full answers (drop w (b ∷ buf)))

abbrev pub then_read : List ℕ → Option (ℤ × List ℕ × List ℕ) → Option (ℤ × List ℕ × List ℕ)
then_read xs none = none
then_read xs (some (rc, ys, left)) = some (rc, xs ++ ys, left)

-- `read_full` of `len` bytes: its result, the bytes read, and what is left in the stream. A `read` takes
-- no more than is asked for; 0 bytes are the end of the stream.
unfoldable pub read_full : List Io → (len : ℕ) → (stream : List ℕ) → Option (ℤ × List ℕ × List ℕ)
read_full answers zero stream = some (pos 0, [], stream)
read_full [] (suc len) stream = none
read_full (interrupted ∷ answers) (suc len) stream = read_full answers (suc len) stream
read_full (failed e ∷ answers) (suc len) stream = some (neg 1, [], stream)
read_full (moved w ∷ answers) (suc len) stream =
    let n = if ltb w (suc len) then w else suc len in
    let chunk = take n stream in
    let rest = then_read chunk (read_full answers (suc len - length chunk) (drop n stream)) in
    if length chunk == 0 then some (neg 1, [], stream) else rest

-- The bytes of a `uint32_t` and of a `uint64_t`, the lowest first.
unfoldable pub le32 : ℕ → List ℕ
le32 n = n % 256 ∷ n / 256 % 256 ∷ n / 65536 % 256 ∷ n / 16777216 % 256 ∷ []

unfoldable pub le64 : ℕ → List ℕ
unfolding le32
le64 n = le32 n ++ le32 (n / 2 ^ 32)

abbrev pub byte : List ℕ → ℕ
byte [] = 0
byte (b ∷ bs) = b

unfoldable pub get32 : List ℕ → ℕ
get32 bs = byte bs + 256 * byte (drop 1 bs) + 65536 * byte (drop 2 bs) + 16777216 * byte (drop 3 bs)

unfoldable pub get64 : List ℕ → ℕ
unfolding get32
get64 bs = get32 bs + 2 ^ 32 * get32 (drop 4 bs)

unfoldable pub zeros : ℕ → List ℕ
zeros zero = []
zeros (suc n) = 0 ∷ zeros n

-- `regfn_msg_t`: the bitmap has `words` words, which stand after four bytes of padding.
abbrev pub msg_size : (words : ℕ) → ℕ
msg_size words = 40 + 8 * words

unfoldable pub put_words : List ℕ → List ℕ
put_words [] = []
put_words (w ∷ ws) = le64 w ++ put_words ws

unfoldable pub get_words : (words : ℕ) → List ℕ → List ℕ
get_words zero bs = []
get_words (suc n) bs = get64 bs ∷ get_words n (drop 8 bs)

-- `strncpy(msg.sign, name, 31)` into 32 zero bytes
unfoldable pub signature : (name : List ℕ) → List ℕ
unfolding zeros
signature name = take 31 name ++ zeros (32 - length (take 31 name))

-- The message that `send_msg_regfn` sends.
unfoldable pub message : (name bmp : List ℕ) → List ℕ
unfolding le32 signature zeros put_words
message name bmp = le32 (msg_size (length bmp)) ++ (signature name ++ (zeros 4 ++ put_words bmp))

-- `send_msg_regfn`
unfoldable pub send_msg_regfn : List Io → (name bmp : List ℕ) → Option (ℤ × List ℕ)
send_msg_regfn answers name bmp = send_full answers (message name bmp)

-- `strncmp(a, b, n) == 0`, where the bytes after a list are NUL.
unfoldable pub strncmp_eq : ℕ → (a b : List ℕ) → Bool
strncmp_eq zero a b = true
strncmp_eq (suc n) [] [] = true
strncmp_eq (suc n) [] (y ∷ b) = y == 0
strncmp_eq (suc n) (x ∷ a) [] = x == 0
strncmp_eq (suc n) (x ∷ a) (y ∷ b) =
    let rest = strncmp_eq n a b in if x == y then (if x == 0 then true else rest) else false

-- The tests of `read_msg_regfn` on a message that was read whole: its result, and the bitmap that is
-- registered.
unfoldable pub accept_msg : (name : List ℕ) (words : ℕ) → List ℕ → ℤ × Option (List ℕ)
unfolding get32 strncmp_eq get_words
accept_msg name words bytes =
    if not (get32 bytes == msg_size words)
    then (neg 1, none)
    else if not (strncmp_eq 32 (take 32 (drop 4 bytes)) name)
    then (neg 1, none)
    else (pos 0, some (get_words words (drop 40 bytes)))

abbrev pub accept_read :
    (name : List ℕ) (words : ℕ)
    → Option (ℤ × List ℕ × List ℕ)
    → Option (ℤ × Option (List ℕ) × List ℕ)
accept_read name words none = none
accept_read name words (some (pos n, bytes, left)) =
    let (rc, bmp) = accept_msg name words bytes in some (rc, bmp, left)
accept_read name words (some (negsuc n, bytes, left)) = some (neg 1, none, left)

-- `read_msg_regfn`; `known` says whether the process is registered.
unfoldable pub read_msg_regfn :
    List Io
    → (known : Bool) → (name : List ℕ) (words : ℕ) → (stream : List ℕ)
    → Option (ℤ × Option (List ℕ) × List ℕ)
unfolding accept_msg
read_msg_regfn answers known name words stream =
    if known
    then accept_read name words (read_full answers (msg_size words) stream)
    else some (neg 1, none, stream)
