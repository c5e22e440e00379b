-- ===== src/Request/Word.antt =====
-- The word of a response: `srpc_rc_t`.
use simplerpc.Common.{ℕ, ◌^◌, ◌<◌, ◌≡◌, ℤ, pos, negsuc, unsigned, arith}
use simplerpc.Request.{word30, rc_word, rc_st, rc_code}

-- A code that 30 bits with a sign can hold.
abbrev pub IsCode : ℤ → Type 0
IsCode (pos n) = n < 2 ^ 29
IsCode (negsuc n) = n < 2 ^ 29

pub unsigned30-lt : (code : ℤ) → IsCode code → unsigned word30 code < word30
unsigned30-lt (pos n) small = omega arith
unsigned30-lt (negsuc n) small = omega arith

-- A state and a code of 30 bits with a sign, stored in the word of a response, are read back from
-- its fields.
pub rc_word-fields :
    (code : ℤ) (st : ℕ)
    → IsCode code
    → (rc_st (rc_word code st) ≡ st) × (rc_code (rc_word code st) ≡ code)
unfolding rc_st rc_code rc_word
rc_word-fields (pos n) st small = (omega arith, ground arith)
rc_word-fields (negsuc n) st small = (omega arith, ground arith)
