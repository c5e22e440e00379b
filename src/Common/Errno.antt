-- ===== src/Common/Errno.antt =====
-- The numbers of `errno.h` that the sources return, and those of `libsrpc_errno.h`.
use Prim.Native.Nat.{ℕ}

abbrev pub e_nomem : ℕ
e_nomem = 12

abbrev pub e_busy : ℕ
e_busy = 16

abbrev pub e_exist : ℕ
e_exist = 17

abbrev pub e_inval : ℕ
e_inval = 22

abbrev pub e_badmsg : ℕ
e_badmsg = 74

abbrev pub e_badfd : ℕ
e_badfd = 77

abbrev pub e_timedout : ℕ
e_timedout = 110

abbrev pub e_already : ℕ
e_already = 114

-- ELIBSRPC_START is 4095, and the codes of `SRPC_ERRNO_LIST` follow it.
abbrev pub e_libnoinit : ℕ
e_libnoinit = 4096

abbrev pub e_shmnoinit : ℕ
e_shmnoinit = 4097

abbrev pub e_rpcdisable : ℕ
e_rpcdisable = 4098

abbrev pub e_noregfun : ℕ
e_noregfun = 4099

abbrev pub e_recursive : ℕ
e_recursive = 4100

abbrev pub e_cancelled : ℕ
e_cancelled = 4101

abbrev pub e_notavailable : ℕ
e_notavailable = 4102

abbrev pub e_rpcwaitimedout : ℕ
e_rpcwaitimedout = 4103

abbrev pub e_notfound : ℕ
e_notfound = 4104

abbrev pub e_procdestroyed : ℕ
e_procdestroyed = 4105

abbrev pub e_invalrequest : ℕ
e_invalrequest = 4106

abbrev pub e_invalresponse : ℕ
e_invalresponse = 4107

abbrev pub e_invalproc : ℕ
e_invalproc = 4108
