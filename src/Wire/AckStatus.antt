-- ===== src/Wire/AckStatus.antt =====
-- `enum FILE_ACK_STATUS` of tools/cga-web/src/common/protocol.h.
use Prim.Native.Nat.{ℕ}

abbrev pub ok : ℕ
ok = 0

abbrev pub busy : ℕ
busy = 1

abbrev pub error : ℕ
error = 2
