-- ===== src/Wire/AckCommand.antt =====
-- `enum FILE_ACK_COMMAND` of tools/cga-web/src/common/protocol.h.
use Prim.Native.Nat.{ℕ}

abbrev pub begin : ℕ
begin = 1

abbrev pub chunk : ℕ
chunk = 2

abbrev pub end : ℕ
end = 3

abbrev pub mkdir : ℕ
mkdir = 4

abbrev pub delete : ℕ
delete = 5

abbrev pub rename : ℕ
rename = 6

abbrev pub copy : ℕ
copy = 7
