-- ===== src/Client/Keyboard/Entry.antt =====
-- `struct Key` of client/keyboard.c without the name, which only the diagnostics print, and the bits
-- of its flags from common/protocol.h.
use Prim.Native.Nat.{ℕ}

pub record Key : Type 0 where
  pub bios : ℕ
  pub ascii : ℕ
  pub flags : ℕ

abbrev pub key : ℕ → ℕ → ℕ → Key
key bios ascii flags = record { bios = bios; ascii = ascii; flags = flags }

-- `UNKNOWN`
abbrev pub unknown : Key
unknown = key 0 0 0

abbrev pub ks_shift : ℕ
ks_shift = 1

abbrev pub ks_control : ℕ
ks_control = 4

abbrev pub ks_alt : ℕ
ks_alt = 8
