-- ===== src/Client/Keyboard/Function.antt =====
-- The part of `keymap` of client/keyboard.c for the arrow and function keys, in its order.
use rmtdos_utils.Prelude.{ℕ, List, [], ◌∷◌}
use Prim.Native.Nat.{bit_or}
use rmtdos_utils.Client.Keyboard.Entry.{Key, key, ks_shift, ks_control, ks_alt, unknown}
use rmtdos_utils.Client.Keyboard.Scan

unfoldable pub function_keys : List (ℕ × Key)
function_keys =
    (0x100, unknown)
    ∷ (0x101, unknown)
    ∷ (0x102, key Scan.keypad_2 0 0)
    ∷ (0x103, key Scan.keypad_8 0 0)
    ∷ (0x104, key Scan.keypad_4 0 0)
    ∷ (0x105, key Scan.keypad_6 0 0)
    ∷ (0x106, key Scan.keypad_7 0 0)
    ∷ (0x107, key Scan.bs 0x08 0)
    ∷ (0x108, unknown)
    ∷ (0x109, key Scan.f1 0 0)
    ∷ (0x10a, key Scan.f2 0 0)
    ∷ (0x10b, key Scan.f3 0 0)
    ∷ (0x10c, key Scan.f4 0 0)
    ∷ (0x10d, key Scan.f5 0 0)
    ∷ (0x10e, key Scan.f6 0 0)
    ∷ (0x10f, key Scan.f7 0 0)
    ∷ (0x110, key Scan.f8 0 0)
    ∷ (0x111, key Scan.f9 0 0)
    ∷ (0x112, key Scan.f10 0 0)
    ∷ (0x113, key Scan.f11 0 0)
    ∷ (0x114, key Scan.f12 0 0)
    ∷ (0x115, key Scan.f1 0 ks_shift)
    ∷ (0x116, key Scan.f2 0 ks_shift)
    ∷ (0x117, key Scan.f3 0 ks_shift)
    ∷ (0x118, key Scan.f4 0 ks_shift)
    ∷ (0x119, key Scan.f5 0 ks_shift)
    ∷ (0x11a, key Scan.f6 0 ks_shift)
    ∷ (0x11b, key Scan.f7 0 ks_shift)
    ∷ (0x11c, key Scan.f8 0 ks_shift)
    ∷ (0x11d, key Scan.f9 0 ks_shift)
    ∷ (0x11e, key Scan.f10 0 ks_shift)
    ∷ (0x11f, key Scan.f11 0 ks_shift)
    ∷ (0x120, key Scan.f12 0 ks_shift)
    ∷ (0x121, key Scan.f1 0 ks_control)
    ∷ (0x122, key Scan.f2 0 ks_control)
    ∷ (0x123, key Scan.f3 0 ks_control)
    ∷ (0x124, key Scan.f4 0 ks_control)
    ∷ (0x125, key Scan.f5 0 ks_control)
    ∷ (0x126, key Scan.f6 0 ks_control)
    ∷ (0x127, key Scan.f7 0 ks_control)
    ∷ (0x128, key Scan.f8 0 ks_control)
    ∷ (0x129, key Scan.f9 0 ks_control)
    ∷ (0x12a, key Scan.f10 0 ks_control)
    ∷ (0x12b, key Scan.f11 0 ks_control)
    ∷ (0x12c, key Scan.f12 0 ks_control)
    ∷ (0x12d, key Scan.f1 0 (bit_or ks_shift ks_control))
    ∷ (0x12e, key Scan.f2 0 (bit_or ks_shift ks_control))
    ∷ (0x12f, key Scan.f3 0 (bit_or ks_shift ks_control))
    ∷ (0x130, key Scan.f4 0 (bit_or ks_shift ks_control))
    ∷ (0x131, key Scan.f5 0 (bit_or ks_shift ks_control))
    ∷ (0x132, key Scan.f6 0 (bit_or ks_shift ks_control))
    ∷ (0x133, key Scan.f7 0 (bit_or ks_shift ks_control))
    ∷ (0x134, key Scan.f8 0 (bit_or ks_shift ks_control))
    ∷ (0x135, key Scan.f9 0 (bit_or ks_shift ks_control))
    ∷ (0x136, key Scan.f10 0 (bit_or ks_shift ks_control))
    ∷ (0x137, key Scan.f11 0 (bit_or ks_shift ks_control))
    ∷ (0x138, key Scan.f12 0 (bit_or ks_shift ks_control))
    ∷ (0x139, key Scan.f1 0 ks_alt)
    ∷ (0x13a, key Scan.f2 0 ks_alt)
    ∷ (0x13b, key Scan.f3 0 ks_alt)
    ∷ (0x13c, key Scan.f4 0 ks_alt)
    ∷ (0x13d, key Scan.f5 0 ks_alt)
    ∷ (0x13e, key Scan.f6 0 ks_alt)
    ∷ (0x13f, key Scan.f7 0 ks_alt)
    ∷ (0x140, key Scan.f8 0 ks_alt)
    ∷ (0x141, key Scan.f9 0 ks_alt)
    ∷ (0x142, key Scan.f10 0 ks_alt)
    ∷ (0x143, key Scan.f11 0 ks_alt)
    ∷ (0x144, key Scan.f12 0 ks_alt)
    ∷ (0x145, key Scan.f1 0 (bit_or ks_alt ks_shift))
    ∷ (0x146, key Scan.f2 0 (bit_or ks_alt ks_shift))
    ∷ (0x147, key Scan.f3 0 (bit_or ks_alt ks_shift))
    ∷ []
