-- ===== src/Client/Keyboard/Control.antt =====
-- The part of `keymap` of client/keyboard.c for the control characters, in its order.
use rmtdos_utils.Prelude.{ℕ, List, [], ◌∷◌, ◌-◌}
use Prim.Native.Nat.{bit_or}
use rmtdos_utils.Client.Keyboard.Entry.{Key, key, ks_shift, ks_control}
use rmtdos_utils.Client.Keyboard.Scan

unfoldable pub control_keys : List (ℕ × Key)
control_keys =
    (0x000, key 0x03 0x00 (bit_or ks_control ks_shift))
    ∷ (0x001, key Scan.a (b'A' - b'@') ks_control)
    ∷ (0x002, key Scan.b (b'B' - b'@') ks_control)
    ∷ (0x003, key Scan.c (b'C' - b'@') ks_control)
    ∷ (0x004, key Scan.d (b'D' - b'@') ks_control)
    ∷ (0x005, key Scan.e (b'E' - b'@') ks_control)
    ∷ (0x006, key Scan.f (b'F' - b'@') ks_control)
    ∷ (0x007, key Scan.g (b'G' - b'@') ks_control)
    ∷ (0x008, key Scan.h (b'H' - b'@') ks_control)
    ∷ (0x009, key Scan.tab 0x09 0)
    ∷ (0x00a, key Scan.j (b'J' - b'@') ks_control)
    ∷ (0x00b, key Scan.k (b'K' - b'@') ks_control)
    ∷ (0x00c, key Scan.l (b'L' - b'@') ks_control)
    ∷ (0x00d, key Scan.m (b'M' - b'@') ks_control)
    ∷ (0x00e, key Scan.n (b'N' - b'@') ks_control)
    ∷ (0x00e, key Scan.return 0x0a 0)
    ∷ (0x00f, key Scan.o (b'O' - b'@') ks_control)
    ∷ (0x010, key Scan.p (b'P' - b'@') ks_control)
    ∷ (0x011, key Scan.q (b'Q' - b'@') ks_control)
    ∷ (0x012, key Scan.return 0x0d 0)
    ∷ (0x012, key Scan.r (b'R' - b'@') ks_control)
    ∷ (0x013, key Scan.s (b'S' - b'@') ks_control)
    ∷ (0x014, key Scan.t (b'T' - b'@') ks_control)
    ∷ (0x015, key Scan.u (b'U' - b'@') ks_control)
    ∷ (0x016, key Scan.v (b'V' - b'@') ks_control)
    ∷ (0x017, key Scan.w (b'W' - b'@') ks_control)
    ∷ (0x018, key Scan.x (b'X' - b'@') ks_control)
    ∷ (0x019, key Scan.y (b'Y' - b'@') ks_control)
    ∷ (0x01a, key Scan.z (b'Z' - b'@') ks_control)
    ∷ (0x01b, key Scan.esc 0x1b 0)
    ∷ (0x01c, key 0x2b 0x1c ks_control)
    ∷ (0x01d, key 0x1d 0x1b ks_control)
    ∷ (0x01e, key 0x07 0x1e ks_control)
    ∷ (0x01f, key 0x0c 0x1f (bit_or ks_control ks_shift))
    ∷ []
