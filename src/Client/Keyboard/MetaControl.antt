-- ===== src/Client/Keyboard/MetaControl.antt =====
-- The part of `keymap` of client/keyboard.c for the control characters with Alt, in its order.
use rmtdos_utils.Prelude.{ℕ, List, [], ◌∷◌}
use Prim.Native.Nat.{bit_or}
use rmtdos_utils.Client.Keyboard.Entry.{Key, key, ks_shift, ks_control, ks_alt, unknown}
use rmtdos_utils.Client.Keyboard.Scan

unfoldable pub meta_control_keys : List (ℕ × Key)
meta_control_keys =
    (0x080, key Scan.tilde 0 (bit_or ks_alt ks_control))
    ∷ (0x081, key Scan.a 0 (bit_or ks_alt ks_control))
    ∷ (0x082, key Scan.b 0 (bit_or ks_alt ks_control))
    ∷ (0x083, key Scan.c 0 (bit_or ks_alt ks_control))
    ∷ (0x084, key Scan.d 0 (bit_or ks_alt ks_control))
    ∷ (0x085, key Scan.e 0 (bit_or ks_alt ks_control))
    ∷ (0x086, key Scan.f 0 (bit_or ks_alt ks_control))
    ∷ (0x087, key Scan.g 0 (bit_or ks_alt ks_control))
    ∷ (0x088, key Scan.h 0 (bit_or ks_alt ks_control))
    ∷ (0x089, key Scan.i 0 (bit_or ks_alt ks_control))
    ∷ (0x08a, key Scan.j 0 (bit_or ks_alt ks_control))
    ∷ (0x08b, key Scan.k 0 (bit_or ks_alt ks_control))
    ∷ (0x08c, key Scan.l 0 (bit_or ks_alt ks_control))
    ∷ (0x08d, key Scan.m 0 (bit_or ks_alt ks_control))
    ∷ (0x08e, key Scan.n 0 (bit_or ks_alt ks_control))
    ∷ (0x08f, key Scan.o 0 (bit_or ks_alt ks_control))
    ∷ (0x090, key Scan.p 0 (bit_or ks_alt ks_control))
    ∷ (0x091, key Scan.q 0 (bit_or ks_alt ks_control))
    ∷ (0x092, key Scan.r 0 (bit_or ks_alt ks_control))
    ∷ (0x093, key Scan.s 0 (bit_or ks_alt ks_control))
    ∷ (0x094, key Scan.t 0 (bit_or ks_alt ks_control))
    ∷ (0x095, key Scan.u 0 (bit_or ks_alt ks_control))
    ∷ (0x096, key Scan.v 0 (bit_or ks_alt ks_control))
    ∷ (0x097, key Scan.w 0 (bit_or ks_alt ks_control))
    ∷ (0x098, key Scan.x 0 (bit_or ks_alt ks_control))
    ∷ (0x099, key Scan.y 0 (bit_or ks_alt ks_control))
    ∷ (0x09a, key Scan.z 0 (bit_or ks_alt ks_control))
    ∷ (0x09b, key Scan.esc 0 (bit_or ks_alt ks_control))
    ∷ (0x09c, key Scan.bslash 0 (bit_or ks_alt ks_control))
    ∷ (0x09d, unknown)
    ∷ (0x09e, key Scan.digit_6 0 (bit_or (bit_or ks_alt ks_control) ks_shift))
    ∷ (0x09f, key Scan.fslash 0 (bit_or ks_alt ks_control))
    ∷ []
