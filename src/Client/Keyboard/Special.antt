-- ===== src/Client/Keyboard/Special.antt =====
-- The part of `keymap` of client/keyboard.c for the other special keys, in its order.
use rmtdos_utils.Prelude.{ℕ, List, [], ◌∷◌}
use Prim.Native.Nat.{bit_or}
use rmtdos_utils.Client.Keyboard.Entry.{Key, key, ks_shift, ks_control, ks_alt}
use rmtdos_utils.Client.Keyboard.Scan

unfoldable pub special_keys : List (ℕ × Key)
special_keys =
    (0x14a, key Scan.keypad_period 0 0)
    ∷ (0x14b, key Scan.keypad_0 0 0)
    ∷ (0x150, key 0xa0 0 ks_shift)
    ∷ (0x151, key 0x8d 0 ks_shift)
    ∷ (0x152, key Scan.keypad_3 0 0)
    ∷ (0x153, key Scan.keypad_9 0 0)
    ∷ (0x157, key Scan.return 0x0d 0)
    ∷ (0x162, key Scan.keypad_5 0 0)
    ∷ (0x168, key Scan.keypad_1 0 0)
    ∷ (0x182, key 0x9f 0 ks_shift)
    ∷ (0x187, key 0x97 0 ks_shift)
    ∷ (0x189, key 0x73 0 ks_shift)
    ∷ (0x192, key 0x74 0 ks_shift)
    ∷ (0x206, key 0xa3 0 ks_alt)
    ∷ (0x207, key 0xa3 0 (bit_or ks_alt ks_shift))
    ∷ (0x208, key 0x93 0 ks_control)
    ∷ (0x209, key 0x93 0 (bit_or ks_control ks_shift))
    ∷ (0x20c, key 0xa0 0 ks_alt)
    ∷ (0x20e, key 0x91 0 ks_control)
    ∷ (0x211, key 0x9f 0 ks_alt)
    ∷ (0x212, key 0x9f 0 (bit_or ks_alt ks_shift))
    ∷ (0x213, key 0x75 0 ks_control)
    ∷ (0x214, key 0x75 0 (bit_or ks_control ks_shift))
    ∷ (0x216, key 0x97 0 ks_alt)
    ∷ (0x217, key 0x97 0 (bit_or ks_alt ks_shift))
    ∷ (0x218, key 0x77 0 ks_control)
    ∷ (0x219, key 0x77 0 (bit_or ks_control ks_shift))
    ∷ (0x21b, key 0xa2 0 ks_alt)
    ∷ (0x21d, key 0x92 0 ks_control)
    ∷ (0x21f, key 0xa2 0 (bit_or ks_alt ks_control))
    ∷ (0x220, key 0x9b 0 ks_alt)
    ∷ (0x222, key 0x73 0 ks_control)
    ∷ (0x225, key 0xa1 0 ks_alt)
    ∷ (0x227, key 0x76 0 ks_control)
    ∷ (0x22a, key 0x99 0 ks_alt)
    ∷ (0x22c, key 0x84 0 ks_control)
    ∷ (0x22f, key 0x9d 0 ks_alt)
    ∷ (0x231, key 0x74 0 ks_control)
    ∷ (0x235, key 0x98 0 ks_alt)
    ∷ (0x237, key 0x8d 0 ks_control)
    ∷ (0x23f, key Scan.keypad_plus 0 0)
    ∷ (0x241, key Scan.fslash b'/' 0)
    ∷ (0x243, key Scan.mul b'*' 0)
    ∷ (0x243, key Scan.mul b'*' 0)
    ∷ (0x244, key 0x4a b'-' 0)
    ∷ []
