-- ===== src/Client/Keyboard/Meta.antt =====
-- The part of `keymap` of client/keyboard.c for the other characters with Alt, in its order.
use rmtdos_utils.Prelude.{ℕ, List, [], ◌∷◌}
use Prim.Native.Nat.{bit_or}
use rmtdos_utils.Client.Keyboard.Entry.{Key, key, ks_shift, ks_alt, unknown}
use rmtdos_utils.Client.Keyboard.Scan

unfoldable pub meta_keys : List (ℕ × Key)
meta_keys =
    (0x0a0, unknown)
    ∷ (0x0a1, key 0x78 0 (bit_or ks_alt ks_shift))
    ∷ (0x0a2, key Scan.quote 0 (bit_or ks_alt ks_shift))
    ∷ (0x0a3, key 0x7a 0 (bit_or ks_alt ks_shift))
    ∷ (0x0a4, key 0x7b 0 (bit_or ks_alt ks_shift))
    ∷ (0x0a5, key 0x7c 0 (bit_or ks_alt ks_shift))
    ∷ (0x0a6, key 0x7e 0 (bit_or ks_alt ks_shift))
    ∷ (0x0a7, key Scan.quote 0 ks_alt)
    ∷ (0x0a8, key 0x80 0 (bit_or ks_alt ks_shift))
    ∷ (0x0a9, key 0x81 0 (bit_or ks_alt ks_shift))
    ∷ (0x0aa, key 0x7f 0 (bit_or ks_alt ks_shift))
    ∷ (0x0ab, key 0x83 0 (bit_or ks_alt ks_shift))
    ∷ (0x0ac, key Scan.comma 0 ks_alt)
    ∷ (0x0ad, key Scan.dash 0 ks_alt)
    ∷ (0x0ae, key Scan.period 0 ks_alt)
    ∷ (0x0af, unknown)
    ∷ (0x0b0, key 0x81 0 ks_alt)
    ∷ (0x0b1, key 0x78 0 ks_alt)
    ∷ (0x0b2, key 0x79 0 ks_alt)
    ∷ (0x0b3, key 0x7a 0 ks_alt)
    ∷ (0x0b4, key 0x7b 0 ks_alt)
    ∷ (0x0b5, key 0x7c 0 ks_alt)
    ∷ (0x0b6, key 0x7d 0 ks_alt)
    ∷ (0x0b7, key 0x7e 0 ks_alt)
    ∷ (0x0b8, key 0x7f 0 ks_alt)
    ∷ (0x0b9, key 0x80 0 ks_alt)
    ∷ (0x0ba, key Scan.semicolon 0 (bit_or ks_alt ks_shift))
    ∷ (0x0bb, key Scan.semicolon 0 ks_alt)
    ∷ (0x0bc, key Scan.comma 0 (bit_or ks_alt ks_shift))
    ∷ (0x0bd, key 0x83 0 ks_alt)
    ∷ (0x0be, key Scan.period 0 (bit_or ks_alt ks_shift))
    ∷ (0x0bf, key Scan.fslash 0 (bit_or ks_alt ks_shift))
    ∷ (0x0c0, key 0x79 0 (bit_or ks_alt ks_shift))
    ∷ (0x0c1, key Scan.a 0 (bit_or ks_alt ks_shift))
    ∷ (0x0c2, key Scan.b 0 (bit_or ks_alt ks_shift))
    ∷ (0x0c3, key Scan.c 0 (bit_or ks_alt ks_shift))
    ∷ (0x0c4, key Scan.d 0 (bit_or ks_alt ks_shift))
    ∷ (0x0c5, key Scan.e 0 (bit_or ks_alt ks_shift))
    ∷ (0x0c6, key Scan.f 0 (bit_or ks_alt ks_shift))
    ∷ (0x0c7, key Scan.g 0 (bit_or ks_alt ks_shift))
    ∷ (0x0c8, key Scan.h 0 (bit_or ks_alt ks_shift))
    ∷ (0x0c9, key Scan.i 0 (bit_or ks_alt ks_shift))
    ∷ (0x0ca, key Scan.j 0 (bit_or ks_alt ks_shift))
    ∷ (0x0cb, key Scan.k 0 (bit_or ks_alt ks_shift))
    ∷ (0x0cc, key Scan.l 0 (bit_or ks_alt ks_shift))
    ∷ (0x0cd, key Scan.m 0 (bit_or ks_alt ks_shift))
    ∷ (0x0ce, key Scan.n 0 (bit_or ks_alt ks_shift))
    ∷ (0x0cf, key Scan.o 0 (bit_or ks_alt ks_shift))
    ∷ (0x0d0, key Scan.p 0 (bit_or ks_alt ks_shift))
    ∷ (0x0d1, key Scan.q 0 (bit_or ks_alt ks_shift))
    ∷ (0x0d2, key Scan.r 0 (bit_or ks_alt ks_shift))
    ∷ (0x0d3, key Scan.s 0 (bit_or ks_alt ks_shift))
    ∷ (0x0d4, key Scan.t 0 (bit_or ks_alt ks_shift))
    ∷ (0x0d5, key Scan.u 0 (bit_or ks_alt ks_shift))
    ∷ (0x0d6, key Scan.v 0 (bit_or ks_alt ks_shift))
    ∷ (0x0d7, key Scan.w 0 (bit_or ks_alt ks_shift))
    ∷ (0x0d8, key Scan.x 0 (bit_or ks_alt ks_shift))
    ∷ (0x0d9, key Scan.y 0 (bit_or ks_alt ks_shift))
    ∷ (0x0da, key Scan.z 0 (bit_or ks_alt ks_shift))
    ∷ (0x0db, key Scan.lbrace 0 ks_alt)
    ∷ (0x0dc, key Scan.bslash 0 ks_alt)
    ∷ (0x0dd, key Scan.rbrace 0 ks_alt)
    ∷ (0x0de, key 0x7d 0 (bit_or ks_alt ks_shift))
    ∷ (0x0df, unknown)
    ∷ (0x0e0, key Scan.tilde 0 ks_alt)
    ∷ (0x0e1, key Scan.a 0 ks_alt)
    ∷ (0x0e2, key Scan.b 0 ks_alt)
    ∷ (0x0e3, key Scan.c 0 ks_alt)
    ∷ (0x0e4, key Scan.d 0 ks_alt)
    ∷ (0x0e5, key Scan.e 0 ks_alt)
    ∷ (0x0e6, key Scan.f 0 ks_alt)
    ∷ (0x0e7, key Scan.g 0 ks_alt)
    ∷ (0x0e8, key Scan.h 0 ks_alt)
    ∷ (0x0e9, key Scan.i 0 ks_alt)
    ∷ (0x0ea, key Scan.j 0 ks_alt)
    ∷ (0x0eb, key Scan.k 0 ks_alt)
    ∷ (0x0ec, key Scan.l 0 ks_alt)
    ∷ (0x0ed, key Scan.m 0 ks_alt)
    ∷ (0x0ee, key Scan.n 0 ks_alt)
    ∷ (0x0ef, key Scan.o 0 ks_alt)
    ∷ (0x0f0, key Scan.p 0 ks_alt)
    ∷ (0x0f1, key Scan.q 0 ks_alt)
    ∷ (0x0f2, key Scan.r 0 ks_alt)
    ∷ (0x0f3, key Scan.s 0 ks_alt)
    ∷ (0x0f4, key Scan.t 0 ks_alt)
    ∷ (0x0f5, key Scan.u 0 ks_alt)
    ∷ (0x0f6, key Scan.v 0 ks_alt)
    ∷ (0x0f7, key Scan.w 0 ks_alt)
    ∷ (0x0f8, key Scan.x 0 ks_alt)
    ∷ (0x0f9, key Scan.y 0 ks_alt)
    ∷ (0x0fa, key Scan.z 0 ks_alt)
    ∷ (0x0fb, key Scan.lbrace 0 (bit_or ks_alt ks_shift))
    ∷ (0x0fc, key Scan.bslash 0 (bit_or ks_alt ks_shift))
    ∷ (0x0fd, key Scan.rbrace 0 (bit_or ks_alt ks_shift))
    ∷ (0x0fe, unknown)
    ∷ (0x0ff, unknown)
    ∷ []
