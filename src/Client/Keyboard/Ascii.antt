-- ===== src/Client/Keyboard/Ascii.antt =====
-- The part of `keymap` of client/keyboard.c for the printable characters, in its order.
use rmtdos_utils.Prelude.{ℕ, List, [], ◌∷◌}
use rmtdos_utils.Client.Keyboard.Entry.{Key, key, ks_shift, ks_control}
use rmtdos_utils.Client.Keyboard.Scan

unfoldable pub ascii_keys : List (ℕ × Key)
ascii_keys =
    (0x020, key Scan.space b' ' 0)
    ∷ (0x021, key Scan.digit_1 b'!' ks_shift)
    ∷ (0x022, key Scan.quote 0x22 ks_shift)
    ∷ (0x023, key Scan.digit_3 b'#' ks_shift)
    ∷ (0x024, key Scan.digit_4 b'$' ks_shift)
    ∷ (0x025, key Scan.digit_5 b'%' ks_shift)
    ∷ (0x026, key Scan.digit_7 b'&' ks_shift)
    ∷ (0x027, key Scan.quote 0x27 0)
    ∷ (0x028, key Scan.digit_9 b'(' ks_shift)
    ∷ (0x029, key Scan.digit_0 b')' ks_shift)
    ∷ (0x02a, key Scan.digit_8 b'*' ks_shift)
    ∷ (0x02b, key Scan.eq b'+' ks_shift)
    ∷ (0x02c, key Scan.comma b',' 0)
    ∷ (0x02d, key Scan.dash b'-' 0)
    ∷ (0x02e, key Scan.period b'.' 0)
    ∷ (0x02f, key Scan.fslash b'/' 0)
    ∷ (0x030, key Scan.digit_0 b'0' 0)
    ∷ (0x031, key Scan.digit_1 b'1' 0)
    ∷ (0x032, key Scan.digit_2 b'2' 0)
    ∷ (0x033, key Scan.digit_3 b'3' 0)
    ∷ (0x034, key Scan.digit_4 b'4' 0)
    ∷ (0x035, key Scan.digit_5 b'5' 0)
    ∷ (0x036, key Scan.digit_6 b'6' 0)
    ∷ (0x037, key Scan.digit_7 b'7' 0)
    ∷ (0x038, key Scan.digit_8 b'8' 0)
    ∷ (0x039, key Scan.digit_9 b'9' 0)
    ∷ (0x03a, key Scan.semicolon b':' ks_shift)
    ∷ (0x03b, key Scan.semicolon b';' 0)
    ∷ (0x03c, key Scan.comma b'<' ks_shift)
    ∷ (0x03d, key Scan.eq b'=' 0)
    ∷ (0x03e, key Scan.period b'>' ks_shift)
    ∷ (0x03f, key Scan.fslash b'?' ks_shift)
    ∷ (0x040, key Scan.digit_2 b'@' ks_shift)
    ∷ (0x041, key Scan.a b'A' ks_shift)
    ∷ (0x042, key Scan.b b'B' ks_shift)
    ∷ (0x043, key Scan.c b'C' ks_shift)
    ∷ (0x044, key Scan.d b'D' ks_shift)
    ∷ (0x045, key Scan.e b'E' ks_shift)
    ∷ (0x046, key Scan.f b'F' ks_shift)
    ∷ (0x047, key Scan.g b'G' ks_shift)
    ∷ (0x048, key Scan.h b'H' ks_shift)
    ∷ (0x049, key Scan.i b'I' ks_shift)
    ∷ (0x04a, key Scan.j b'J' ks_shift)
    ∷ (0x04b, key Scan.k b'K' ks_shift)
    ∷ (0x04c, key Scan.l b'L' ks_shift)
    ∷ (0x04d, key Scan.m b'M' ks_shift)
    ∷ (0x04e, key Scan.n b'N' ks_shift)
    ∷ (0x04f, key Scan.o b'O' ks_shift)
    ∷ (0x050, key Scan.p b'P' ks_shift)
    ∷ (0x051, key Scan.q b'Q' ks_shift)
    ∷ (0x052, key Scan.r b'R' ks_shift)
    ∷ (0x053, key Scan.s b'S' ks_shift)
    ∷ (0x054, key Scan.t b'T' ks_shift)
    ∷ (0x055, key Scan.u b'U' ks_shift)
    ∷ (0x056, key Scan.v b'V' ks_shift)
    ∷ (0x057, key Scan.w b'W' ks_shift)
    ∷ (0x058, key Scan.x b'X' ks_shift)
    ∷ (0x059, key Scan.y b'Y' ks_shift)
    ∷ (0x05a, key Scan.z b'Z' ks_shift)
    ∷ (0x05b, key Scan.lbrace b'[' 0)
    ∷ (0x05c, key Scan.bslash 0x5c 0)
    ∷ (0x05d, key Scan.rbrace b']' 0)
    ∷ (0x05e, key Scan.digit_6 b'^' ks_shift)
    ∷ (0x05f, key Scan.dash b'_' ks_shift)
    ∷ (0x060, key Scan.tilde b'`' 0)
    ∷ (0x061, key Scan.a b'a' 0)
    ∷ (0x062, key Scan.b b'b' 0)
    ∷ (0x063, key Scan.c b'c' 0)
    ∷ (0x064, key Scan.d b'd' 0)
    ∷ (0x065, key Scan.e b'e' 0)
    ∷ (0x066, key Scan.f b'f' 0)
    ∷ (0x067, key Scan.g b'g' 0)
    ∷ (0x068, key Scan.h b'h' 0)
    ∷ (0x069, key Scan.i b'i' 0)
    ∷ (0x06a, key Scan.j b'j' 0)
    ∷ (0x06b, key Scan.k b'k' 0)
    ∷ (0x06c, key Scan.l b'l' 0)
    ∷ (0x06d, key Scan.m b'm' 0)
    ∷ (0x06e, key Scan.n b'n' 0)
    ∷ (0x06f, key Scan.o b'o' 0)
    ∷ (0x070, key Scan.p b'p' 0)
    ∷ (0x071, key Scan.q b'q' 0)
    ∷ (0x072, key Scan.r b'r' 0)
    ∷ (0x073, key Scan.s b's' 0)
    ∷ (0x074, key Scan.t b't' 0)
    ∷ (0x075, key Scan.u b'u' 0)
    ∷ (0x076, key Scan.v b'v' 0)
    ∷ (0x077, key Scan.w b'w' 0)
    ∷ (0x078, key Scan.x b'x' 0)
    ∷ (0x079, key Scan.y b'y' 0)
    ∷ (0x07a, key Scan.z b'z' 0)
    ∷ (0x07b, key Scan.lbrace b'{' ks_shift)
    ∷ (0x07c, key Scan.bslash b'|' ks_shift)
    ∷ (0x07d, key Scan.rbrace b'}' ks_shift)
    ∷ (0x07e, key Scan.tilde b'~' ks_shift)
    ∷ (0x07f, key Scan.bs 0x7f ks_control)
    ∷ []
