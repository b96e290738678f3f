-- ===== src/Tests/Typing.antt =====
-- The letter `a`, Alt with `x`, and the exit key.
use Prim.Native.Nat.{bit_and}
use rmtdos_utils.Prelude.{ℕ, ◌≤◌, ◌≡◌, ◌≢◌, refl, arith, List, [], ◌∷◌, replicate}
use rmtdos_utils.Protocol.{Keystroke}
use rmtdos_utils.Client.{RawSocket}
use rmtdos_utils.Client.Keyboard.{keymap, WgetStatus, ok, err, process_stdin_session_mode}
use rmtdos_utils.Client.Keyboard.Entry.{ks_alt}
use rmtdos_utils.Client.Keyboard.Harmless.{Harmless, process_stdin_session_mode-Harmless}
use rmtdos_utils.Client.Keyboard.Typing.{Types, printable-Types, escaped-Types}
use rmtdos_utils.Tests.{server_mac, client_mac}

-- The characters that are typed one after another.
abbrev wget : List ℕ → WgetStatus × ℕ × List ℕ
wget [] = (err, 0, [])
wget (c ∷ cs) = (ok, c, cs)

abbrev sock : RawSocket
sock = record { if_addr = client_mac; ethertype = 0x80ab; session_id = 7 }

printable-Types_example :
    (k : Keystroke) × Types wget sock server_mac (replicate 9 0) (97 ∷ []) [] k
    × (k.ascii_value ≡ 97)
    × (k.bios_scan_code ≢ 0)
    × (k.flags_17 ≤ 1)
printable-Types_example =
    printable-Types wget sock server_mac (replicate 9 0) (97 ∷ []) [] 97 refl (omega arith)
      (omega arith)

escaped-Types_example :
    (k : Keystroke) × Types wget sock server_mac (replicate 9 0) (27 ∷ 120 ∷ []) [] k
    × (k.ascii_value ≡ 0)
    × (k.bios_scan_code ≡ (keymap 120).bios)
    × (bit_and k.flags_17 ks_alt ≢ 0)
escaped-Types_example =
    escaped-Types wget sock server_mac (replicate 9 0) (27 ∷ 120 ∷ []) (120 ∷ []) [] 120 refl refl
      (omega arith) (omega arith)

process_stdin_session_mode-Harmless_example :
    Harmless (replicate 9 0) (process_stdin_session_mode wget sock server_mac (27 ∷ 29 ∷ []))
process_stdin_session_mode-Harmless_example =
    process_stdin_session_mode-Harmless wget sock server_mac (replicate 9 0) (27 ∷ 29 ∷ [])
