-- ===== src/Client/Keyboard/Typing.antt =====
-- What a key press in the client makes the server inject.
use Prim.Native.Nat.{bit_and}
use rmtdos_utils.Prelude.{
  ℕ, ◌%◌, ◌<◌, ◌≤◌, ◌≡◌, refl, true, false, some, List, [], ◌∷◌, ◌++◌, ◌==◌, arith, ◌≢◌,
}
use rmtdos_utils.Wire.{Mac}
use rmtdos_utils.Protocol.{Keystroke, handle_inject_keystroke}
use rmtdos_utils.Protocol.Replies.{injected, handle_inject_keystroke-frame}
use rmtdos_utils.Client.{RawSocket, packet_buffer, send_keystrokes}
use rmtdos_utils.Client.Keyboard.{
  keymap, key_from_wch, WgetStatus, ok, send_key_from_wch, is_exit_wch_code, read_key, plain_key,
  after_escape, process_stdin_session_mode,
}
use rmtdos_utils.Client.Keyboard.Entry.{ks_alt}
use rmtdos_utils.Client.Keyboard.Table.{printable-Found, alt-Found}

-- What the server injects for the frame of one keystroke.
pub inject-send_keystrokes :
    (sock : RawSocket) (dest : Mac) (k : Keystroke) (rest : List ℕ)
    → handle_inject_keystroke (send_keystrokes sock (some dest) (k ∷ []) ++ rest) ≡ injected k ∷ []
unfolding send_keystrokes packet_buffer
inject-send_keystrokes sock dest k rest =
    handle_inject_keystroke-frame dest sock.if_addr sock.ethertype sock.session_id (k ∷ []) rest
      (omega arith)

is_exit_wch_code-printable :
    (wch : ℕ) → 0x20 ≤ wch → wch < 0x7f → (is_exit_wch_code wch ≡ false) × ((wch == 0x1b) ≡ false)
unfolding is_exit_wch_code
is_exit_wch_code-printable wch low high = (ground arith, ground arith)

module _ {W : Type 0} (wget_wch : W → WgetStatus × ℕ × W) (sock : RawSocket) (dest : Mac)
    (rest : List ℕ) where
  -- A key press that sends one frame, for which the server injects `k`.
  pub record Types (w w' : W) (k : Keystroke) : Type 0 where
    pub packet : List ℕ
    pub pressed : process_stdin_session_mode wget_wch sock dest w ≡ some (true, packet ∷ [], w')
    pub injects : handle_inject_keystroke (packet ++ rest) ≡ k ∷ []

  pub send_key_from_wch-frame :
      (wch extra_flags : ℕ) (k : Keystroke)
      → key_from_wch wch extra_flags ≡ some k
      → send_key_from_wch wget_wch sock dest wch extra_flags
        ≡ some (send_keystrokes sock (some dest) (k ∷ []))
  unfolding send_key_from_wch
  send_key_from_wch-frame wch extra_flags k e = rw (send_key_from_wch, e) refl

  -- A printable ASCII character that is typed in session mode sends one frame, for which the
  -- server injects one key: its ASCII value is that character, its scan code is not zero, and its
  -- flags are at most Shift. It does so whatever follows the frame in the receive buffer.
  pub printable-Types :
      (w w' : W) (wch : ℕ)
      → wget_wch w ≡ (ok, wch, w')
      → 0x20 ≤ wch
      → wch < 0x7f
      → (k : Keystroke) × Types w w' k
        × (k.ascii_value ≡ wch)
        × (k.bios_scan_code ≢ 0)
        × (k.flags_17 ≤ 1)
  unfolding process_stdin_session_mode
  printable-Types w w' wch got low high =
      let f = printable-Found wch low high in
      let sent = send_key_from_wch-frame wch 0 f.key f.found_ok in
      let (no_exit, no_escape) = is_exit_wch_code-printable wch low high in
      let byte : f.key.flags_17 % 256 ≡ f.key.flags_17 = omega (arith, f.known.2) in
      (
        injected f.key,
        record {
          packet = send_keystrokes sock (some dest) (f.key ∷ []);
          pressed =
              rw (process_stdin_session_mode, got)
                (rw (read_key, no_exit, no_escape) (rw (plain_key, sent) refl));
          injects = inject-send_keystrokes sock dest f.key rest;
        },
        f.known.0,
        f.known.1,
        omega (arith, f.known.2),
      )

  -- An escape character followed by a printable ASCII character sends one frame, for which the
  -- server injects one key: the scan code is that of the character, there is no ASCII value, and
  -- the Alt flag is set.
  pub escaped-Types :
      (w w1 w2 : W) (wch : ℕ)
      → wget_wch w ≡ (ok, 0x1b, w1)
      → wget_wch w1 ≡ (ok, wch, w2)
      → 0x20 ≤ wch
      → wch < 0x7f
      → (k : Keystroke) × Types w w2 k
        × (k.ascii_value ≡ 0)
        × (k.bios_scan_code ≡ (keymap wch).bios)
        × (bit_and k.flags_17 ks_alt ≢ 0)
  unfolding process_stdin_session_mode
  escaped-Types w w1 w2 wch escape got low high =
      let f = alt-Found wch low high in
      let sent = send_key_from_wch-frame wch ks_alt f.key f.found_ok in
      let (no_exit, no_escape) = is_exit_wch_code-printable wch low high in
      let byte : f.key.flags_17 % 256 ≡ f.key.flags_17 = omega (arith, f.known.3) in
      (
        injected f.key,
        record {
          packet = send_keystrokes sock (some dest) (f.key ∷ []);
          pressed =
              rw (process_stdin_session_mode, escape)
                (rw (read_key, after_escape, got) (rw sent (rw got (rw no_exit refl))));
          injects = inject-send_keystrokes sock dest f.key rest;
        },
        f.known.0,
        f.known.1,
        rw byte f.known.2,
      )
