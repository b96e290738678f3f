-- ===== src/Client/Keyboard/Harmless.antt =====
-- What every press of a key sends, mapped or not.
use Prim.Native.Nat.{bit_and}
use rmtdos_utils.Prelude.{
  ℕ, ◌≡◌, ◌⊎◌, ◌%◌, ◌++◌, refl, Bool, true, not, some, none, Option, List, [], ◌∷◌, ◌==◌, ◌&&◌,
  if_intro, arith, inl, inr, Option-cases,
}
use rmtdos_utils.Wire.{Mac}
use rmtdos_utils.Protocol.{Keystroke, handle_inject_keystroke}
use rmtdos_utils.Protocol.Replies.{injected}
use rmtdos_utils.Client.{RawSocket, send_keystrokes}
use rmtdos_utils.Client.Keyboard.{
  key_from_wch, WgetStatus, ok, key_code_yes, err, other, is_key, send_key_from_wch,
  is_exit_wch_code, read_key, plain_key, after_escape, process_stdin_session_mode,
}
use rmtdos_utils.Client.Keyboard.Entry.{ks_alt}
use rmtdos_utils.Client.Keyboard.Table.{key_from_wch-IsModifiers}
use rmtdos_utils.Client.Keyboard.Typing.{inject-send_keystrokes}

-- The server injects one key for the frame, and of the BIOS flags sets only Shift, Control and Alt.
pub record InjectsOne (rest frame : List ℕ) : Type 0 where
  pub key : Keystroke
  pub one : handle_inject_keystroke (frame ++ rest) ≡ key ∷ []
  pub modifiers : bit_and key.flags_17 0xf2 ≡ 0

-- At most one frame, and none when the session ends.
abbrev pub Harmless : {W : Type 0} → List ℕ → Option (Bool × List (List ℕ) × W) → Type 0
Harmless rest none = Unit {0}
Harmless rest (some (running, [], w)) = Unit {0}
Harmless rest (some (running, frame ∷ [], w)) = InjectsOne rest frame × (running ≡ true)
Harmless rest (some (running, frame ∷ more ∷ frames, w)) = ⊥

module _ {W : Type 0} (wget_wch : W → WgetStatus × ℕ × W) (sock : RawSocket) (dest : Mac)
    (rest : List ℕ) where
  send_key_from_wch-InjectsOne :
      (wch extra_flags : ℕ) (frame : List ℕ)
      → (extra_flags ≡ 0) ⊎ (extra_flags ≡ ks_alt)
      → send_key_from_wch wget_wch sock dest wch extra_flags ≡ some frame
      → InjectsOne rest frame
  unfolding send_key_from_wch
  send_key_from_wch-InjectsOne wch extra_flags frame extra sent =
      elim (Option-cases (key_from_wch wch extra_flags)) [
        | inl nothing ↦ absurd (cc)
        | inr (k, e) ↦
            let f : send_keystrokes sock (some dest) (k ∷ []) ≡ frame = cc in
            let (bits, small) = key_from_wch-IsModifiers wch extra_flags k extra e in
            let byte : k.flags_17 % 256 ≡ k.flags_17 = omega (arith, small) in
            rw (← f) (record {
              key = injected k;
              one = inject-send_keystrokes sock dest k rest;
              modifiers = rw byte bits;
            })
      ]

  plain_key-Harmless : (wch : ℕ) (w : W) → Harmless rest (plain_key wget_wch sock dest wch w)
  unfolding plain_key
  plain_key-Harmless wch w = elim (Option-cases (send_key_from_wch wget_wch sock dest wch 0)) [
    | inl e ↦ rw (plain_key, e) tt
    | inr (packet, e) ↦
        rw (plain_key, e) (send_key_from_wch-InjectsOne wch 0 packet (inl refl) e, refl)
  ]

  after_escape-Harmless : (wch : ℕ) (w : W) → Harmless rest (after_escape wget_wch sock dest wch w)
  unfolding after_escape
  after_escape-Harmless wch w =
      let (status, alt, w') = wget_wch w in
      elim (Option-cases (send_key_from_wch wget_wch sock dest alt ks_alt)) [
        | inl e ↦ rw (after_escape, e) (plain_key-Harmless wch w')
        | inr (packet, e) ↦
            rw (after_escape, e)
              (if_intro (Harmless rest) (is_key status && not (is_exit_wch_code alt))
                (send_key_from_wch-InjectsOne alt ks_alt packet (inr refl) e, refl)
                (plain_key-Harmless wch w'))
      ]

  read_key-Harmless :
      (status : WgetStatus) (wch : ℕ) (w : W)
      → Harmless rest (read_key wget_wch sock dest status wch w)
  unfolding read_key
  read_key-Harmless ok wch w = if_intro (Harmless rest) (is_exit_wch_code wch) tt (
      if_intro (Harmless rest) (wch == 0x1b) (after_escape-Harmless wch w)
        (plain_key-Harmless wch w))
  read_key-Harmless key_code_yes wch w =
      if_intro (Harmless rest) (is_exit_wch_code wch) tt (plain_key-Harmless wch w)
  read_key-Harmless err wch w = tt
  read_key-Harmless other wch w = tt

  -- Whatever key is pressed, and whatever the terminal reports, the client sends at most one
  -- frame and none when the session ends with it; for a frame the server injects exactly one key,
  -- and the flags of that key are among Shift, Control and Alt.
  pub process_stdin_session_mode-Harmless :
      (w : W) → Harmless rest (process_stdin_session_mode wget_wch sock dest w)
  unfolding process_stdin_session_mode
  process_stdin_session_mode-Harmless w =
      let (status, wch, w') = wget_wch w in read_key-Harmless status wch w'
