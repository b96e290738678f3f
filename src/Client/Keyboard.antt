-- ===== src/Client/Keyboard.antt =====
-- The keyboard of the Linux client in session mode, client/keyboard.c: the map from the codes of
-- `wget_wch` to keystrokes, and what a key press sends. The terminal's window is output.
pub mod Ascii
pub mod Control
pub mod Function
pub mod Harmless
pub mod Entry
pub mod Meta
pub mod MetaControl
pub mod Scan
pub mod Special
pub mod Table
pub mod Typing
use Prim.Native.Nat.{bit_and, bit_or}
use rmtdos_utils.Prelude.{
  ℕ, Bool, true, false, not, Option, none, some, List, [], ◌∷◌, ◌&&◌, ◌||◌, ◌==◌, ltb,
  if◌then◌else◌,
}
use rmtdos_utils.Wire.{Mac}
use rmtdos_utils.Protocol.{Keystroke}
use rmtdos_utils.Client.{RawSocket, send_keystrokes}
use rmtdos_utils.Client.Keyboard.Ascii.{ascii_keys}
use rmtdos_utils.Client.Keyboard.Control.{control_keys}
use rmtdos_utils.Client.Keyboard.Function.{function_keys}
use rmtdos_utils.Client.Keyboard.Entry.{Key, unknown, ks_alt}
use rmtdos_utils.Client.Keyboard.Meta.{meta_keys}
use rmtdos_utils.Client.Keyboard.MetaControl.{meta_control_keys}
use rmtdos_utils.Client.Keyboard.Special.{special_keys}

abbrev pub wch_max : ℕ
wch_max = 0x250

-- Of two initialisers of one element the later one counts.
unfoldable pub initialised : ℕ → List (ℕ × Key) → Key → Key
initialised wch [] k = k
initialised wch ((code, k') ∷ keys) k = initialised wch keys (if code == wch then k' else k)

unfoldable pub keymap : ℕ → Key
unfolding initialised control_keys ascii_keys meta_control_keys meta_keys function_keys special_keys
keymap wch =
    if ltb wch 0x20
    then initialised wch control_keys unknown
    else if ltb wch 0x80
    then initialised wch ascii_keys unknown
    else if ltb wch 0xa0
    then initialised wch meta_control_keys unknown
    else if ltb wch 0x100
    then initialised wch meta_keys unknown
    else if ltb wch 0x148
    then initialised wch function_keys unknown
    else initialised wch special_keys unknown

-- `ALT-ESCAPE` and `CTRL-]`
unfoldable pub is_exit_wch_code : ℕ → Bool
is_exit_wch_code wch = (wch == 0x9b) || (wch == 0x1d)

-- The keystroke that `send_key_from_wch` sends; none where it returns -1.
unfoldable pub key_from_wch : ℕ → ℕ → Option Keystroke
unfolding keymap
key_from_wch wch extra_flags =
    let k = keymap wch in
    if ltb 0 wch && (ltb wch wch_max && (not (k.bios == 0) || not (k.ascii == 0)))
    then some (record {
      bios_scan_code = k.bios;
      ascii_value = if bit_and extra_flags ks_alt == 0 then k.ascii else 0;
      flags_17 = bit_or k.flags extra_flags;
    })
    else none

-- What `wget_wch` returns; `other` is any other value, at which the client aborts.
pub data WgetStatus : Type 0 where
  ok key_code_yes err other : WgetStatus

abbrev pub is_key : WgetStatus → Bool
is_key ok = true
is_key key_code_yes = true
is_key _ = false

module _ {W : Type 0} (wget_wch : W → WgetStatus × ℕ × W) (sock : RawSocket) (dest : Mac) where
  -- The value of `g_running` afterwards, the frames and the terminal; none is `abort()`.
  abbrev pub Pressed : Type 0
  Pressed = Option (Bool × List (List ℕ) × W)

  unfoldable pub send_key_from_wch : ℕ → ℕ → Option (List ℕ)
  unfolding key_from_wch
  send_key_from_wch wch extra_flags = elim (key_from_wch wch extra_flags) [
    | none ↦ none
    | some k ↦ some (send_keystrokes sock (some dest) (k ∷ []))
  ]

  -- The end of the function: the key by itself.
  unfoldable pub plain_key : ℕ → W → Pressed
  unfolding send_key_from_wch
  plain_key wch w = elim (send_key_from_wch wch 0) [
    | none ↦ some (true, [], w)
    | some packet ↦ some (true, packet ∷ [], w)
  ]

  -- An escape character: with the next key it may be that key with Alt.
  unfoldable pub after_escape : ℕ → W → Pressed
  unfolding plain_key
  after_escape wch w =
      let (alt_status, alt_wch, w') = wget_wch w in
      elim (send_key_from_wch alt_wch ks_alt) [
        | none ↦ plain_key wch w'
        | some packet ↦
            if is_key alt_status && not (is_exit_wch_code alt_wch)
            then some (true, packet ∷ [], w')
            else plain_key wch w'
      ]

  unfoldable pub read_key : WgetStatus → ℕ → W → Pressed
  unfolding after_escape is_exit_wch_code
  read_key ok wch w =
      if is_exit_wch_code wch
      then some (false, [], w)
      else if wch == 0x1b
      then after_escape wch w
      else plain_key wch w
  read_key key_code_yes wch w =
      if is_exit_wch_code wch then some (false, [], w) else plain_key wch w
  read_key err wch w = some (true, [], w)
  read_key other wch w = none

  unfoldable pub process_stdin_session_mode : W → Pressed
  unfolding read_key
  process_stdin_session_mode w = let (status, wch, w') = wget_wch w in read_key status wch w'
