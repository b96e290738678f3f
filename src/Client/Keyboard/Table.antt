-- ===== src/Client/Keyboard/Table.antt =====
-- What holds of the keys of the map.
use Prim.Native.Nat.{bit_and}
use rmtdos_utils.Prelude.{
  subst, ℕ, zero, suc, ◌<◌, ◌≤◌, ◌≡◌, ◌⊎◌, refl, Bool, true, false, not, some, none, Option, ◌&&◌,
  ◌==◌, ltb, leb, ◌+◌, if◌then◌else◌, arith, ◌≢◌, inl, inr, Bool-cases,
}
use rmtdos_utils.Protocol.{Keystroke}
use rmtdos_utils.Client.Keyboard.{keymap, key_from_wch, wch_max}
use rmtdos_utils.Client.Keyboard.Entry.{ks_alt}

-- A test of `count` codes from `first` on, and what it says of each of them.
module _ (test : ℕ → Bool) where
  passes : ℕ → ℕ → Bool
  passes first zero = true
  passes first (suc count) =
      let others = passes (suc first) count in if test first then others else false

  test_of_passes :
      (first count wch : ℕ)
      → passes first count ≡ true
      → first ≤ wch
      → wch < first + count
      → test wch ≡ true
  unfolding passes
  test_of_passes first zero wch all low high = absurd (omega arith)
  test_of_passes first (suc count) wch all low high = elim (Bool-cases (test first)) [
    | inr fails ↦ absurd (ground arith)
    | inl holds ↦ elim (Bool-cases (first == wch)) [
      | inl same ↦ let e : first ≡ wch = ground arith in rw (← e) holds
      | inr apart ↦ test_of_passes (suc first) count wch (ground arith) (ground arith) (omega arith)
    ]
  ]

-- Checks of the table by evaluation.
prints_key : ℕ → Option Keystroke → Bool
prints_key wch none = false
prints_key wch (some k) =
    (k.ascii_value == wch) && (not (k.bios_scan_code == 0) && leb k.flags_17 1)

prints : ℕ → Bool
unfolding prints_key
prints wch = prints_key wch (key_from_wch wch 0)

prints_table : passes prints 0x20 95 ≡ true
unfolding passes prints key_from_wch
prints_table = refl

alters_key : ℕ → Option Keystroke → Bool
alters_key wch none = false
alters_key wch (some k) =
    (k.ascii_value == 0)
    && ((k.bios_scan_code == (keymap wch).bios)
        && (not (bit_and k.flags_17 ks_alt == 0) && ltb k.flags_17 256))

alters : ℕ → Bool
unfolding alters_key
alters wch = alters_key wch (key_from_wch wch ks_alt)

alters_table : passes alters 0x20 95 ≡ true
unfolding passes alters key_from_wch
alters_table = refl

-- A key with what is known of it.
pub record Found (found : Option Keystroke) (P : Keystroke → Type 0) : Type 0 where
  pub key : Keystroke
  pub found_ok : found ≡ some key
  pub known : P key

abbrev pub Prints : ℕ → Keystroke → Type 0
Prints wch k = (k.ascii_value ≡ wch) × (k.bios_scan_code ≢ 0) × (k.flags_17 ≤ 1)

prints_key-Found :
    (wch : ℕ) (found : Option Keystroke) → prints_key wch found ≡ true → Found found (Prints wch)
unfolding prints_key
prints_key-Found wch none h = absurd (cc)
prints_key-Found wch (some k) h = record {
  key = k;
  found_ok = refl;
  known = (ground arith, ground arith, ground arith);
}

pub printable-Found : (wch : ℕ) → 0x20 ≤ wch → wch < 0x7f → Found (key_from_wch wch 0) (Prints wch)
unfolding prints
printable-Found wch low high =
    let good = test_of_passes prints 0x20 95 wch prints_table low (omega arith) in
    prints_key-Found wch (key_from_wch wch 0) good

abbrev pub Alters : ℕ → Keystroke → Type 0
Alters wch k =
    (k.ascii_value ≡ 0)
    × (k.bios_scan_code ≡ (keymap wch).bios)
    × (bit_and k.flags_17 ks_alt ≢ 0)
    × (k.flags_17 < 256)

alters_key-Found :
    (wch : ℕ) (found : Option Keystroke) → alters_key wch found ≡ true → Found found (Alters wch)
unfolding alters_key
alters_key-Found wch none h = absurd (cc)
alters_key-Found wch (some k) h = record {
  key = k;
  found_ok = refl;
  known = (ground arith, ground arith, ground arith, ground arith);
}

pub alt-Found : (wch : ℕ) → 0x20 ≤ wch → wch < 0x7f → Found (key_from_wch wch ks_alt) (Alters wch)
unfolding alters
alt-Found wch low high =
    let good = test_of_passes alters 0x20 95 wch alters_table low (omega arith) in
    alters_key-Found wch (key_from_wch wch ks_alt) good

-- A code beyond the map sends nothing.
pub key_from_wch-beyond :
    (wch extra_flags : ℕ) → wch_max ≤ wch → key_from_wch wch extra_flags ≡ none
unfolding key_from_wch
key_from_wch-beyond wch extra_flags h = ground arith

abbrev pub IsModifiers : ℕ → Type 0
IsModifiers flags = (bit_and flags 0xf2 ≡ 0) × (flags < 256)

modifiers_key : Option Keystroke → Bool
modifiers_key none = true
modifiers_key (some k) = (bit_and k.flags_17 0xf2 == 0) && ltb k.flags_17 256

modifiers_key-IsModifiers :
    (found : Option Keystroke) (k : Keystroke)
    → modifiers_key found ≡ true
    → found ≡ some k
    → IsModifiers k.flags_17
unfolding modifiers_key
modifiers_key-IsModifiers none k h e = absurd (cc)
modifiers_key-IsModifiers (some j) k h e =
    let flags : j.flags_17 ≡ k.flags_17 = cc in subst IsModifiers flags (ground arith, ground arith)

plain_table : passes (λ w. modifiers_key (key_from_wch w 0)) 0 0x250 ≡ true
unfolding passes modifiers_key key_from_wch
plain_table = refl

alt_table : passes (λ w. modifiers_key (key_from_wch w ks_alt)) 0 0x250 ≡ true
unfolding passes modifiers_key key_from_wch
alt_table = refl

-- The flags of every key that can be sent.
pub key_from_wch-IsModifiers :
    (wch extra_flags : ℕ) (k : Keystroke)
    → (extra_flags ≡ 0) ⊎ (extra_flags ≡ ks_alt)
    → key_from_wch wch extra_flags ≡ some k
    → IsModifiers k.flags_17
key_from_wch-IsModifiers wch extra_flags k extra e = elim (Bool-cases (ltb wch wch_max)) [
  | inr beyond ↦ let nothing = key_from_wch-beyond wch extra_flags (ground arith) in absurd (cc)
  | inl within ↦
      let below : wch < wch_max = ground arith in
      elim extra [
        | inl plain ↦
            modifiers_key-IsModifiers (key_from_wch wch 0) k
              (test_of_passes (λ w. modifiers_key (key_from_wch w 0)) 0 0x250 wch plain_table
                (omega arith) below)
              (rw plain at e)
        | inr alt ↦
            modifiers_key-IsModifiers (key_from_wch wch ks_alt) k
              (test_of_passes (λ w. modifiers_key (key_from_wch w ks_alt)) 0 0x250 wch alt_table
                (omega arith) below)
              (rw alt at e)
      ]
]
