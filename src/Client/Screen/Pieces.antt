-- ===== src/Client/Screen/Pieces.antt =====
-- A piece of a graphics screen that the client copies.
use rmtdos_utils.Prelude.{
  ℕ, zero, suc, ◌+◌, ◌≤◌, ◌≡◌, refl, sym, ap, ap₂, subst, ◌∙◌, false, Bool, Option, none, some,
  List, [], ◌∷◌, ◌++◌, arith, length, get_or, set, take, drop, take-add, length-take, length-drop,
  length-append, get_be16, get_or-set_self, ltb, if◌then◌else◌,
}
use rmtdos_utils.Wire.{Mac, mac_eq, get_mac}
use rmtdos_utils.Client.Hosts.{
  RemoteHost, HostList, host_at, has_addr, first_slot, hostlist_find_by_mac, cga_graphics_bytes,
}
use rmtdos_utils.Client.Hosts.Slots.{find_by_mac-some, has_addr-host_of}
use rmtdos_utils.Client.Screen.Bounds.{length-copy_to}
use rmtdos_utils.Client.Screen.{
  Ui, bytes_read, copy_to, heard, show_graphics, process_incoming_cga_graphics,
}

-- A write that leaves the test's answer leaves what the loop finds.
first_slot-set :
    (test : Option RemoteHost → Bool) (k i : ℕ) (hosts : HostList) (slot : Option RemoteHost)
    → test slot ≡ test (get_or hosts i none)
    → first_slot test k (set hosts i slot) ≡ first_slot test k hosts
unfolding first_slot
first_slot-set test k i [] slot e = refl
first_slot-set test k zero (x ∷ xs) slot e =
    ap (λ b. if b then some k else first_slot test (k + 1) xs) e
first_slot-set test k (suc i) (x ∷ xs) slot e =
    ap (λ r. if test x then some k else r) (first_slot-set test (k + 1) i xs slot e)

bytes_read_all : (n : ℕ) (xs : List ℕ) → length xs ≡ n → bytes_read n xs ≡ xs
unfolding bytes_read
bytes_read_all zero [] h = refl
bytes_read_all zero (x ∷ xs) h = absurd (omega arith)
bytes_read_all (suc n) [] h = absurd (omega arith)
bytes_read_all (suc n) (x ∷ xs) h = ap (λ r. x ∷ r) (bytes_read_all n xs (omega arith))

take_front : (k : ℕ) (xs ys : List ℕ) → length xs ≡ k → take k (xs ++ ys) ≡ xs
take_front zero [] ys h = refl
take_front zero (x ∷ xs) ys h = absurd (omega arith)
take_front (suc k) [] ys h = absurd (omega arith)
take_front (suc k) (x ∷ xs) ys h = ap (λ r. x ∷ r) (take_front k xs ys (omega arith))

append_assoc : (xs ys zs : List ℕ) → xs ++ (ys ++ zs) ≡ (xs ++ ys) ++ zs
append_assoc [] ys zs = refl
append_assoc (x ∷ xs) ys zs = ap (λ r. x ∷ r) (append_assoc xs ys zs)

-- If an array agrees with the memory up to `o`, it does up to `o + k` after the next piece is copied.
copy_to-agrees :
    (array mem piece : List ℕ) (o k : ℕ)
    → take o array ≡ take o mem
    → piece ≡ take k (drop o mem)
    → o + k ≤ length mem
    → take (o + k) (copy_to array o piece k) ≡ take (o + k) mem
unfolding copy_to
copy_to-agrees array mem piece o k agrees e h =
    let size : length (take k (drop o mem)) ≡ k =
      omega (arith, length-take k (drop o mem), length-drop o mem) in
    let front : length (take o mem ++ take k (drop o mem)) ≡ o + k =
      omega (arith, size, length-append (take o mem) (take k (drop o mem)), length-take o mem) in
    rw (agrees, e, bytes_read_all k (take k (drop o mem)) size, append_assoc)
      (take_front (o + k) (take o mem ++ take k (drop o mem)) (drop (o + k) array) front
        ∙ sym (take-add o k mem))

-- The client of session `s` shows the memory up to `o` for the server `mac` at slot `i`.
pub record ShowsUpTo (o : ℕ) (mem : List ℕ) (mac : Mac) (i : ℕ) (ui : Ui) : Type 0 where
  pub known : hostlist_find_by_mac mac ui.hosts ≡ some i
  pub sized : length (host_at ui.hosts i).cga_graphics_buffer ≡ cga_graphics_bytes
  pub agrees : take o (host_at ui.hosts i).cga_graphics_buffer ≡ take o mem

-- The server's host put back with an array that agrees up to `n`.
set-ShowsUpTo :
    (o n : ℕ) (mem : List ℕ) (mac : Mac) (i : ℕ) (ui : Ui) (rh : RemoteHost)
    → ShowsUpTo o mem mac i ui
    → rh.if_addr ≡ (host_at ui.hosts i).if_addr
    → length rh.cga_graphics_buffer ≡ cga_graphics_bytes
    → take n rh.cga_graphics_buffer ≡ take n mem
    → ShowsUpTo n mem mac i (record ui { hosts = set (ui.hosts) i (some rh) })
unfolding hostlist_find_by_mac has_addr
set-ShowsUpTo o n mem mac i ui rh shown addr size agrees =
    let (inside, hit) = find_by_mac-some mac i ui.hosts shown.known in
    let (there, _) = has_addr-host_of mac (get_or ui.hosts i none) hit in
    let same : has_addr mac (some rh) ≡ has_addr mac (get_or ui.hosts i none) =
      ap (λ m. mac_eq m mac) addr ∙ sym (ap (has_addr mac) there) in
    let put : get_or (set ui.hosts i (some rh)) i none ≡ some rh =
      get_or-set_self ui.hosts i (some rh) none inside in
    record {
      known = first_slot-set (has_addr mac) 0 i ui.hosts (some rh) same ∙ shown.known;
      sized = rw put size;
      agrees = rw put agrees;
    }

pub ShowsUpTo-eq :
    {m n : ℕ} {mem : List ℕ} {mac : Mac} {i : ℕ} {ui : Ui}
    → m ≡ n
    → ShowsUpTo m mem mac i ui
    → ShowsUpTo n mem mac i ui
ShowsUpTo-eq {mem = mem} {mac = mac} {i = i} {ui = ui} e shown =
    subst (λ m. ShowsUpTo m mem mac i ui) e shown

module _ (now : ℕ) (mac : Mac) (i : ℕ) (mem : List ℕ) (ui : Ui) (o k : ℕ) (buf : List ℕ)
    (shown : ShowsUpTo o mem mac i ui) (from : get_mac buf 6 ≡ mac) (at : get_be16 buf 32 ≡ o)
    (count : get_be16 buf 34 ≡ k) (piece : drop 36 buf ≡ take k (drop o mem))
    (fits : o + k ≤ cga_graphics_bytes) (long : cga_graphics_bytes ≤ length mem) where
  process_incoming_cga_graphics-shows :
      process_incoming_cga_graphics now buf ui.hosts
      ≡ set ui.hosts i (some (show_graphics buf (heard now (host_at ui.hosts i))))
  unfolding process_incoming_cga_graphics
  process_incoming_cga_graphics-shows =
      let found : hostlist_find_by_mac (get_mac buf 6) ui.hosts ≡ some i = rw from (shown.known) in
      let inside : ltb cga_graphics_bytes (get_be16 buf 34 + get_be16 buf 32) ≡ false =
        ground (arith, at, count, fits) in
      rw (process_incoming_cga_graphics, found, inside) refl

  -- One more piece.
  pub next-ShowsUpTo :
      ShowsUpTo
        (o + k)
        mem
        mac
        i
        (record ui { hosts = process_incoming_cga_graphics now buf (ui.hosts) })
  unfolding show_graphics
  next-ShowsUpTo =
      let old = (host_at ui.hosts i).cga_graphics_buffer in
      let rh = show_graphics buf (heard now (host_at ui.hosts i)) in
      let copied : rh.cga_graphics_buffer ≡ copy_to old o (drop 36 buf) k =
        ap₂ (λ a b. copy_to old a (drop 36 buf) b) at count in
      rw process_incoming_cga_graphics-shows (
        set-ShowsUpTo o (o + k) mem mac i ui rh shown refl
          (rw copied
            (length-copy_to old (drop 36 buf) o k (omega (arith, shown.sized)) ∙ shown.sized))
          (rw copied (copy_to-agrees old mem (drop 36 buf) o k shown.agrees piece (omega arith))))
