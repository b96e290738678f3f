-- ===== src/Client/Screen/Mirror.antt =====
-- What the server sends of a graphics screen is what the client shows.
use rmtdos_utils.Prelude.{
  ℕ, zero, suc, ◌+◌, ◌*◌, ◌/◌, ◌%◌, ◌^◌, ◌<◌, ◌≤◌, ◌≡◌, ◌≢◌, refl, sym, ap, ◌∙◌, true, false, some,
  List, [], ◌∷◌, arith, length, take, drop, be16_roundtrip, be32_roundtrip, ◌==◌, ◌&&◌, ==_refl,
}
use rmtdos_utils.Wire.{frame}
use rmtdos_utils.Wire.PktType
use rmtdos_utils.FileTransfer.Send.{Net}
use rmtdos_utils.Session.{Session, is_unused}
use rmtdos_utils.Session.Video.{
  Screen, Cursor, send_cga_graphics, cga_start, cga_count, cga_payload, send_all,
  cga_graphics_frame_bytes, video_word,
}
use rmtdos_utils.Session.Video.Progress.{
  Shows, cga_count_even, cga_count_last, cga_count_full, cga_start_behind,
}
use rmtdos_utils.Client.{RawSocket}
use rmtdos_utils.Client.Hosts.{host_at, hostlist_find_by_mac, cga_graphics_bytes}
use rmtdos_utils.Client.Hosts.Slots.{mac_eq_self}
use rmtdos_utils.Client.Screen.{Ui, process_pkt, process_socket_io, is_ours}
use rmtdos_utils.Client.Screen.Pieces.{ShowsUpTo, ShowsUpTo-eq, next-ShowsUpTo}

-- The first frame of an update is the one for the first session.
unfoldable pub receive_first : RawSocket → ℕ → List (List ℕ) → Ui → Ui
receive_first sock now [] ui = ui
receive_first sock now (f ∷ fs) ui = process_socket_io sock now (some f) ui

-- `n` updates of the server, whose frames the client of the first session receives.
unfoldable pub mirror : ℕ → Net → Screen → List Session → Cursor → RawSocket → ℕ → Ui → Ui
unfolding receive_first
mirror zero net screen sessions c sock now ui = ui
mirror (suc n) net screen sessions c sock now ui =
    let (c1, frames) = send_cga_graphics net screen sessions c in
    mirror n net screen sessions c1 sock now (receive_first sock now frames ui)

cga_count_inside : (o : ℕ) → o < cga_graphics_frame_bytes → o + cga_count o ≤ cga_graphics_bytes
unfolding cga_count
cga_count_inside o h = ground arith

module _ (net : Net) (screen : Screen) (s : Session) (rest : List Session) (mem : List ℕ)
    (used : is_unused s ≡ false) (shows : Shows mem screen) (long : cga_graphics_bytes ≤ length mem)
    (sock : RawSocket) (ours : sock.if_addr ≡ s.mac_addr) (id : sock.session_id ≡ s.session_id)
    (small : s.session_id < 2 ^ 32) (now : ℕ) (i : ℕ) where
  -- A graphics frame to the session.
  abbrev piece_frame : ℕ → ℕ → List ℕ
  piece_frame o k =
      frame s.mac_addr net.mac_addr net.ethertype s.session_id (10 + k) PktType.cga_graphics
        (cga_payload screen o k)

  is_ours-piece_frame : (o k : ℕ) → is_ours sock (piece_frame o k) ≡ true
  unfolding is_ours frame
  is_ours-piece_frame o k =
      rw (is_ours, ours, id, be32_roundtrip s.session_id small, mac_eq_self, ==_refl) refl

  drop-piece_frame : (o k : ℕ) → k % 2 ≡ 0 → drop 36 (piece_frame o k) ≡ take k (drop o mem)
  unfolding frame cga_payload
  drop-piece_frame o k even = shows o (k / video_word) ∙ ap (λ m. take m (drop o mem)) (omega arith)

  -- The client receives a piece.
  piece-ShowsUpTo :
      (o k : ℕ) (ui : Ui)
      → ShowsUpTo o mem net.mac_addr i ui
      → k % 2 ≡ 0
      → o + k ≤ cga_graphics_bytes
      → ShowsUpTo
          (o + k)
          mem
          net.mac_addr
          i
          (process_socket_io sock now (some (piece_frame o k)) ui)
  unfolding process_socket_io process_pkt frame cga_payload
  piece-ShowsUpTo o k ui shown even fits = rw (is_ours-piece_frame o k) (
      next-ShowsUpTo now net.mac_addr i mem ui o k (piece_frame o k) shown refl
        (be16_roundtrip o (omega arith)) (be16_roundtrip k (omega arith))
        (drop-piece_frame o k even) fits long)

  -- An update from offset `o` on, unless the frame buffer has not changed.
  update-ShowsUpTo :
      (c : Cursor) (o : ℕ) (ui : Ui)
      → cga_start c ≡ o
      → ((o == 0) && (screen.checksum 0 8000 == c.cga_graphics_chksum)) ≡ false
      → o < cga_graphics_frame_bytes
      → o % 2 ≡ 0
      → ShowsUpTo o mem net.mac_addr i ui
      → ((send_cga_graphics net screen (s ∷ rest) c).0.cga_next_offset ≡ o + cga_count o)
        × ShowsUpTo
            (o + cga_count o)
            mem
            net.mac_addr
            i
            (receive_first sock now (send_cga_graphics net screen (s ∷ rest) c).1 ui)
  unfolding send_cga_graphics send_all receive_first
  update-ShowsUpTo c o ui e sends inside even shown =
      let next =
        piece-ShowsUpTo o (cga_count o) ui shown (cga_count_even o inside even)
          (cga_count_inside o inside) in
      rw (send_cga_graphics, e, sends, used) (refl, next)

  -- The rest of a sweep, in `n` pieces.
  rest-ShowsUpTo :
      (n : ℕ) (c : Cursor) (ui : Ui)
      → 0 < c.cga_next_offset
      → c.cga_next_offset + 1478 * n < cga_graphics_frame_bytes
      → cga_graphics_frame_bytes ≤ c.cga_next_offset + 1478 * suc n
      → c.cga_next_offset % 2 ≡ 0
      → ShowsUpTo c.cga_next_offset mem net.mac_addr i ui
      → ShowsUpTo cga_graphics_frame_bytes mem net.mac_addr i
          (mirror (suc n) net screen (s ∷ rest) c sock now ui)
  unfolding mirror
  rest-ShowsUpTo zero c ui h k last even shown =
      let o = c.cga_next_offset in
      let (_, next) =
        update-ShowsUpTo c o ui (cga_start_behind c (omega arith)) (ground arith) (omega arith) even
          shown in
      ShowsUpTo-eq (omega (arith, cga_count_last o (omega arith))) next
  rest-ShowsUpTo (suc n) c ui h k last even shown =
      let o = c.cga_next_offset in
      let (goes, next) =
        update-ShowsUpTo c o ui (cga_start_behind c (omega arith)) (ground arith) (omega arith) even
          shown in
      let c1 = (send_cga_graphics net screen (s ∷ rest) c).0 in
      let at : c1.cga_next_offset ≡ o + 1478 =
        goes ∙ ap (λ m. o + m) (cga_count_full o (omega arith)) in
      rest-ShowsUpTo n c1 _ (omega (arith, at)) (omega (arith, at)) (omega (arith, at))
        (omega (arith, at)) (ShowsUpTo-eq (sym goes) next)

  -- When the checksum of the graphics screen is not the one of the last sweep, the client's copy
  -- of the screen is the server's after the next eleven updates. The client has the first session
  -- of the table, it has listed the server, it receives its frames, a sweep is about to begin,
  -- and the screen does not change during the sweep.
  pub mirror-ShowsUpTo :
      (c : Cursor) (ui : Ui)
      → c.cga_next_offset ≡ 0
      → screen.checksum 0 8000 ≢ c.cga_graphics_chksum
      → hostlist_find_by_mac net.mac_addr ui.hosts ≡ some i
      → length (host_at ui.hosts i).cga_graphics_buffer ≡ cga_graphics_bytes
      → ShowsUpTo cga_graphics_frame_bytes mem net.mac_addr i
          (mirror 11 net screen (s ∷ rest) c sock now ui)
  unfolding mirror
  mirror-ShowsUpTo c ui h changed known size =
      let (goes, next) =
        update-ShowsUpTo c 0 ui (cga_start_behind c (omega arith) ∙ h) (ground arith) (omega arith)
          refl (record { known = known; sized = size; agrees = refl }) in
      let c1 = (send_cga_graphics net screen (s ∷ rest) c).0 in
      let at : c1.cga_next_offset ≡ 1478 = omega (arith, goes, cga_count_full 0 (omega arith)) in
      rest-ShowsUpTo 9 c1 _ (omega (arith, at)) (omega (arith, at)) (omega (arith, at))
        (omega (arith, at)) (ShowsUpTo-eq (sym goes) next)
