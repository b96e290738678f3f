-- ===== src/Session/Video/Progress.antt =====
-- The graphics frames of one sweep make up the frame buffer.
use rmtdos_utils.Prelude.{
  ℕ, zero, suc, ◌+◌, ◌-◌, ◌*◌, ◌/◌, ◌%◌, ◌<◌, ◌≤◌, ◌≡◌, ◌≢◌, refl, false, List, [], ◌∷◌, ◌++◌,
  arith, take, drop, take-add, drop-drop, ap, ap₂, sym, ◌∙◌, ◌==◌, ◌&&◌,
}
use rmtdos_utils.FileTransfer.Send.{Net}
use rmtdos_utils.Wire.PktType
use rmtdos_utils.Session.{Session, is_unused}
use rmtdos_utils.Session.Video.{
  Screen, Cursor, send_cga_graphics, cga_start, cga_count, cga_payload, send_all,
  cga_graphics_frame_bytes, video_word,
}

-- The bytes of the frame buffer in the first of the frames that an update sends.
abbrev pub cga_bytes : List (List ℕ) → List ℕ
cga_bytes [] = []
cga_bytes (f ∷ fs) = drop 36 f

-- The cursor after `n` updates, and the bytes that the first session was sent.
unfoldable pub cga_sweep : ℕ → Net → Screen → List Session → Cursor → Cursor × List ℕ
cga_sweep zero net screen sessions c = (c, [])
cga_sweep (suc n) net screen sessions c =
    let (c1, frames) = send_cga_graphics net screen sessions c in
    let (c2, later) = cga_sweep n net screen sessions c1 in (c2, cga_bytes frames ++ later)

-- The frame buffer: `copy` reads words of it.
abbrev pub Shows : List ℕ → Screen → Type 0
Shows mem screen =
    (offset words : ℕ) → screen.copy offset words ≡ take (words * video_word) (drop offset mem)

append_nil : (xs : List ℕ) → xs ++ [] ≡ xs
append_nil [] = refl
append_nil (x ∷ xs) = ap (λ r. x ∷ r) (append_nil xs)

split_at :
    (o k : ℕ) (xs : List ℕ)
    → o + k ≤ cga_graphics_frame_bytes
    → take (cga_graphics_frame_bytes - o) (drop o xs)
      ≡ take k (drop o xs) ++ take (cga_graphics_frame_bytes - (o + k)) (drop (o + k) xs)
split_at o k xs h =
    ap (λ m. take m (drop o xs)) {y = k + (cga_graphics_frame_bytes - (o + k))} (omega arith)
    ∙ take-add k (cga_graphics_frame_bytes - (o + k)) (drop o xs)
    ∙ ap (λ r. take k (drop o xs) ++ take (cga_graphics_frame_bytes - (o + k)) r) (drop-drop k o xs)

pub cga_count_even : (o : ℕ) → o < cga_graphics_frame_bytes → o % 2 ≡ 0 → cga_count o % 2 ≡ 0
unfolding cga_count
cga_count_even o h even = ground arith

pub cga_count_last :
    (o : ℕ) → cga_graphics_frame_bytes ≤ o + 1478 → cga_count o ≡ cga_graphics_frame_bytes - o
unfolding cga_count
cga_count_last o h = ground arith

pub cga_count_full : (o : ℕ) → o + 1478 < cga_graphics_frame_bytes → cga_count o ≡ 1478
unfolding cga_count
cga_count_full o h = ground arith

pub cga_start_behind :
    (c : Cursor) → c.cga_next_offset < cga_graphics_frame_bytes → cga_start c ≡ c.cga_next_offset
unfolding cga_start
cga_start_behind c h = ground arith

module _ (net : Net) (screen : Screen) (s : Session) (rest : List Session) (mem : List ℕ)
    (used : is_unused s ≡ false) (shows : Shows mem screen) where
  cga_bytes-send_all :
      (offset count : ℕ)
      → count % 2 ≡ 0
      → (payload_len kind : ℕ)
      → cga_bytes (send_all net payload_len kind (cga_payload screen offset count) (s ∷ rest))
        ≡ take count (drop offset mem)
  unfolding send_all cga_payload rmtdos_utils.Wire.frame
  cga_bytes-send_all offset count even payload_len kind =
      rw used (shows offset (count / video_word) ∙ ap (λ m. take m (drop offset mem)) (omega arith))

  -- What an update sends from offset `o`, unless the frame has not changed.
  cga_piece :
      (c : Cursor) (o : ℕ)
      → cga_start c ≡ o
      → ((o == 0) && (screen.checksum 0 8000 == c.cga_graphics_chksum)) ≡ false
      → o < cga_graphics_frame_bytes
      → o % 2 ≡ 0
      → ((send_cga_graphics net screen (s ∷ rest) c).0.cga_next_offset ≡ o + cga_count o)
        × (cga_bytes (send_cga_graphics net screen (s ∷ rest) c).1
            ≡ take (cga_count o) (drop o mem))
  unfolding send_cga_graphics
  cga_piece c o e sends k even =
      rw (send_cga_graphics, e, sends)
        (
          refl,
          cga_bytes-send_all o (cga_count o) (cga_count_even o k even) (10 + cga_count o)
              PktType.cga_graphics,
        )

  -- The rest of a sweep, in `n` pieces.
  cga_sweep_rest :
      (n : ℕ) (c : Cursor)
      → 0 < c.cga_next_offset
      → c.cga_next_offset + 1478 * n < cga_graphics_frame_bytes
      → cga_graphics_frame_bytes ≤ c.cga_next_offset + 1478 * suc n
      → c.cga_next_offset % 2 ≡ 0
      → ((cga_sweep (suc n) net screen (s ∷ rest) c).0.cga_next_offset ≡ cga_graphics_frame_bytes)
        × ((cga_sweep (suc n) net screen (s ∷ rest) c).1
            ≡ take (cga_graphics_frame_bytes - c.cga_next_offset) (drop c.cga_next_offset mem))
  unfolding cga_sweep
  cga_sweep_rest zero c h k last even =
      let o = c.cga_next_offset in
      let (goes, bytes) =
        cga_piece c o (cga_start_behind c (omega arith)) (ground arith) (omega arith) even in
      let count : cga_count o ≡ cga_graphics_frame_bytes - o = cga_count_last o (omega arith) in
      (omega arith, append_nil _ ∙ bytes ∙ ap (λ m. take m (drop o mem)) count)
  cga_sweep_rest (suc n) c h k last even =
      let o = c.cga_next_offset in
      let (goes, bytes) =
        cga_piece c o (cga_start_behind c (omega arith)) (ground arith) (omega arith) even in
      let c1 = (send_cga_graphics net screen (s ∷ rest) c).0 in
      let at : c1.cga_next_offset ≡ o + 1478 =
        goes ∙ ap (λ m. o + m) (cga_count_full o (omega arith)) in
      let (end, later) =
        cga_sweep_rest n c1 (omega (arith, at)) (omega (arith, at)) (omega (arith, at))
          (omega (arith, at)) in
      (
        end,
        ap₂ (λ a b. a ++ b) (bytes ∙ ap (λ m. take m (drop o mem)) (cga_count_full o (omega arith)))
              (later ∙ ap (λ m. take (cga_graphics_frame_bytes - m) (drop m mem)) at)
            ∙ sym (split_at o 1478 mem (omega arith)),
      )

  -- When the checksum of the frame buffer is not the one of the last sweep, the next eleven
  -- updates send a client the whole of it, each byte once and in order. The client's session is
  -- the first of the table and in use, a sweep is about to begin, and the frame buffer does not
  -- change during the sweep.
  pub cga_sweep_complete :
      (c : Cursor)
      → c.cga_next_offset ≡ 0
      → screen.checksum 0 8000 ≢ c.cga_graphics_chksum
      → ((cga_sweep 11 net screen (s ∷ rest) c).0.cga_next_offset ≡ cga_graphics_frame_bytes)
        × ((cga_sweep 11 net screen (s ∷ rest) c).1 ≡ take cga_graphics_frame_bytes mem)
  unfolding cga_sweep cga_count
  cga_sweep_complete c h changed =
      let (goes, bytes) =
        cga_piece c 0 (cga_start_behind c (omega arith) ∙ h) (ground arith) (omega arith) refl in
      let c1 = (send_cga_graphics net screen (s ∷ rest) c).0 in
      let at : c1.cga_next_offset ≡ 1478 = goes ∙ cga_count_full 0 (omega arith) in
      let (end, later) =
        cga_sweep_rest 9 c1 (omega (arith, at)) (omega (arith, at)) (omega (arith, at))
          (omega (arith, at)) in
      (
        end,
        ap₂ (λ a b. a ++ b) (bytes ∙ ap (λ m. take m mem) (cga_count_full 0 (omega arith)))
              (later ∙ ap (λ m. take (cga_graphics_frame_bytes - m) (drop m mem)) at)
            ∙ sym (split_at 0 1478 mem (omega arith)),
      )
