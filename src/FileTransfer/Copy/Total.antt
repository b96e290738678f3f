-- ===== src/FileTransfer/Copy/Total.antt =====
-- `dos_copy_file` over a DOS that serves the source and has room for the target: it ends, and the
-- target holds the source.
use mathlib.Core.List.{append_assoc, append-nil}
use rmtdos_utils.Prelude.{
  ℕ, zero, suc, ◌+◌, ◌-◌, ◌^◌, ◌≤◌, ◌<◌, ◌≡◌, refl, true, false, some, List, [], ◌∷◌, ◌++◌, arith,
  length, take, drop, min, ap, ◌∙◌, u32, u16_of_int, int_of_u16, ℤ, is_neg, length-take,
  length-drop, take-append-drop, take-overlay_of_length, length-overlay, Bool-cases, inl, inr, ◌==◌,
}
use rmtdos_utils.FileTransfer.State.{FileTransferState, file_transfer_chunk_bytes}
use rmtdos_utils.FileTransfer.Dos.{
  Int21, read, write, close, dos_read_file, dos_write_file, dos_open_read_file, dos_create_file,
  dos_close_file,
}
use rmtdos_utils.FileTransfer.Copy.{copy_loop, dos_copy_file}

-- What DOS promises of a source that is read to its end through `from`, with `rest` still to
-- come, and of a target that is written through `to`, on a disk with room for it.
pub record Serves {W : Type 0} (int21 : Int21 W) (from to : ℕ) (rest content : W → List ℕ)
    : Type 0 where
  pub reads : (w : W) (n : ℕ) → (int21 w (read from n)).1.carry ≡ false
  pub counts : (w : W) (n : ℕ) → (int21 w (read from n)).1.ax ≡ min n (length (rest w))
  pub gives : (w : W) (n : ℕ) → (int21 w (read from n)).1.stored ≡ take n (rest w)
  pub moves : (w : W) (n : ℕ) → rest (int21 w (read from n)).0 ≡ drop n (rest w)
  pub read_only : (w : W) (n : ℕ) → content (int21 w (read from n)).0 ≡ content w
  pub writes : (w : W) (n : ℕ) (bytes : List ℕ) → (int21 w (write to n bytes)).1.carry ≡ false
  pub writes_all : (w : W) (n : ℕ) (bytes : List ℕ) → (int21 w (write to n bytes)).1.ax ≡ n
  pub appends :
      (w : W) (n : ℕ) (bytes : List ℕ) → content (int21 w (write to n bytes)).0 ≡ content w ++ bytes
  pub closes : (w : W) (handle : ℕ) → content (int21 w (close handle)).0 ≡ content w
  pub apart : (w : W) (n : ℕ) (bytes : List ℕ) → rest (int21 w (write to n bytes)).0 ≡ rest w

count_of_small :
    (m : ℕ) → m ≤ 512 → (u16_of_int (int_of_u16 m) ≡ m) × (is_neg (int_of_u16 m) ≡ false)
count_of_small m h = ground arith

eq-nil_of_length : (xs : List ℕ) → length xs ≡ 0 → xs ≡ []
eq-nil_of_length [] h = refl
eq-nil_of_length (x ∷ xs) h = absurd (omega arith)

module _ {W : Type 0} (int21 : Int21 W) (i o : ℤ) (rest content : W → List ℕ)
    (dos : Serves int21 (u16_of_int i) (u16_of_int o) rest content) where
  -- One round at a source that has more.
  module _ (chunk : List ℕ) (sized : length chunk ≡ file_transfer_chunk_bytes) (w : W) where
    abbrev n : ℕ
    n = min 512 (length (rest w))

    read_round :
        ((dos_read_file int21 i chunk 512 w).0 ≡ int_of_u16 n)
        × (take n (dos_read_file int21 i chunk 512 w).1 ≡ take 512 (rest w))
        × (length (dos_read_file int21 i chunk 512 w).1 ≡ length chunk)
        × (rest (dos_read_file int21 i chunk 512 w).2 ≡ drop 512 (rest w))
        × (content (dos_read_file int21 i chunk 512 w).2 ≡ content w)
    unfolding dos_read_file
    read_round =
        let size = length-take 512 (rest w) in
        ground (
          arith,
          dos.reads w 512,
          dos.counts w 512,
          dos.gives w 512,
          dos.moves w 512,
          dos.read_only w 512,
          length-overlay (take 512 (rest w)) chunk,
          take-overlay_of_length n (take 512 (rest w)) chunk (omega (arith, size)) (omega arith),
        )

    abbrev after_read : List ℕ × W
    after_read = ((dos_read_file int21 i chunk 512 w).1, (dos_read_file int21 i chunk 512 w).2)

    abbrev after_write : W
    after_write = (dos_write_file int21 o after_read.0 n after_read.1).1

    count_round :
        (u16_of_int (dos_read_file int21 i chunk 512 w).0 ≡ n)
        × (is_neg (dos_read_file int21 i chunk 512 w).0 ≡ false)
    count_round = rw (read_round.0) (count_of_small n (omega arith))

    -- The bytes that were read are written behind the others.
    write_round :
        ((dos_write_file int21 o after_read.0 n after_read.1).0 ≡ true)
        × (content after_write ≡ content w ++ take 512 (rest w))
        × (rest after_write ≡ drop 512 (rest w))
    unfolding dos_write_file
    write_round =
        let bytes = take n after_read.0 in
        ground (
          arith,
          read_round,
          dos.writes after_read.1 n bytes,
          dos.writes_all after_read.1 n bytes,
          dos.appends after_read.1 n bytes,
          dos.apart after_read.1 n bytes,
        )

    -- A round that reads nothing ends the loop.
    loop_ends :
        (fuel copied : ℕ)
        → length (rest w) ≡ 0
        → copy_loop int21 (suc fuel) i o copied chunk w
          ≡ some (true, copied, after_read.0, after_read.1)
    unfolding copy_loop
    loop_ends fuel copied empty =
        let nothing : n ≡ 0 = omega arith in rw (count_round.1, count_round.0, nothing)

    loop_continues :
        (fuel copied : ℕ)
        → 0 < length (rest w)
        → copy_loop int21 (suc fuel) i o copied chunk w
          ≡ copy_loop int21 fuel i o (u32 (copied + n)) after_read.0 after_write
    unfolding copy_loop
    loop_continues fuel copied more =
        let some_bytes : (n == 0) ≡ false = ground arith in
        rw (count_round.1, count_round.0, some_bytes, write_round.0)

  -- The loop's outcome, when the source is served to its end.
  record Copied (fuel copied : ℕ) (chunk : List ℕ) (w : W) : Type 0 where
    chunk' : List ℕ
    w' : W
    returns :
        copy_loop int21 fuel i o copied chunk w
        ≡ some (true, u32 (copied + length (rest w)), chunk', w')
    copied_all : content w' ≡ content w ++ rest w

  copy_loop-Copied :
      (fuel copied : ℕ) (chunk : List ℕ) (w : W)
      → length chunk ≡ file_transfer_chunk_bytes
      → length (rest w) < fuel
      → copied < 2 ^ 32
      → Copied fuel copied chunk w
  copy_loop-Copied zero copied chunk w sized enough small = absurd (omega arith)
  copy_loop-Copied (suc fuel) copied chunk w sized enough small =
      let k = n chunk sized w in
      let (_, _, kept, _, same) = read_round chunk sized w in
      let (_, written, left) = write_round chunk sized w in
      elim (Bool-cases (length (rest w) == 0)) [
        | inl empty ↦
            let none_left : length (rest w) ≡ 0 = ground arith in
            record {
              chunk' = (after_read chunk sized w).0;
              w' = (after_read chunk sized w).1;
              returns =
                  loop_ends chunk sized w fuel copied none_left
                  ∙ ap
                      (λ (c : ℕ).
                        some (true, c, (after_read chunk sized w).0, (after_read chunk sized w).1))
                      (omega arith);
              copied_all = rw (same, eq-nil_of_length (rest w) none_left, append-nil);
            }
        | inr some_left ↦
            let more : 0 < length (rest w) = ground arith in
            let shorter : length (rest (after_write chunk sized w)) ≡ length (rest w) - 512 =
              ap length left ∙ length-drop 512 (rest w) in
            let c =
              copy_loop-Copied fuel (u32 (copied + k)) (after_read chunk sized w).0
                (after_write chunk sized w) (kept ∙ sized) (omega arith) (omega arith) in
            record {
              chunk' = c.chunk';
              w' = c.w';
              returns =
                  loop_continues chunk sized w fuel copied more
                  ∙ (c.returns ∙ ap (λ (t : ℕ). some (true, t, c.chunk', c.w')) (omega arith));
              copied_all =
                  c.copied_all ∙ rw (written, left, append_assoc, take-append-drop 512 (rest w));
            }
      ]

  content-close : (handle : ℤ) (w : W) → content (dos_close_file int21 handle w) ≡ content w
  unfolding dos_close_file
  content-close handle w = ground (arith, dos.closes w (u16_of_int handle))

  -- A copy of an opened source to a created, empty target ends, reports success and the source's
  -- length (modulo 2 ^ 32), and leaves in the target exactly the bytes of the source. DOS serves
  -- every read and has room for every write, and the fuel is larger than the source.
  pub dos_copy_file_copies :
      (fuel : ℕ) (source target bytes : List ℕ) (s : FileTransferState) (w : W) {w1 w2 : W}
      → length s.chunk ≡ file_transfer_chunk_bytes
      → dos_open_read_file int21 source w ≡ (i, w1)
      → dos_create_file int21 target w1 ≡ (o, w2)
      → is_neg i ≡ false
      → is_neg o ≡ false
      → content w2 ≡ []
      → rest w2 ≡ bytes
      → length bytes < fuel
      → (s' : FileTransferState) × (w' : W) × (dos_copy_file int21 fuel source target s w
          ≡ some (true, u32 (length bytes), s', w'))
        × (content w' ≡ bytes)
  unfolding dos_copy_file
  dos_copy_file_copies fuel source target bytes s w {w1} {w2} sized ei eo gi go empty full enough =
      let total : length (rest w2) ≡ length bytes = ap length full in
      let c = copy_loop-Copied fuel 0 s.chunk w2 sized (omega arith) (omega arith) in
      (
        record s { chunk = c.chunk' },
        dos_close_file int21 i (dos_close_file int21 o c.w'),
        rw (ei, eo, gi, go, c.returns, ei, eo)
            (ap
              (λ (t : ℕ). some (
                true,
                t,
                record s { chunk = c.chunk' },
                dos_close_file int21 i (dos_close_file int21 o c.w'),
              ))
              (omega arith)),
        content-close i (dos_close_file int21 o c.w')
            ∙ (content-close o c.w' ∙ (c.copied_all ∙ rw (empty, full))),
      )
