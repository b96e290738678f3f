-- ===== src/FileTransfer/Dos.antt =====
-- The `dos_*` wrappers of server/file_transfer.c over `x86_call(0x21, &regs)`.
--
-- Interrupt 21h is DOS itself: a parameter. It is given the call that the registers spell, with
-- the bytes that DS:DX or ES:DI point at, and answers with the carry flag, with the registers
-- that the wrappers read, and with the bytes that it stored in the program's buffer.
use rmtdos_utils.Prelude.{
  ℕ, ◌+◌, ◌-◌, ◌*◌, ◌/◌, ◌%◌, ◌^◌, Bool, true, false, List, ◌==◌, if◌then◌else◌, ℤ, minus_one,
  is_neg, int_of_u16, u16_of_int, take, overlay, byte,
}

-- The DOS functions that the server calls, by the registers that it sets.
pub data DosCall : Type 0 where
  -- AH = 3Ch; CX, DS:DX
  create : ℕ → List ℕ → DosCall
  -- AH = 3Dh; AL, DS:DX
  open_file : ℕ → List ℕ → DosCall
  -- AH = 42h; AL, BX, CX, DX
  seek : ℕ → ℕ → ℕ → ℕ → DosCall
  -- AH = 3Fh; BX, CX
  read : ℕ → ℕ → DosCall
  -- AH = 40h; BX, CX, the CX bytes at DS:DX
  write : ℕ → ℕ → List ℕ → DosCall
  -- AH = 39h, 3Ah, 41h; DS:DX
  mkdir rmdir unlink : List ℕ → DosCall
  -- AH = 56h; DS:DX, ES:DI
  rename : List ℕ → List ℕ → DosCall
  -- AH = 3Eh; BX
  close : ℕ → DosCall
  -- AH = 1Ah with DS:DX at `g_file.dta`; AH = 2Fh; AH = 1Ah; DS, DX
  set_dta get_dta : DosCall
  restore_dta : ℕ → ℕ → DosCall
  -- AH = 4Eh; CX, DS:DX
  find_first : ℕ → List ℕ → DosCall
  -- AH = 4Fh
  find_next : DosCall

pub record DosReply : Type 0 where
  pub carry : Bool
  pub ax : ℕ
  pub bx : ℕ
  pub dx : ℕ
  pub es : ℕ
  -- What the call stored at the beginning of the caller's buffer or disk transfer area.
  pub stored : List ℕ

abbrev pub Int21 : Type 0 → Type 0
Int21 W = W → DosCall → W × DosReply

abbrev pub u32_max : ℕ
u32_max = 2 ^ 32 - 1

module _ {W : Type 0} (int21 : Int21 W) where
  unfoldable pub dos_create_file : List ℕ → W → ℤ × W
  dos_create_file filename w =
      let (w', r) = int21 w (create 0 filename) in
      (if r.carry then minus_one else int_of_u16 r.ax, w')

  unfoldable pub dos_open_read_file : List ℕ → W → ℤ × W
  dos_open_read_file filename w =
      let (w', r) = int21 w (open_file 0 filename) in
      (if r.carry then minus_one else int_of_u16 r.ax, w')

  unfoldable pub dos_seek_file : ℤ → ℕ → ℕ → W → ℕ × W
  dos_seek_file handle origin offset w =
      let (w', r) =
        int21 w (seek origin (u16_of_int handle) (offset / 2 ^ 16 % 2 ^ 16) (offset % 2 ^ 16)) in
      (if r.carry then u32_max else r.dx * 2 ^ 16 + r.ax, w')

  -- The buffer is `data[0 .. )`; the count read comes back beside its new contents.
  unfoldable pub dos_read_file : ℤ → List ℕ → ℕ → W → ℤ × List ℕ × W
  dos_read_file handle buffer count w =
      let (w', r) = int21 w (read (u16_of_int handle) count) in
      (if r.carry then minus_one else int_of_u16 r.ax, overlay r.stored buffer, w')

  -- `true` is the C function's 0: all `count` bytes were written.
  unfoldable pub dos_write_file : ℤ → List ℕ → ℕ → W → Bool × W
  dos_write_file handle buffer count w =
      let (w', r) = int21 w (write (u16_of_int handle) count (take count buffer)) in
      (if r.carry then false else r.ax == count, w')

  unfoldable pub dos_mkdir : List ℕ → W → Bool × W
  dos_mkdir path w = let (w', r) = int21 w (mkdir path) in (if r.carry then false else true, w')

  unfoldable pub dos_rmdir : List ℕ → W → Bool × W
  dos_rmdir path w = let (w', r) = int21 w (rmdir path) in (if r.carry then false else true, w')

  unfoldable pub dos_unlink : List ℕ → W → Bool × W
  dos_unlink path w = let (w', r) = int21 w (unlink path) in (if r.carry then false else true, w')

  unfoldable pub dos_rename : List ℕ → List ℕ → W → Bool × W
  dos_rename source target w =
      let (w', r) = int21 w (rename source target) in (if r.carry then false else true, w')

  unfoldable pub dos_close_file : ℤ → W → W
  dos_close_file handle w = if is_neg handle then w else (int21 w (close (u16_of_int handle))).0

  unfoldable pub dos_set_dta : W → W
  dos_set_dta w = (int21 w set_dta).0

  unfoldable pub dos_get_dta : W → ℕ × ℕ × W
  dos_get_dta w = let (w', r) = int21 w get_dta in (r.es, r.bx, w')

  unfoldable pub dos_restore_dta : ℕ → ℕ → W → W
  dos_restore_dta segment offset w = (int21 w (restore_dta segment offset)).0

  -- The search stores its result in `g_file.dta`, the third argument.
  unfoldable pub dos_find_first : List ℕ → List ℕ → W → Bool × List ℕ × W
  dos_find_first pattern dta w =
      let (w', r) = int21 w (find_first 0x37 pattern) in
      (if r.carry then false else true, overlay r.stored dta, w')

  unfoldable pub dos_find_next : List ℕ → W → Bool × List ℕ × W
  dos_find_next dta w =
      let (w', r) = int21 w find_next in (if r.carry then false else true, overlay r.stored dta, w')

unfoldable pub dta_get_u16 : List ℕ → ℕ → ℕ
dta_get_u16 dta offset = byte dta offset + byte dta (offset + 1) * 2 ^ 8

unfoldable pub dta_get_u32 : List ℕ → ℕ → ℕ
dta_get_u32 dta offset =
    byte dta offset
    + byte dta (offset + 1) * 2 ^ 8
    + byte dta (offset + 2) * 2 ^ 16
    + byte dta (offset + 3) * 2 ^ 24
