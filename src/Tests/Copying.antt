-- ===== src/Tests/Copying.antt =====
-- A file is copied.
use rmtdos_utils.Prelude.{
  ℕ, ◌≡◌, refl, arith, List, [], ◌∷◌, ◌++◌, true, some, length, pos, min, take, drop,
}
use rmtdos_utils.FileTransfer.State.{FileTransferState, file_transfer_init}
use rmtdos_utils.FileTransfer.Dos.{
  Int21, open_file, create, read, write, dos_open_read_file, dos_create_file,
}
use rmtdos_utils.FileTransfer.Copy.{dos_copy_file}
use rmtdos_utils.FileTransfer.Copy.Total.{Serves, dos_copy_file_copies}
use rmtdos_utils.Tests.{accepts}

-- What is left to read of the source, handle 5, and the content of the target, handle 6.
abbrev Disk : Type 0
Disk = List ℕ × List ℕ

abbrev disk : Int21 Disk
disk (rest, content) (open_file mode path) = ((rest, content), accepts 5 [])
disk (rest, content) (create attributes path) = ((rest, []), accepts 6 [])
disk (rest, content) (read handle count) =
    ((drop count rest, content), accepts (min count (length rest)) (take count rest))
disk (rest, content) (write handle count bytes) = ((rest, content ++ bytes), accepts count [])
disk w _ = (w, accepts 0 [])

abbrev rest_of : Disk → List ℕ
rest_of (rest, content) = rest

abbrev content_of : Disk → List ℕ
content_of (rest, content) = content

disk-Serves : Serves disk 5 6 rest_of content_of
disk-Serves = record {
  reads = λ w n. refl;
  counts = λ w n. refl;
  gives = λ w n. refl;
  moves = λ w n. refl;
  read_only = λ w n. refl;
  writes = λ w n bytes. refl;
  writes_all = λ w n bytes. refl;
  appends = λ w n bytes. refl;
  closes = λ w handle. refl;
  apart = λ w n bytes. refl;
}

abbrev source_bytes : List ℕ
source_bytes = 1 ∷ 2 ∷ 3 ∷ []

abbrev start : Disk
start = (source_bytes, 9 ∷ [])

dos_copy_file_copies_example :
    (s' : FileTransferState) × (w' : Disk) × (dos_copy_file disk 4
        (65 ∷ 0 ∷ [])
        (66 ∷ 0 ∷ [])
        file_transfer_init
        start
      ≡ some (true, 3, s', w'))
    × (content_of w' ≡ source_bytes)
unfolding dos_open_read_file dos_create_file file_transfer_init
dos_copy_file_copies_example =
    dos_copy_file_copies disk (pos 5) (pos 6) rest_of content_of disk-Serves 4 (65 ∷ 0 ∷ [])
      (66 ∷ 0 ∷ []) source_bytes file_transfer_init start refl refl refl refl refl refl refl
      (omega arith)
