-- ===== src/Tests/Download.antt =====
-- Two bytes from the middle of a file.
use rmtdos_utils.Prelude.{
  ℕ, ◌+◌, ◌*◌, ◌^◌, ◌≡◌, refl, arith, true, false, List, [], ◌∷◌, ◌++◌, pos, length, take, drop,
  be16, be32,
}
use rmtdos_utils.Wire.{frame}
use rmtdos_utils.Wire.PktType
use rmtdos_utils.FileTransfer.State.{FileTransferState, file_transfer_init, mode_get}
use rmtdos_utils.FileTransfer.Dos.{Int21, seek, read}
use rmtdos_utils.FileTransfer.Idle.{idle_get_data_req}
use rmtdos_utils.FileTransfer.Idle.Download.{Readable, idle_get_data_req-piece}
use rmtdos_utils.Tests.{server_net, server_mac, client_mac, accepts}

abbrev file : List ℕ
file = 10 ∷ 20 ∷ 30 ∷ 40 ∷ []

-- The world is the place in the file.
abbrev disk : Int21 ℕ
disk w (seek origin handle high low) = (
  high * 2 ^ 16 + low,
  record { carry = false; ax = low; bx = 0; dx = high; es = 0; stored = [] },
)
disk w (read handle count) =
    let bytes = take count (drop w file) in (w + length bytes, accepts (length bytes) bytes)
disk w _ = (w, accepts 0 [])

disk-Readable : Readable disk 5 (λ w. w) file
disk-Readable = record {
  seeks = λ w high low. refl;
  tells = λ w high low. (refl, refl);
  moves = λ w high low. refl;
  reads = λ w n. refl;
  counts = λ w n. refl;
  gives = λ w n. refl;
}

abbrev asked : FileTransferState
asked = record file_transfer_init {
  active = true;
  mode = mode_get;
  handle = pos 5;
  size = 4;
  transfer_id = 1;
  session_id = 7;
  client_mac = client_mac;
  chunk_offset = 1;
  chunk_count = 2;
}

idle_get_data_req-piece_example :
    (idle_get_data_req disk server_net asked 0).2
    ≡ frame client_mac server_mac 0x80ab 7 14 PktType.file_get_data
        (be32 1 ++ (be32 1 ++ (be16 2 ++ (be16 0 ++ 20 ∷ 30 ∷ []))))
      ∷ []
unfolding file_transfer_init
idle_get_data_req-piece_example =
    idle_get_data_req-piece disk (λ w. w) file asked disk-Readable 0 refl (omega arith)
      (omega arith) (omega arith) refl refl server_net
