-- ===== src/Tests/Transfer.antt =====
-- A file of two bytes goes over a cable, and comes back over another.
use rmtdos_utils.Prelude.{
  be16, be32, get_be16, get_be32, length, Option, zero, suc, ℕ, ◌≡◌, refl, arith, List, [], ◌∷◌,
  ◌++◌, some, none, true, false, replicate,
}
use rmtdos_utils.FileTransfer.State.{file_transfer_init}
use rmtdos_utils.FileTransfer.Invariant.{file_transfer_init-IsValid}
use rmtdos_utils.Wire.{frame, mac_eq}
use rmtdos_utils.Wire.PktType
use rmtdos_utils.Wire.AckCommand
use rmtdos_utils.Wire.AckStatus
use rmtdos_utils.Client.{RawSocket, Link}
use rmtdos_utils.Client.Get.{is_file_get_data, is_bad_chunk, OutFile, file_transfer_get}
use rmtdos_utils.Client.Get.Sound.{Carries, Honest, Post, Saved, file_transfer_get-Saved}
use rmtdos_utils.Client.Put.{LocalFile, is_file_ack, file_transfer_put, validate_remote_name}
use rmtdos_utils.Transfer.{World, cable}
use rmtdos_utils.Transfer.Server.{Accepts}
use rmtdos_utils.Transfer.Upload.{file_transfer_put-Delivered}
use rmtdos_utils.Tests.{server_mac, client_mac, server_net}
use rmtdos_utils.Tests.Upload.{disk, content, disk-Stores, file}

abbrev sock : RawSocket
sock = record { if_addr = client_mac; ethertype = 0x80ab; session_id = 7 }

disk-Accepts : Accepts disk 5
disk-Accepts = record {
  small = omega arith;
  creates = λ w path. (refl, refl);
  writes = λ w h count bytes. (refl, refl);
}

abbrev local : LocalFile
local = record { st_size = some 2; opens = true; readable = file; ferror = false }

abbrev start : World (List ℕ)
start = record { server = file_transfer_init; disk = []; inbox = [] }

file_transfer_put-Delivered_example :
    (after : World (List ℕ)) × (packets : List (List ℕ)) × (file_transfer_put
        (cable disk 0 server_net (replicate 140 0))
        sock
        server_mac
        1
        3
        local
        (88 ∷ [])
        start
      ≡ some (true, after, packets))
    × (content after.disk 5 ≡ file)
unfolding file_transfer_init validate_remote_name
file_transfer_put-Delivered_example =
    file_transfer_put-Delivered disk content 5 disk-Accepts disk-Stores 0 server_net
      (replicate 140 0) (omega arith) sock 1 (omega arith) (omega arith) file (omega arith) 2 local
      (88 ∷ []) start refl refl refl refl refl file_transfer_init-IsValid refl refl refl

-- The server's three answers to a download, one after another, then silence.
abbrev reply : ℕ → List ℕ → List ℕ
reply kind payload = frame client_mac server_mac 0x80ab 7 (length payload) kind payload

abbrev told_size : List ℕ
told_size = reply PktType.file_ack (be32 1 ++ (be16 1 ++ (be16 0 ++ be32 2)))

abbrev chunk : List ℕ
chunk = reply PktType.file_get_data (be32 1 ++ (be32 0 ++ (be16 2 ++ (be16 0 ++ file))))

abbrev told_end : List ℕ
told_end = reply PktType.file_ack (be32 1 ++ (be16 3 ++ (be16 0 ++ be32 2)))

abbrev answers : ℕ → Option (List ℕ) × ℕ
answers zero = (some told_size, 1)
answers (suc zero) = (some chunk, 2)
answers (suc (suc zero)) = (some told_end, 3)
answers (suc (suc (suc n))) = (none, suc (suc (suc n)))

abbrev link : Link ℕ
link = record { sendto = λ f n. (true, n); recv = answers }

link-chunks :
    (n : ℕ) (f : List ℕ) (offset : ℕ)
    → (answers n).0 ≡ some f
    → is_file_get_data sock server_mac 1 offset f ≡ true
    → is_bad_chunk f ≡ false
    → Carries file offset f
unfolding is_file_get_data is_bad_chunk frame
link-chunks zero f offset got ours good = let e : told_size ≡ f = cc in absurd (cc)
link-chunks (suc zero) f offset got ours good =
    let e : chunk ≡ f = cc in
    let at : offset ≡ 0 = let o = rw (← e) at ours in ground arith in
    rw (← e) (rw at (record { in_frame = omega arith; in_buffer = omega arith; bytes_ok = refl }))
link-chunks (suc (suc zero)) f offset got ours good = let e : told_end ≡ f = cc in absurd (cc)
link-chunks (suc (suc (suc n))) f offset got ours good = absurd (cc)

chunk_is_no_ack : is_file_ack sock server_mac 1 AckCommand.begin chunk ≡ false
unfolding is_file_ack frame mac_eq
chunk_is_no_ack = refl

told_end_is_no_ack : is_file_ack sock server_mac 1 AckCommand.begin told_end ≡ false
unfolding is_file_ack frame mac_eq
told_end_is_no_ack = refl

told_size_ok : get_be32 told_size 34 ≡ length file
unfolding frame
told_size_ok = refl

link-size :
    (n : ℕ) (f : List ℕ)
    → (answers n).0 ≡ some f
    → is_file_ack sock server_mac 1 AckCommand.begin f ≡ true
    → get_be16 f 32 ≡ AckStatus.ok
    → get_be32 f 34 ≡ length file
link-size zero f got ours good = let e : told_size ≡ f = cc in rw (← e) told_size_ok
link-size (suc zero) f got ours good =
    let e : chunk ≡ f = cc in
    let no : is_file_ack sock server_mac 1 AckCommand.begin f ≡ false = rw (← e) chunk_is_no_ack in
    absurd (ground arith)
link-size (suc (suc zero)) f got ours good =
    let e : told_end ≡ f = cc in
    let no : is_file_ack sock server_mac 1 AckCommand.begin f ≡ false =
      rw (← e) told_end_is_no_ack in
    absurd (ground arith)
link-size (suc (suc (suc n))) f got ours good = absurd (cc)

link-Honest : Honest link sock server_mac 1 file
link-Honest = record { chunks = link-chunks; size = link-size }

abbrev out_file : OutFile
out_file = record { opens = true; room = 9; closes = true }

file_transfer_get-Saved_example :
    Post
      (Saved file)
      (file_transfer_get link sock server_mac 1 (replicate 1514 0) 2 out_file (88 ∷ []) 0)
file_transfer_get-Saved_example =
    file_transfer_get-Saved link sock server_mac 1 file link-Honest (replicate 1514 0) refl 2
      out_file (88 ∷ []) 0
