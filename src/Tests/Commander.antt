-- ===== src/Tests/Commander.antt =====
-- The file manager: a directory of two entries.
use rmtdos_utils.Prelude.{
  ℕ, ◌≡◌, ◌++◌, refl, arith, Bool, true, false, some, List, [], ◌∷◌, map, take, drop, get_be16, sym,
  ◌∙◌, replicate,
}
use rmtdos_utils.Wire.{frame}
use rmtdos_utils.Wire.AckStatus
use rmtdos_utils.FileTransfer.State.{
  FileTransferState, DirListEntry, blank_entry, file_transfer_init,
}
use rmtdos_utils.FileTransfer.Send.{send_dir_list_data}
use rmtdos_utils.Client.{RawSocket, Link}
use rmtdos_utils.Client.Get.Sound.{Post, Given}
use rmtdos_utils.FileCommander.RemoteDir.{
  is_dir_page, is_bad_page, page_of, remote_dir_fetch, RemoteDirEntry,
}
use rmtdos_utils.FileCommander.RemoteDir.Entries.{shown, page_of-send_dir_list_data, AreEntries}
use rmtdos_utils.FileCommander.RemoteDir.Listing.{Shows, Lists, remote_dir_fetch-Lists}
use rmtdos_utils.Client.Put.{validate_remote_name}
use rmtdos_utils.Transfer.{World, cable}
use rmtdos_utils.FileCommander.PathOps.{path_array, file_remote_rename}
use rmtdos_utils.FileCommander.PathOps.Renamed.{renamed, file_remote_rename-renamed}
use rmtdos_utils.FileCommander.RemotePath.{backslash, remote_path_join, ends_in_slash, before_slash}
use rmtdos_utils.FileCommander.RemotePath.Join.{root, remote_path_join-up}
use rmtdos_utils.Tests.Upload.{disk}
use rmtdos_utils.Tests.{server_mac, client_mac, server_net}

abbrev sock : RawSocket
sock = record { if_addr = client_mac; ethertype = 0x80ab; session_id = 7 }

abbrev file_entry : ℕ → DirListEntry
file_entry c = record {
  attributes = 0x20;
  size = 5;
  dos_date = 33;
  dos_time = 0;
  name = c ∷ replicate 63 0;
}

abbrev served : FileTransferState
served = record file_transfer_init {
  client_mac = client_mac;
  session_id = 7;
  dir_request_id = 1;
  dir_entries = file_entry 65 ∷ file_entry 66 ∷ replicate 14 blank_entry;
}

served-AreEntries : AreEntries served.dir_entries
served-AreEntries = omega arith

abbrev reply : List ℕ
reply = send_dir_list_data server_net served AckStatus.ok 2

abbrev listing : List RemoteDirEntry
listing = map shown (file_entry 65 ∷ file_entry 66 ∷ [])

abbrev stale : List ℕ
stale = replicate 1514 0

page_of-send_dir_list_data_example : page_of stale reply ≡ map shown (take 2 served.dir_entries)
page_of-send_dir_list_data_example =
    page_of-send_dir_list_data server_net served 2 stale served-AreEntries refl (omega arith) refl

reply-page : page_of stale reply ≡ listing
reply-page =
    page_of-send_dir_list_data server_net served 2 stale served-AreEntries refl (omega arith) refl

-- A network that brings this reply at each wait.
abbrev link : Link Bool
link = record { sendto = λ f w. (true, w); recv = λ w. (some reply, w) }

page_index :
    (f : List ℕ) (start_index : ℕ)
    → is_dir_page sock server_mac 1 start_index f ≡ true
    → get_be16 f 30 ≡ start_index
unfolding is_dir_page
page_index f start_index h = ground arith

reply_index : get_be16 reply 30 ≡ 0
unfolding send_dir_list_data frame file_transfer_init
reply_index = refl

link-pages :
    (w : Bool) (f : List ℕ) (start_index max_entries : ℕ)
    → (link.recv w).0 ≡ some f
    → is_dir_page sock server_mac 1 start_index f ≡ true
    → is_bad_page max_entries f ≡ false
    → page_of stale f ≡ take 16 (drop start_index listing)
link-pages w f start_index max_entries got ours good =
    let e : reply ≡ f = cc in
    let at : get_be16 reply 30 ≡ start_index = page_index reply start_index (rw (← e) at ours) in
    let start : 0 ≡ start_index = sym reply_index ∙ at in rw (← e, ← start) reply-page

link-Shows : Shows link sock server_mac 1 stale listing
link-Shows = record { pages = link-pages }

remote_dir_fetch-Lists_example :
    Post
      (Given (Lists listing 256))
      (remote_dir_fetch link sock server_mac 1 stale 3 (67 ∷ []) 256 true)
remote_dir_fetch-Lists_example =
    remote_dir_fetch-Lists link sock server_mac 1 stale listing link-Shows 3 256 (67 ∷ []) true
      (omega arith)

abbrev start : World (List ℕ)
start = record { server = file_transfer_init; disk = []; inbox = [] }

file_remote_rename-renamed_example :
    (server : FileTransferState) × (packet : List ℕ) × (file_remote_rename
        (cable disk 0 server_net (replicate 9 0))
        sock
        server_mac
        1
        3
        (65 ∷ [])
        (66 ∷ [])
        start
      ≡ some (
        true,
        record {
          server = server;
          disk = renamed disk [] (path_array (65 ∷ [])) (path_array (66 ∷ []));
          inbox = [];
        },
        packet ∷ [],
      ))
unfolding validate_remote_name file_transfer_init
file_remote_rename-renamed_example =
    file_remote_rename-renamed disk 0 server_net (replicate 9 0) sock 1 (omega arith) (omega arith)
      2 (65 ∷ []) (66 ∷ []) start refl refl refl refl refl

-- `C:\DOS` below `C:\`.
abbrev root_dir : List ℕ
root_dir = b'C' ∷ b':' ∷ backslash ∷ []

abbrev dos_name : List ℕ
dos_name = b'D' ∷ b'O' ∷ b'S' ∷ []

remote_path_join-up_example :
    remote_path_join 128 (root_dir ++ dos_name) (b'.' ∷ b'.' ∷ []) ≡ some root_dir
unfolding remote_path_join ends_in_slash before_slash
remote_path_join-up_example =
    remote_path_join-up 128 root_dir dos_name (root_dir ++ dos_name)
      (root (b'C' ∷ b':' ∷ []) refl refl) (record { single = refl; not_here = refl; not_up = refl })
      refl (omega arith)
