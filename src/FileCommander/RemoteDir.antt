-- ===== src/FileCommander/RemoteDir.antt =====
-- net/remote_dir.c: a remote directory is fetched page by page.
pub mod Entries
pub mod Listing
use Prim.Native.Nat.{bit_and}
use rmtdos_utils.Prelude.{
  ℕ, zero, suc, ◌+◌, ◌-◌, ◌*◌, Bool, not, Option, none, some, List, [], ◌∷◌, ◌++◌, ◌&&◌, ◌||◌, ◌==◌,
  ltb, leb, if◌then◌else◌, byte, length, take, drop, overlay, replicate, u16, be16, be32, get_be16,
  get_be32,
}
use rmtdos_utils.Wire.{Mac, mac_eq, get_mac, packet_signature}
use rmtdos_utils.Wire.PktType
use rmtdos_utils.Wire.AckStatus
use rmtdos_utils.FileTransfer.State.{rmtdos_path_bytes}
use rmtdos_utils.FileTransfer.Path.Equal.{c_string}
use rmtdos_utils.Client.{RawSocket, Link, packet_buffer}
use rmtdos_utils.Client.Put.{Run, prepend}

abbrev pub dir_list_page_entries : ℕ
dir_list_page_entries = 16

abbrev pub dir_list_retries : ℕ
dir_list_retries = 5

pub record RemoteDirEntry : Type 0 where
  pub name : List ℕ
  pub attributes : ℕ
  pub size : ℕ
  pub dos_date : ℕ
  pub dos_time : ℕ
  pub is_dir : Bool

-- An entry of the wire, of which `snprintf` copies the name up to its NUL, at most 63 characters.
abbrev pub read_entry : List ℕ → RemoteDirEntry
read_entry xs = record {
  name = take 63 (c_string (drop 10 xs));
  attributes = byte xs 0;
  size = get_be32 xs 2;
  dos_date = get_be16 xs 6;
  dos_time = get_be16 xs 8;
  is_dir = not (bit_and (byte xs 0) 0x10 == 0);
}

unfoldable pub read_entries : ℕ → List ℕ → List RemoteDirEntry
read_entries zero xs = []
read_entries (suc n) xs = read_entry xs ∷ read_entries n (drop 74 xs)

-- The tests of `recv_dir_page` that make it wait for another frame.
unfoldable pub is_dir_page : RawSocket → Mac → ℕ → ℕ → List ℕ → Bool
is_dir_page sock dest request_id start_index buf =
    leb 36 (length buf)
    && (mac_eq (get_mac buf 6) dest
        && (mac_eq (get_mac buf 0) sock.if_addr
            && (get_be32 buf 14 == packet_signature
                && (get_be32 buf 18 == sock.session_id
                    && (get_be16 buf 24 == PktType.dir_list_data
                        && (leb 10 (get_be16 buf 22)
                            && (get_be32 buf 26 == request_id
                                && get_be16 buf 30 == start_index)))))))

-- The tests after which it gives up.
unfoldable pub is_bad_page : ℕ → List ℕ → Bool
is_bad_page max_entries buf =
    not (get_be16 buf 34 == AckStatus.ok)
    || (ltb dir_list_page_entries (get_be16 buf 32)
        || (ltb max_entries (get_be16 buf 32) || ltb (get_be16 buf 22) (10 + get_be16 buf 32 * 74)))

-- The entries of a frame that was received in the array `stale`.
abbrev pub page_of : List ℕ → List ℕ → List RemoteDirEntry
page_of stale buf = read_entries (get_be16 buf 32) (drop 36 (overlay buf stale))

-- `make_request_id` is an exclusive or of the session id and a salt: the id is an argument.
module _ {W : Type 0} (net : Link W) (sock : RawSocket) (dest : Mac) (request_id : ℕ)
    (stale : List ℕ) where
  unfoldable pub recv_dir_page : ℕ → ℕ → ℕ → W → Option (Option (List RemoteDirEntry) × W)
  recv_dir_page zero start_index max_entries w = none
  recv_dir_page (suc fuel) start_index max_entries w =
      let (got, w') = net.recv w in
      let again = recv_dir_page fuel start_index max_entries w' in
      elim got [
        | none ↦ some (none, w')
        | some buf ↦
            if is_dir_page sock dest request_id start_index buf
            then (if is_bad_page max_entries buf
                then some (none, w')
                else some (some (page_of stale buf), w'))
            else again
      ]

  -- The loop over the attempts.
  unfoldable pub request_page : ℕ → ℕ → ℕ → ℕ → W → Run (Option (List RemoteDirEntry)) W
  request_page zero fuel total room w = some (none, w, [])
  request_page (suc attempts) fuel total room w =
      let packet =
        packet_buffer sock (some dest) PktType.dir_list_data_req
          (be32 request_id ++ (be16 (u16 total) ++ be16 dir_list_page_entries)) in
      let (sent, w1) = net.sendto packet w in
      if sent
      then elim (recv_dir_page fuel (u16 total) room w1) [
        | none ↦ none
        | some (answer, w2) ↦ elim answer [
          | some page ↦ some (some page, w2, packet ∷ [])
          | none ↦ prepend (packet ∷ []) (request_page attempts fuel total room w2)
        ]
      ]
      else some (none, w1, packet ∷ [])

  -- The loop `while (total < max_entries)`.
  unfoldable pub fetch_loop :
      ℕ → ℕ → ℕ → List RemoteDirEntry → W → Run (Option (List RemoteDirEntry)) W
  fetch_loop zero fuel max_entries entries w = none
  fetch_loop (suc rounds) fuel max_entries entries w =
      let total = length entries in
      let answer = request_page dir_list_retries fuel total (max_entries - total) w in
      if ltb total max_entries
      then elim answer [
        | none ↦ none
        | some (got, w1, packets) ↦ elim got [
          | none ↦ some (none, w1, packets)
          | some page ↦
              let rest = fetch_loop rounds fuel max_entries (entries ++ page) w1 in
              if ltb (length page) dir_list_page_entries
              then some (some (entries ++ page), w1, packets)
              else prepend packets rest
        ]
      ]
      else some (some entries, w, [])

  -- What follows the loop; whether the last packet was sent does not matter.
  unfoldable pub fetch_end : Option (List RemoteDirEntry) → W → Run (Option (List RemoteDirEntry)) W
  fetch_end none w = some (none, w, [])
  fetch_end (some entries) w =
      let packet = packet_buffer sock (some dest) PktType.dir_list_end (be32 request_id) in
      some (some entries, (net.sendto packet w).1, packet ∷ [])

  -- `some entries` is the C function's 0. The path is given without its NUL.
  unfoldable pub remote_dir_fetch : ℕ → List ℕ → ℕ → W → Run (Option (List RemoteDirEntry)) W
  unfolding fetch_end
  remote_dir_fetch fuel path max_entries w =
      let packet = packet_buffer sock (some dest) PktType.dir_list_begin (
        be32 request_id
        ++ (take (rmtdos_path_bytes - 1) path
            ++ replicate (rmtdos_path_bytes - length (take (rmtdos_path_bytes - 1) path)) 0)) in
      let (sent, w1) = net.sendto packet w in
      if sent
      then elim (fetch_loop (suc max_entries) fuel max_entries [] w1) [
        | none ↦ none
        | some (got, w2, packets) ↦ prepend (packet ∷ packets) (fetch_end got w2)
      ]
      else some (none, w1, packet ∷ [])
