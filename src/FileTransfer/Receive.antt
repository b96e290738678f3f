-- ===== src/FileTransfer/Receive.antt =====
-- `file_transfer_handle_packet` of server/file_transfer.c, one function for each `case`. The
-- argument `data` is `buffer->data`, the frame as it was received.
use rmtdos_utils.Prelude.{
  ℕ, ◌+◌, ◌-◌, true, false, not, List, ◌||◌, ◌==◌, ltb, if◌then◌else◌, set, take, drop, overlay,
  get_be16, get_be32,
}
use rmtdos_utils.Wire.{get_mac}
use rmtdos_utils.Wire.AckCommand
use rmtdos_utils.Wire.AckStatus
use rmtdos_utils.Wire.PktType
use rmtdos_utils.FileTransfer.State.{
  FileTransferState, FileOp, is_pending, mode_none, mode_put, mode_get, mode_dir,
  file_transfer_name_bytes, file_transfer_chunk_bytes, rmtdos_path_bytes,
}

-- The payload begins behind the two headers.
abbrev pub payload_at : ℕ
payload_at = 26

abbrev pub pkt_type_of : List ℕ → ℕ
pkt_type_of frame = get_be16 frame 24

abbrev pub payload_len_of : List ℕ → ℕ
payload_len_of frame = get_be16 frame 22

-- `memcpy(dest, payload field, n); dest[n - 1] = '\0'`
unfoldable pub field_string : List ℕ → ℕ → ℕ → List ℕ
field_string frame i n = set (take n (drop (payload_at + i) frame)) (n - 1) 0

unfoldable pub remember_client : List ℕ → FileTransferState → FileTransferState
remember_client frame s = record s { client_mac = get_mac frame 6; session_id = get_be32 frame 18 }

unfoldable pub queue_ack : List ℕ → ℕ → ℕ → ℕ → FileTransferState → FileTransferState
unfolding remember_client
queue_ack frame transfer_id command status s =
    if is_pending s.pending_op then s else record (remember_client frame s) {
      transfer_id = transfer_id;
      ack_command = command;
      ack_status = status;
      ack_offset = s.expected_offset;
      pending_op = FileOp.ack;
    }

unfoldable pub handle_put_begin : List ℕ → FileTransferState → FileTransferState
unfolding remember_client
handle_put_begin frame s =
    if ltb (payload_len_of frame) 72 then s else record (remember_client frame s) {
      transfer_id = get_be32 frame 26;
      size = get_be32 frame 30;
      filename = field_string frame 8 file_transfer_name_bytes;
      pending_op = FileOp.put_begin;
    }

unfoldable pub handle_put_data : List ℕ → FileTransferState → FileTransferState
unfolding remember_client queue_ack
handle_put_data frame s =
    let transfer_id = get_be32 frame 26 in
    let offset = get_be32 frame 30 in
    let count = get_be16 frame 34 in
    if ltb (payload_len_of frame) 10
    then s
    else if not s.active || (not (s.mode == mode_put) || not (transfer_id == s.transfer_id))
    then s
    else if not (offset == s.expected_offset)
    then queue_ack frame transfer_id AckCommand.chunk AckStatus.ok s
    else if ltb file_transfer_chunk_bytes count || ltb (payload_len_of frame) (10 + count)
    then queue_ack frame transfer_id AckCommand.chunk AckStatus.error s
    else record (remember_client frame s) {
      chunk_offset = offset;
      chunk_count = count;
      chunk = overlay (take count (drop 36 frame)) s.chunk;
      pending_op = FileOp.put_data;
    }

unfoldable pub handle_put_end : List ℕ → FileTransferState → FileTransferState
unfolding remember_client
handle_put_end frame s =
    if ltb (payload_len_of frame) 8
    then s
    else if not s.active
        || (not (s.mode == mode_put)
            || (not (get_be32 frame 26 == s.transfer_id) || not (get_be32 frame 30 == s.size)))
    then s
    else record (remember_client frame s) { pending_op = FileOp.put_end }

unfoldable pub handle_get_begin : List ℕ → FileTransferState → FileTransferState
unfolding remember_client
handle_get_begin frame s =
    if ltb (payload_len_of frame) 68 then s else record (remember_client frame s) {
      transfer_id = get_be32 frame 26;
      filename = field_string frame 4 file_transfer_name_bytes;
      pending_op = FileOp.get_begin;
    }

unfoldable pub handle_get_data_req : List ℕ → FileTransferState → FileTransferState
unfolding remember_client
handle_get_data_req frame s =
    if ltb (payload_len_of frame) 10
    then s
    else if not s.active || (not (s.mode == mode_get) || not (get_be32 frame 26 == s.transfer_id))
    then s
    else record (remember_client frame s) {
      chunk_offset = get_be32 frame 30;
      chunk_count = get_be16 frame 34;
      pending_op = FileOp.get_data_req;
    }

unfoldable pub handle_get_end : List ℕ → FileTransferState → FileTransferState
unfolding remember_client
handle_get_end frame s =
    if ltb (payload_len_of frame) 4
    then s
    else if not s.active || (not (s.mode == mode_get) || not (get_be32 frame 26 == s.transfer_id))
    then s
    else record (remember_client frame s) { pending_op = FileOp.get_end }

unfoldable pub handle_dir_list_begin : List ℕ → FileTransferState → FileTransferState
unfolding remember_client
handle_dir_list_begin frame s =
    if ltb (payload_len_of frame) 132 then s else record (remember_client frame s) {
      dir_request_id = get_be32 frame 26;
      dir_path = field_string frame 4 rmtdos_path_bytes;
      active = true;
      mode = mode_dir;
    }

unfoldable pub handle_dir_list_data_req : List ℕ → FileTransferState → FileTransferState
unfolding remember_client
handle_dir_list_data_req frame s =
    if ltb (payload_len_of frame) 8
    then s
    else if not s.active
        || (not (s.mode == mode_dir) || not (get_be32 frame 26 == s.dir_request_id))
    then s
    else record (remember_client frame s) {
      dir_start_index = get_be16 frame 30;
      dir_max_entries = get_be16 frame 32;
      pending_op = FileOp.dir_list_data_req;
    }

unfoldable pub handle_dir_list_end : List ℕ → FileTransferState → FileTransferState
handle_dir_list_end frame s =
    if ltb (payload_len_of frame) 4 || not (get_be32 frame 26 == s.dir_request_id)
    then s
    else record s { active = false; mode = mode_none; dir_request_id = 0 }

-- The cases V1_FILE_MKDIR and V1_FILE_DELETE differ in the operation alone.
unfoldable pub handle_path_op : FileOp → List ℕ → FileTransferState → FileTransferState
unfolding remember_client
handle_path_op op frame s =
    if ltb (payload_len_of frame) 72 then s else record (remember_client frame s) {
      transfer_id = get_be32 frame 26;
      path_op_flags = get_be16 frame 30;
      filename = field_string frame 8 file_transfer_name_bytes;
      pending_op = op;
    }

-- The cases V1_FILE_RENAME and V1_FILE_COPY.
unfoldable pub handle_two_path_op : FileOp → List ℕ → FileTransferState → FileTransferState
unfolding remember_client
handle_two_path_op op frame s =
    if ltb (payload_len_of frame) 132 then s else record (remember_client frame s) {
      transfer_id = get_be32 frame 26;
      filename = field_string frame 4 file_transfer_name_bytes;
      target = field_string frame 68 file_transfer_name_bytes;
      pending_op = op;
    }

-- The `switch` on the packet's type.
unfoldable pub dispatch : ℕ → List ℕ → FileTransferState → FileTransferState
dispatch kind frame s =
    if kind == PktType.file_put_begin
    then handle_put_begin frame s
    else if kind == PktType.file_put_data
    then handle_put_data frame s
    else if kind == PktType.file_put_end
    then handle_put_end frame s
    else if kind == PktType.file_get_begin
    then handle_get_begin frame s
    else if kind == PktType.file_get_data_req
    then handle_get_data_req frame s
    else if kind == PktType.file_get_end
    then handle_get_end frame s
    else if kind == PktType.dir_list_begin
    then handle_dir_list_begin frame s
    else if kind == PktType.dir_list_data_req
    then handle_dir_list_data_req frame s
    else if kind == PktType.dir_list_end
    then handle_dir_list_end frame s
    else if kind == PktType.file_mkdir
    then handle_path_op FileOp.mkdir frame s
    else if kind == PktType.file_delete
    then handle_path_op FileOp.delete frame s
    else if kind == PktType.file_rename
    then handle_two_path_op FileOp.rename frame s
    else if kind == PktType.file_copy
    then handle_two_path_op FileOp.copy frame s
    else s

-- A packet that comes while an operation waits is dropped.
unfoldable pub file_transfer_handle_packet : List ℕ → FileTransferState → FileTransferState
file_transfer_handle_packet frame s =
    if is_pending s.pending_op then s else dispatch (pkt_type_of frame) frame s
