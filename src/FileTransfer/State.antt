-- ===== src/FileTransfer/State.antt =====
-- `struct FileTransferState` of server/file_transfer.c, and `file_transfer_init`.
use rmtdos_utils.Prelude.{ℕ, Bool, true, false, List, ℤ, minus_one, replicate}
use rmtdos_utils.Wire.{Mac}

-- `FILE_MODE_*`
abbrev pub mode_none : ℕ
mode_none = 0

abbrev pub mode_put : ℕ
mode_put = 1

abbrev pub mode_get : ℕ
mode_get = 2

abbrev pub mode_dir : ℕ
mode_dir = 3

-- `FILE_OP_*`: the operation that waits for the next DOS idle call.
pub data FileOp : Type 0 where
  no_op put_begin put_data put_end ack get_begin get_data_req get_end : FileOp
  dir_list_data_req mkdir delete rename copy : FileOp

-- `if (g_file.pending_op)`
abbrev pub is_pending : FileOp → Bool
is_pending no_op = false
is_pending _ = true

abbrev pub file_transfer_name_bytes : ℕ
file_transfer_name_bytes = 64

abbrev pub file_transfer_chunk_bytes : ℕ
file_transfer_chunk_bytes = 512

abbrev pub rmtdos_path_bytes : ℕ
rmtdos_path_bytes = 128

abbrev pub dos_dta_bytes : ℕ
dos_dta_bytes = 43

abbrev pub dir_list_page_entries : ℕ
dir_list_page_entries = 16

-- `struct DirListEntry`, its numbers in host order; `Dir.entry_bytes` is its image in memory.
pub record DirListEntry : Type 0 where
  pub attributes : ℕ
  pub size : ℕ
  pub dos_date : ℕ
  pub dos_time : ℕ
  pub name : List ℕ

abbrev pub blank_entry : DirListEntry
blank_entry = record { attributes = 0; size = 0; dos_date = 0; dos_time = 0; name = replicate 64 0 }

pub record FileTransferState : Type 0 where
  pub active : Bool
  pub mode : ℕ
  pub pending_op : FileOp
  pub client_mac : Mac
  pub session_id : ℕ
  pub transfer_id : ℕ
  pub expected_offset : ℕ
  pub size : ℕ
  pub handle : ℤ
  pub filename : List ℕ
  pub chunk : List ℕ
  pub chunk_count : ℕ
  pub chunk_offset : ℕ
  pub ack_command : ℕ
  pub ack_status : ℕ
  pub ack_offset : ℕ
  pub dir_request_id : ℕ
  pub dir_start_index : ℕ
  pub dir_max_entries : ℕ
  pub path_op_flags : ℕ
  pub target : List ℕ
  pub dir_path : List ℕ
  pub dta : List ℕ
  pub dir_entries : List DirListEntry

abbrev pub null_mac : Mac
null_mac = record { b0 = 0; b1 = 0; b2 = 0; b3 = 0; b4 = 0; b5 = 0 }

unfoldable pub file_transfer_init : FileTransferState
file_transfer_init = record {
  active = false;
  mode = mode_none;
  pending_op = no_op;
  client_mac = null_mac;
  session_id = 0;
  transfer_id = 0;
  expected_offset = 0;
  size = 0;
  handle = minus_one;
  filename = replicate file_transfer_name_bytes 0;
  chunk = replicate file_transfer_chunk_bytes 0;
  chunk_count = 0;
  chunk_offset = 0;
  ack_command = 0;
  ack_status = 0;
  ack_offset = 0;
  dir_request_id = 0;
  dir_start_index = 0;
  dir_max_entries = 0;
  path_op_flags = 0;
  target = replicate file_transfer_name_bytes 0;
  dir_path = replicate rmtdos_path_bytes 0;
  dta = replicate dos_dta_bytes 0;
  dir_entries = replicate dir_list_page_entries blank_entry;
}
