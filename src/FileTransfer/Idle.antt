-- ===== src/FileTransfer/Idle.antt =====
-- `file_transfer_process_idle` of server/file_transfer.c, which runs from DOS idle: one function
-- for each `case`, and the acknowledgement that the cases share.
pub mod Download
use rmtdos_utils.Prelude.{
  ℕ, ◌+◌, ◌%◌, Bool, true, false, not, Option, none, some, List, [], ◌∷◌, ◌||◌, ◌==◌, ltb,
  if◌then◌else◌, is_neg, minus_one, u16_of_int, u32,
}
use rmtdos_utils.Wire.AckCommand
use rmtdos_utils.Wire.AckStatus
use rmtdos_utils.FileTransfer.State.{
  FileTransferState, FileOp, mode_none, mode_put, mode_get, file_transfer_chunk_bytes,
}
use rmtdos_utils.FileTransfer.Dos.{
  Int21, dos_create_file, dos_open_read_file, dos_seek_file, dos_read_file, dos_write_file,
  dos_mkdir, dos_rmdir, dos_unlink, dos_rename, dos_close_file, u32_max,
}
use rmtdos_utils.FileTransfer.Path.{dos_path_equal}
use rmtdos_utils.FileTransfer.Send.{Net, send_file_ack, send_file_get_data, send_dir_list_data}
use rmtdos_utils.FileTransfer.Dir.{collect_dir_entries}
use rmtdos_utils.FileTransfer.Copy.{dos_copy_file, dos_get_file_size}

-- The state and the world after a case, with its `command` and `status`.
abbrev pub Acked : Type 0 → Type 0
Acked W = FileTransferState × W × ℕ × ℕ

-- The state, the world and the frames handed to `pktdrv_send`.
abbrev pub Sent : Type 0 → Type 0
Sent W = FileTransferState × W × List (List ℕ)

-- `status = ok ? FILE_ACK_OK : FILE_ACK_ERROR`
abbrev pub status_of : Bool → ℕ
status_of true = AckStatus.ok
status_of false = AckStatus.error

-- The end of `file_transfer_process_idle`.
unfoldable pub acknowledge : {W : Type 0} → Net → Acked W → Option (Sent W)
acknowledge net (s, w, command, status) =
    some (s, w, send_file_ack net s command status s.expected_offset ∷ [])

-- The same after `FILE_OP_GET_BEGIN`, which answers with the size of the file.
unfoldable pub acknowledge_get_begin : {W : Type 0} → Net → Acked W → Option (Sent W)
acknowledge_get_begin net (s, w, command, status) =
    let offset = if status == AckStatus.ok then s.size else s.expected_offset in
    some (s, w, send_file_ack net s command status offset ∷ [])

module _ {W : Type 0} (int21 : Int21 W) where
  -- `if (g_file.active) dos_close_file(g_file.handle);`
  unfoldable pub close_active : FileTransferState → W → W
  close_active s w = if s.active then dos_close_file int21 s.handle w else w

  unfoldable pub idle_put_begin : FileTransferState → W → Acked W
  unfolding close_active
  idle_put_begin s w =
      let (handle, w') = dos_create_file int21 s.filename (close_active s w) in
      let opened = not (is_neg handle) in
      (
        record s {
          handle = handle;
          expected_offset = 0;
          active = opened;
          mode = if opened then mode_put else mode_none;
        },
        w',
        AckCommand.begin,
        status_of opened,
      )

  unfoldable pub idle_put_data : FileTransferState → W → Acked W
  idle_put_data s w =
      let (written, w') = dos_write_file int21 s.handle s.chunk s.chunk_count w in
      if not (s.chunk_offset == s.expected_offset)
      then (s, w, AckCommand.chunk, AckStatus.error)
      else if written
      then (
        record s { expected_offset = u32 (s.expected_offset + s.chunk_count) },
        w',
        AckCommand.chunk,
        AckStatus.ok,
      )
      else (s, w', AckCommand.chunk, AckStatus.error)

  -- The end of both kinds of transfer: the file is closed.
  unfoldable pub close_transfer : FileTransferState → FileTransferState
  close_transfer s = record s { handle = minus_one; active = false; mode = mode_none }

  unfoldable pub idle_put_end : FileTransferState → W → Acked W
  unfolding close_transfer
  idle_put_end s w = (
    close_transfer s,
    dos_close_file int21 s.handle w,
    AckCommand.end,
    status_of (s.expected_offset == s.size),
  )

  unfoldable pub idle_ack : FileTransferState → W → Acked W
  idle_ack s w = (record s { expected_offset = s.ack_offset }, w, s.ack_command, s.ack_status)

  -- The size is asked for only if the file was opened.
  unfoldable pub idle_get_begin : FileTransferState → W → Acked W
  unfolding close_active
  idle_get_begin s w =
      let (handle, w1) = dos_open_read_file int21 s.filename (close_active s w) in
      let closed = record s {
        handle = handle;
        active = false;
        mode = mode_none;
        expected_offset = 0;
        size = 0;
      } in
      let (size, found, w2) = dos_get_file_size int21 s.filename closed w1 in
      if is_neg handle
      then (record closed { handle = minus_one }, w1, AckCommand.begin, AckStatus.error)
      else if size == u32_max
      then (
        record found { size = size; handle = minus_one },
        dos_close_file int21 handle w2,
        AckCommand.begin,
        AckStatus.error,
      )
      else (
        record found { size = size; active = true; mode = mode_get },
        w2,
        AckCommand.begin,
        AckStatus.ok,
      )

  -- The new state and world, with the status that goes into the reply.
  unfoldable pub read_chunk : FileTransferState → W → FileTransferState × W × ℕ
  read_chunk s w =
      let (place, w1) = dos_seek_file int21 s.handle 0 s.chunk_offset w in
      let (count, chunk, w2) = dos_read_file int21 s.handle s.chunk s.chunk_count w1 in
      if not s.active
        || (not (s.mode == mode_get)
            || (ltb file_transfer_chunk_bytes s.chunk_count || ltb s.size s.chunk_offset))
      then (record s { chunk_count = 0 }, w, AckStatus.error)
      else if place == u32_max
      then (record s { chunk_count = 0 }, w1, AckStatus.error)
      else if is_neg count
      then (record s { chunk = chunk; chunk_count = 0 }, w2, AckStatus.error)
      else (
        record s {
          chunk = chunk;
          chunk_count = u16_of_int count;
          expected_offset = u32 (s.chunk_offset + u16_of_int count);
        },
        w2,
        AckStatus.ok,
      )

  unfoldable pub idle_get_data_req : Net → FileTransferState → W → Sent W
  idle_get_data_req net s w =
      let (s', w', status) = read_chunk s w in
      let (s'', frame) = send_file_get_data net s' status in (s'', w', frame ∷ [])

  unfoldable pub idle_get_end : FileTransferState → W → Acked W
  unfolding close_transfer
  idle_get_end s w =
      (close_transfer s, dos_close_file int21 s.handle w, AckCommand.end, AckStatus.ok)

  unfoldable pub idle_dir_list_data_req : ℕ → Net → FileTransferState → W → Option (Sent W)
  idle_dir_list_data_req fuel net s w = elim (collect_dir_entries int21 fuel s w) [
    | none ↦ none
    | some (status, count, s', w') ↦ some (s', w', send_dir_list_data net s' status count ∷ [])
  ]

  unfoldable pub idle_mkdir : FileTransferState → W → Acked W
  idle_mkdir s w =
      let (done, w') = dos_mkdir int21 s.filename w in (s, w', AckCommand.mkdir, status_of done)

  -- `flags & FILE_PATH_OP_DIRECTORY` is the lowest bit.
  unfoldable pub idle_delete : FileTransferState → W → Acked W
  idle_delete s w =
      let (done, w') =
        if s.path_op_flags % 2 == 1
        then dos_rmdir int21 s.filename w
        else dos_unlink int21 s.filename w in
      (s, w', AckCommand.delete, status_of done)

  unfoldable pub idle_rename : FileTransferState → W → Acked W
  idle_rename s w =
      let (done, w') = dos_rename int21 s.filename s.target w in
      if dos_path_equal s.filename s.target
      then (s, w, AckCommand.rename, AckStatus.ok)
      else (s, w', AckCommand.rename, status_of done)

  unfoldable pub idle_copy : ℕ → FileTransferState → W → Option (Acked W)
  idle_copy fuel s w =
      if dos_path_equal s.filename s.target
      then some (record s { expected_offset = 0 }, w, AckCommand.copy, AckStatus.error)
      else elim (dos_copy_file int21 fuel s.filename s.target s w) [
        | none ↦ none
        | some (done, copied, s', w') ↦
            some (record s' { expected_offset = copied }, w', AckCommand.copy, status_of done)
      ]

  -- The `switch`; `s` is the state with `pending_op` cleared.
  unfoldable pub process_op : ℕ → Net → FileOp → FileTransferState → W → Option (Sent W)
  process_op fuel net FileOp.no_op s w = some (s, w, [])
  process_op fuel net FileOp.put_begin s w = acknowledge net (idle_put_begin s w)
  process_op fuel net FileOp.put_data s w = acknowledge net (idle_put_data s w)
  process_op fuel net FileOp.put_end s w = acknowledge net (idle_put_end s w)
  process_op fuel net FileOp.ack s w = acknowledge net (idle_ack s w)
  process_op fuel net FileOp.get_begin s w = acknowledge_get_begin net (idle_get_begin s w)
  process_op fuel net FileOp.get_data_req s w = some (idle_get_data_req net s w)
  process_op fuel net FileOp.get_end s w = acknowledge net (idle_get_end s w)
  process_op fuel net FileOp.dir_list_data_req s w = idle_dir_list_data_req fuel net s w
  process_op fuel net FileOp.mkdir s w = acknowledge net (idle_mkdir s w)
  process_op fuel net FileOp.delete s w = acknowledge net (idle_delete s w)
  process_op fuel net FileOp.rename s w = acknowledge net (idle_rename s w)
  process_op fuel net FileOp.copy s w = elim (idle_copy fuel s w) [
    | none ↦ none
    | some acked ↦ acknowledge net acked
  ]

  unfoldable pub file_transfer_process_idle : ℕ → Net → FileTransferState → W → Option (Sent W)
  file_transfer_process_idle fuel net s w =
      process_op fuel net s.pending_op (record s { pending_op = FileOp.no_op }) w
