-- ===== src/FileTransfer/Invariant/Receive.antt =====
-- Every packet keeps the invariant.
use rmtdos_utils.Prelude.{
  ℕ, ◌≤◌, ◌≡◌, ◌≢◌, refl, false, List, arith, length, length-overlay, take, drop, get_be16,
  if_intro, Bool-cases, inl, inr,
}
use rmtdos_utils.FileTransfer.State.{
  FileTransferState, FileOp, is_pending, file_transfer_name_bytes, rmtdos_path_bytes,
}
use rmtdos_utils.FileTransfer.Receive.{
  handle_put_begin, handle_put_data, handle_put_end, handle_get_begin, handle_get_data_req,
  handle_get_end, handle_dir_list_begin, handle_dir_list_data_req, handle_dir_list_end,
  handle_path_op, handle_two_path_op, dispatch, file_transfer_handle_packet, pkt_type_of,
}
use rmtdos_utils.FileTransfer.Invariant.{IsValid, field_string-IsString}

-- The receive buffer has room for the longest payload.
module _ (frame : List ℕ) (room : 158 ≤ length frame) {s : FileTransferState} (v : IsValid s)
    (idle : s.pending_op ≡ FileOp.no_op) where
  handle_put_begin-IsValid : IsValid (handle_put_begin frame s)
  unfolding handle_put_begin
  handle_put_begin-IsValid = ground (arith, field_string-IsString frame 8 file_transfer_name_bytes)

  handle_put_data-IsValid : IsValid (handle_put_data frame s)
  unfolding handle_put_data
  handle_put_data-IsValid =
      ground (arith, length-overlay (take (get_be16 frame 34) (drop 36 frame)) s.chunk)

  handle_put_end-IsValid : IsValid (handle_put_end frame s)
  unfolding handle_put_end
  handle_put_end-IsValid = ground arith

  handle_get_begin-IsValid : IsValid (handle_get_begin frame s)
  unfolding handle_get_begin
  handle_get_begin-IsValid = ground (arith, field_string-IsString frame 4 file_transfer_name_bytes)

  handle_get_data_req-IsValid : IsValid (handle_get_data_req frame s)
  unfolding handle_get_data_req
  handle_get_data_req-IsValid = ground arith

  handle_get_end-IsValid : IsValid (handle_get_end frame s)
  unfolding handle_get_end
  handle_get_end-IsValid = ground arith

  handle_dir_list_begin-IsValid : IsValid (handle_dir_list_begin frame s)
  unfolding handle_dir_list_begin
  handle_dir_list_begin-IsValid = ground (arith, field_string-IsString frame 4 rmtdos_path_bytes)

  handle_dir_list_data_req-IsValid : IsValid (handle_dir_list_data_req frame s)
  unfolding handle_dir_list_data_req
  handle_dir_list_data_req-IsValid = ground arith

  handle_dir_list_end-IsValid : IsValid (handle_dir_list_end frame s)
  unfolding handle_dir_list_end
  handle_dir_list_end-IsValid = ground arith

  handle_path_op-IsValid :
      (op : FileOp) → op ≢ FileOp.put_data → IsValid (handle_path_op op frame s)
  unfolding handle_path_op
  handle_path_op-IsValid op h =
      ground (arith, field_string-IsString frame 8 file_transfer_name_bytes)

  handle_two_path_op-IsValid :
      (op : FileOp) → op ≢ FileOp.put_data → IsValid (handle_two_path_op op frame s)
  unfolding handle_two_path_op
  handle_two_path_op-IsValid op h = ground (
    arith,
    field_string-IsString frame 4 file_transfer_name_bytes,
    field_string-IsString frame 68 file_transfer_name_bytes,
  )

  dispatch-IsValid : (kind : ℕ) → IsValid (dispatch kind frame s)
  unfolding dispatch
  dispatch-IsValid kind = if_intro IsValid _ handle_put_begin-IsValid (
      if_intro IsValid _ handle_put_data-IsValid (
        if_intro IsValid _ handle_put_end-IsValid (
          if_intro IsValid _ handle_get_begin-IsValid (
            if_intro IsValid _ handle_get_data_req-IsValid (
              if_intro IsValid _ handle_get_end-IsValid (
                if_intro IsValid _ handle_dir_list_begin-IsValid (
                  if_intro IsValid _ handle_dir_list_data_req-IsValid (
                    if_intro IsValid _ handle_dir_list_end-IsValid (
                      if_intro IsValid _ (handle_path_op-IsValid FileOp.mkdir (cc)) (
                        if_intro IsValid _ (handle_path_op-IsValid FileOp.delete (cc)) (
                          if_intro IsValid _ (handle_two_path_op-IsValid FileOp.rename (cc)) (
                            if_intro IsValid _ (handle_two_path_op-IsValid FileOp.copy (cc))
                              v))))))))))))

pub is_pending-eq-false : (op : FileOp) → is_pending op ≡ false → op ≡ FileOp.no_op
is_pending-eq-false FileOp.no_op e = refl
is_pending-eq-false _ e = cc

-- A packet of any type and content, in a receive buffer that holds the longest payload, keeps the
-- invariant, whether or not an operation is waiting.
pub file_transfer_handle_packet-IsValid :
    (frame : List ℕ) {s : FileTransferState}
    → 158 ≤ length frame
    → IsValid s
    → IsValid (file_transfer_handle_packet frame s)
unfolding file_transfer_handle_packet
file_transfer_handle_packet-IsValid frame {s} room v = elim (Bool-cases (is_pending s.pending_op)) [
  | inl waits ↦ rw waits v
  | inr idle ↦
      rw idle
        (dispatch-IsValid frame room v (is_pending-eq-false s.pending_op idle) (pkt_type_of frame))
]
