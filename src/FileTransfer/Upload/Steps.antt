-- ===== src/FileTransfer/Upload/Steps.antt =====
-- Each step of an upload keeps `IsIntact`.
use rmtdos_utils.Prelude.{
  ℕ, ◌+◌, ◌≤◌, ◌≡◌, List, length, take, drop, get_be16, get_be32, arith, length-take, length-drop,
  take-overlay_of_length, Bool-cases, inl, inr,
}
use rmtdos_utils.FileTransfer.State.{FileTransferState, FileOp, is_pending}
use rmtdos_utils.FileTransfer.Dos.{Int21}
use rmtdos_utils.FileTransfer.Send.{Net}
use rmtdos_utils.FileTransfer.Receive.{
  dispatch, file_transfer_handle_packet, handle_put_begin, handle_put_data, handle_put_end,
}
use rmtdos_utils.FileTransfer.Invariant.{IsValid}
use rmtdos_utils.FileTransfer.Invariant.Receive.{
  is_pending-eq-false, file_transfer_handle_packet-IsValid,
}
use rmtdos_utils.FileTransfer.Upload.{FromSender, begins, sends, ends, IsIntact}

module _ {W : Type 0} (int21 : Int21 W) (content : W → ℕ → List ℕ) (net : Net) (file : List ℕ)
    {s : FileTransferState} {w : W} (h : IsIntact int21 content net file s w) (frame : List ℕ) where
  put_begin-IsIntact :
      s.pending_op ≡ FileOp.no_op
      → get_be32 frame 30 ≡ length file
      → IsValid (handle_put_begin frame s)
      → IsIntact int21 content net file (handle_put_begin frame s) w
  unfolding handle_put_begin
  put_begin-IsIntact idle size v = ground arith

  put_end-IsIntact :
      s.pending_op ≡ FileOp.no_op
      → IsValid (handle_put_end frame s)
      → IsIntact int21 content net file (handle_put_end frame s) w
  unfolding handle_put_end
  put_end-IsIntact idle v = ground arith

  put_data-IsIntact :
      s.pending_op ≡ FileOp.no_op
      → get_be32 frame 30 + get_be16 frame 34 ≤ length file
      → take (get_be16 frame 34) (drop 36 frame)
        ≡ take (get_be16 frame 34) (drop (get_be32 frame 30) file)
      → IsValid (handle_put_data frame s)
      → IsIntact int21 content net file (handle_put_data frame s) w
  unfolding handle_put_data
  put_data-IsIntact idle within same v =
      let count = get_be16 frame 34 in
      let bytes = take count (drop 36 frame) in
      let full : length bytes ≡ count = rw same (
        omega (
          arith,
          length-take count (drop (get_be32 frame 30) file),
          length-drop (get_be32 frame 30) file,
        )) in
      ground (arith, take-overlay_of_length count bytes s.chunk full)

  pub handle_packet-IsIntact :
      158 ≤ length frame
      → FromSender file frame
      → IsIntact int21 content net file (file_transfer_handle_packet frame s) w
  handle_packet-IsIntact room from = elim (Bool-cases (is_pending s.pending_op)) [
    | inl waits ↦ unfold file_transfer_handle_packet in rw waits h
    | inr ready ↦
        let idle = is_pending-eq-false s.pending_op ready in
        let v = file_transfer_handle_packet-IsValid frame room h.valid in
        elim from [
          | begins kind size ↦
              let e : file_transfer_handle_packet frame s ≡ handle_put_begin frame s =
                unfold file_transfer_handle_packet dispatch in rw (ready, kind) in
              rw e (put_begin-IsIntact idle size (rw e at v))
          | sends kind within same ↦
              let e : file_transfer_handle_packet frame s ≡ handle_put_data frame s =
                unfold file_transfer_handle_packet dispatch in rw (ready, kind) in
              rw e (put_data-IsIntact idle within same (rw e at v))
          | ends kind ↦
              let e : file_transfer_handle_packet frame s ≡ handle_put_end frame s =
                unfold file_transfer_handle_packet dispatch in rw (ready, kind) in
              rw e (put_end-IsIntact idle (rw e at v))
        ]
  ]
