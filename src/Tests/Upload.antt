-- ===== src/Tests/Upload.antt =====
-- A file of two bytes is uploaded.
use rmtdos_utils.Prelude.{
  ℕ, ◌≡◌, refl, arith, List, [], ◌∷◌, ◌++◌, some, none, be16, be32, replicate,
}
use rmtdos_utils.Wire.{frame}
use rmtdos_utils.Wire.PktType
use rmtdos_utils.FileTransfer.State.{FileTransferState, file_transfer_init}
use rmtdos_utils.FileTransfer.Dos.{dos_create_file, dos_write_file, dos_close_file}
use rmtdos_utils.FileTransfer.Send.{send_file_ack, file_ack_payload}
use rmtdos_utils.FileTransfer.Dos.{Int21, create, write}
use rmtdos_utils.FileTransfer.Receive.{
  dispatch, handle_put_begin, handle_put_data, handle_put_end, field_string, remember_client,
  queue_ack, file_transfer_handle_packet,
}
use rmtdos_utils.FileTransfer.Idle.{
  process_op, idle_put_begin, idle_put_data, idle_put_end, acknowledge, close_active, Sent,
  file_transfer_process_idle,
}
use rmtdos_utils.FileTransfer.Upload.{
  Stores, Reach, IsIntact, begins, sends, ends, arrives, works, here, next,
}
use rmtdos_utils.FileTransfer.Upload.Complete.{Reach-IsIntact, upload_complete}
use rmtdos_utils.Tests.{server_net, packet, accepts}

-- A disk with one file, its content: handle 5.
abbrev pub disk : Int21 (List ℕ)
disk w (create attributes path) = ([], accepts 5 [])
disk w (write handle count bytes) = (w ++ bytes, accepts count [])
disk w _ = (w, accepts 0 [])

abbrev pub content : List ℕ → ℕ → List ℕ
content w handle = w

pub disk-Stores : Stores disk content
disk-Stores = record {
  created = λ w a p e. refl;
  appended = λ w h n b e f. refl;
  closed = λ w h o. refl;
}

abbrev pub file : List ℕ
file = 65 ∷ 66 ∷ []

abbrev begin_packet : List ℕ
begin_packet = packet PktType.file_put_begin 72 (be32 1 ++ (be32 2 ++ 88 ∷ replicate 63 0))

abbrev chunk_packet : List ℕ
chunk_packet = packet PktType.file_put_data 12 (be32 1 ++ (be32 0 ++ (be16 2 ++ file)))

abbrev end_packet : List ℕ
end_packet = packet PktType.file_put_end 8 (be32 1 ++ be32 2)

abbrev idle : FileTransferState → List ℕ → Sent (List ℕ)
idle s w = elim (file_transfer_process_idle disk 0 server_net s w) [
  | none ↦ (s, w, [])
  | some r ↦ r
]

abbrev s1 : FileTransferState
s1 = file_transfer_handle_packet begin_packet file_transfer_init

abbrev r1 : Sent (List ℕ)
r1 = idle s1 []

abbrev s2 : FileTransferState
s2 = file_transfer_handle_packet chunk_packet r1.0

abbrev r2 : Sent (List ℕ)
r2 = idle s2 r1.1

abbrev s3 : FileTransferState
s3 = file_transfer_handle_packet end_packet r2.0

to_begin : Reach disk content server_net file file_transfer_init [] r1.0 r1.1
unfolding file_transfer_handle_packet dispatch handle_put_begin handle_put_data handle_put_end
    field_string remember_client queue_ack file_transfer_process_idle process_op idle_put_begin
    idle_put_data idle_put_end acknowledge close_active dos_create_file dos_write_file
    dos_close_file frame file_transfer_init send_file_ack file_ack_payload
to_begin =
    next (next here (arrives begin_packet (omega arith) (begins refl refl) refl refl))
      (works 0 r1.2 refl (λ e. cc))

to_chunk : Reach disk content server_net file file_transfer_init [] r2.0 r2.1
unfolding file_transfer_handle_packet dispatch handle_put_begin handle_put_data handle_put_end
    field_string remember_client queue_ack file_transfer_process_idle process_op idle_put_begin
    idle_put_data idle_put_end acknowledge close_active dos_create_file dos_write_file
    dos_close_file frame file_transfer_init send_file_ack file_ack_payload
to_chunk =
    next
      (next to_begin (arrives chunk_packet (omega arith) (sends refl (omega arith) refl) refl refl))
      (works 0 r2.2 refl (λ e. refl))

to_end : Reach disk content server_net file file_transfer_init [] s3 r2.1
unfolding file_transfer_handle_packet dispatch handle_put_begin handle_put_data handle_put_end
    field_string remember_client queue_ack file_transfer_process_idle process_op idle_put_begin
    idle_put_data idle_put_end acknowledge close_active dos_create_file dos_write_file
    dos_close_file frame file_transfer_init send_file_ack file_ack_payload
to_end = next to_chunk (arrives end_packet (omega arith) (ends refl) refl refl)

Reach-IsIntact_example : IsIntact disk content server_net file s3 r2.1
Reach-IsIntact_example =
    Reach-IsIntact disk content server_net file disk-Stores (omega arith) to_end

abbrev r3 : Sent (List ℕ)
r3 = idle s3 r2.1

upload_complete_example : r3.1 ≡ file
unfolding file_transfer_handle_packet dispatch handle_put_begin handle_put_data handle_put_end
    field_string remember_client queue_ack file_transfer_process_idle process_op idle_put_begin
    idle_put_data idle_put_end acknowledge close_active dos_create_file dos_write_file
    dos_close_file frame file_transfer_init send_file_ack file_ack_payload
upload_complete_example =
    upload_complete disk content server_net file disk-Stores (omega arith) 0 to_end refl refl refl
