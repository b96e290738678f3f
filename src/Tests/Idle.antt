-- ===== src/Tests/Idle.antt =====
-- One packet and one idle call.
use rmtdos_utils.Prelude.{ℕ, refl, arith, List, [], ◌∷◌, ◌++◌, some, none, be16, be32, replicate}
use rmtdos_utils.Wire.PktType
use rmtdos_utils.Wire.{frame}
use rmtdos_utils.FileTransfer.State.{FileTransferState, file_transfer_init}
use rmtdos_utils.FileTransfer.Dos.{Int21, read}
use rmtdos_utils.FileTransfer.Send.{send_file_get_data, send_dir_list_data, send_file_ack}
use rmtdos_utils.FileTransfer.Send.Replies.{
  WellFormed, send_file_ack-WellFormed, send_file_get_data-WellFormed,
  send_dir_list_data-WellFormed,
}
use rmtdos_utils.FileTransfer.Receive.{
  file_transfer_handle_packet, dispatch, handle_path_op, remember_client,
}
use rmtdos_utils.FileTransfer.Idle.{
  Sent, file_transfer_process_idle, process_op, acknowledge, idle_mkdir,
}
use rmtdos_utils.FileTransfer.Invariant.{IsValid, file_transfer_init-IsValid}
use rmtdos_utils.FileTransfer.Invariant.Receive.{file_transfer_handle_packet-IsValid}
use rmtdos_utils.FileTransfer.Invariant.Cases.{ReadsAtMost}
use rmtdos_utils.FileTransfer.Invariant.Idle.{Replied, file_transfer_process_idle-Replied}
use rmtdos_utils.Tests.{server_net, packet, accepts}

-- A disk that grants every call and reads zeros.
abbrev disk : Int21 (Unit {0})
disk w (read handle count) = (w, accepts count (replicate count 0))
disk w _ = (w, accepts 5 [])

disk-ReadsAtMost : ReadsAtMost disk
disk-ReadsAtMost = record { at_most = λ w handle count. omega arith }

abbrev mkdir_packet : List ℕ
mkdir_packet = packet PktType.file_mkdir 72 (be32 1 ++ (be16 0 ++ (be16 0 ++ 88 ∷ replicate 63 0)))

abbrev asked : FileTransferState
asked = file_transfer_handle_packet mkdir_packet file_transfer_init

asked-IsValid : IsValid asked
unfolding frame
asked-IsValid =
    file_transfer_handle_packet-IsValid mkdir_packet (omega arith) file_transfer_init-IsValid

file_transfer_handle_packet-IsValid_example : IsValid asked
unfolding frame
file_transfer_handle_packet-IsValid_example =
    file_transfer_handle_packet-IsValid mkdir_packet (omega arith) file_transfer_init-IsValid

abbrev answer : Sent (Unit {0})
answer = elim (file_transfer_process_idle disk 0 server_net asked tt) [
  | none ↦ (asked, tt, [])
  | some r ↦ r
]

file_transfer_process_idle-Replied_example : Replied answer
unfolding file_transfer_process_idle process_op acknowledge idle_mkdir file_transfer_handle_packet
    dispatch handle_path_op remember_client file_transfer_init frame
file_transfer_process_idle-Replied_example =
    file_transfer_process_idle-Replied disk disk-ReadsAtMost 0 server_net asked tt asked-IsValid
      (cc) refl

send_file_ack-WellFormed_example : WellFormed (send_file_ack server_net asked 1 0 512)
send_file_ack-WellFormed_example = send_file_ack-WellFormed server_net asked 1 0 512

send_file_get_data-WellFormed_example :
    WellFormed (send_file_get_data server_net file_transfer_init 0).1
unfolding file_transfer_init
send_file_get_data-WellFormed_example =
    send_file_get_data-WellFormed server_net file_transfer_init 0 refl (omega arith)

send_dir_list_data-WellFormed_example :
    WellFormed (send_dir_list_data server_net file_transfer_init 0 16)
unfolding file_transfer_init
send_dir_list_data-WellFormed_example =
    send_dir_list_data-WellFormed server_net file_transfer_init 0 16 refl
      file_transfer_init-IsValid.entries_named (omega arith)
