-- ===== src/Transfer.antt =====
-- A client and a server on one cable: client/network.c and client/file_transfer.c over
-- server/file_transfer.c. Between two frames of the client DOS is idle once.
pub mod Exchange
pub mod Packets
pub mod Server
pub mod Upload
use rmtdos_utils.Prelude.{ℕ, Bool, true, false, Option, none, some, List, [], ◌∷◌, ◌++◌}
use rmtdos_utils.FileTransfer.State.{FileTransferState}
use rmtdos_utils.FileTransfer.Dos.{Int21}
use rmtdos_utils.FileTransfer.Send.{Net}
use rmtdos_utils.FileTransfer.Receive.{file_transfer_handle_packet}
use rmtdos_utils.FileTransfer.Idle.{Sent, file_transfer_process_idle}
use rmtdos_utils.Client.{Link}

-- The server's state, its disk, and the frames that the client has not received yet.
pub record World (W : Type 0) : Type 0 where
  pub server : FileTransferState
  pub disk : W
  pub inbox : List (List ℕ)

module _ {W : Type 0} (int21 : Int21 W) (fuel : ℕ) (net : Net) (rest : List ℕ) where
  -- The server takes a frame, with `rest` behind it in the receive buffer, and then DOS is idle.
  unfoldable pub serve : List ℕ → FileTransferState → W → Option (Sent W)
  serve packet s w =
      file_transfer_process_idle int21 fuel net (file_transfer_handle_packet (packet ++ rest) s) w

  unfoldable pub deliver : List ℕ → World W → World W
  unfolding serve
  deliver packet v = elim (serve packet v.server v.disk) [
    | none ↦ v
    | some (s, w, frames) ↦ record { server = s; disk = w; inbox = v.inbox ++ frames }
  ]

  unfoldable pub take_frame : World W → Option (List ℕ) × World W
  take_frame v = elim v.inbox [ [] ↦ (none, v) | f ∷ fs ↦ (some f, record v { inbox = fs }) ]

  abbrev pub cable : Link (World W)
  cable = record { sendto = λ packet v. (true, deliver packet v); recv = take_frame }
