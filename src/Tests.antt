-- ===== src/Tests.antt =====
-- The theorems at concrete inputs, and the data of these runs.
mod Buffers
mod Client
mod Paths
mod Upload
mod Directory
mod Download
mod Commander
mod Copying
mod Idle
mod Sessions
mod Serving
mod Screens
mod Transfer
mod Typing
use rmtdos_utils.Prelude.{ℕ, List, [], ◌++◌, false, replicate}
use rmtdos_utils.Wire.{Mac, frame}
use rmtdos_utils.FileTransfer.Dos.{DosReply}
use rmtdos_utils.FileTransfer.Send.{Net}

abbrev pub server_mac : Mac
server_mac = record { b0 = 2; b1 = 0; b2 = 0; b3 = 0; b4 = 0; b5 = 1 }

abbrev pub client_mac : Mac
client_mac = record { b0 = 2; b1 = 0; b2 = 0; b3 = 0; b4 = 0; b5 = 9 }

abbrev pub server_net : Net
server_net = record { mac_addr = server_mac; ethertype = 0x80ab }

-- A client's packet in a receive buffer.
abbrev pub packet : ℕ → ℕ → List ℕ → List ℕ
packet kind payload_len payload =
    frame server_mac client_mac 0x80ab 7 payload_len kind payload ++ replicate 140 0

-- DOS accepts a call and answers with AX.
abbrev pub accepts : ℕ → List ℕ → DosReply
accepts ax stored = record { carry = false; ax = ax; bx = 0; dx = 0; es = 0; stored = stored }
