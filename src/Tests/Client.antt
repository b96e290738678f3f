-- ===== src/Tests/Client.antt =====
-- A client uploads two bytes: no one answers, or a server does at once.
use rmtdos_utils.Prelude.{
  ℕ, refl, arith, Bool, List, [], ◌∷◌, ◌++◌, true, false, Option, some, none, be16, be32, get_be16,
  if_intro, ◌==◌,
}
use rmtdos_utils.Wire.{frame}
use rmtdos_utils.Wire.PktType
use rmtdos_utils.Client.{RawSocket, Link}
use rmtdos_utils.Client.Ending.{Ends, file_transfer_put-Ends}
use rmtdos_utils.Client.Put.{recv_file_ack, is_file_ack, LocalFile, file_transfer_put}
use rmtdos_utils.Client.Sender.{EndsSending, IsOfSender, file_transfer_put-Sends}
use rmtdos_utils.Tests.{server_mac, client_mac}

abbrev sock : RawSocket
sock = record { if_addr = client_mac; ethertype = 0x80ab; session_id = 7 }

abbrev bytes : List ℕ
bytes = 65 ∷ 66 ∷ []

abbrev local : LocalFile
local = record { st_size = some 2; opens = true; readable = bytes; ferror = false }

-- A network on which every second wait brings a frame of someone else, and no answer.
abbrev stray_frame : Bool → Option (List ℕ) × Bool
stray_frame true = (some (0 ∷ []), false)
stray_frame false = (none, true)

abbrev noisy_link : Link Bool
noisy_link = record { sendto = λ f w. (true, w); recv = stray_frame }

noisy_link-Ends :
    (command : ℕ) (w : Bool) → Ends (recv_file_ack noisy_link sock server_mac 1 2 command w)
unfolding recv_file_ack is_file_ack
noisy_link-Ends command true = tt
noisy_link-Ends command false = tt

file_transfer_put-Ends_example :
    Ends (file_transfer_put noisy_link sock server_mac 1 2 local (88 ∷ []) true)
file_transfer_put-Ends_example =
    file_transfer_put-Ends noisy_link sock server_mac 1 2 (record { wait_ends = noisy_link-Ends })
      local (88 ∷ []) true

abbrev ack : ℕ → ℕ → List ℕ
ack command offset =
    frame client_mac server_mac 0x80ab 7 12 PktType.file_ack
      (be32 1 ++ (be16 command ++ (be16 0 ++ be32 offset)))

-- The answers to the begin, to the chunk and to the end, to be received one after the other.
abbrev answers : List (List ℕ)
answers = ack 1 0 ∷ ack 2 2 ∷ ack 3 2 ∷ []

-- At most one frame comes at a time.
abbrev next_frame : Bool × List (List ℕ) → Option (List ℕ) × (Bool × List (List ℕ))
next_frame (false, fs) = (none, (true, fs))
next_frame (true, []) = (none, (true, []))
next_frame (true, f ∷ fs) = (some f, (false, fs))

abbrev server_link : Link (Bool × List (List ℕ))
server_link = record { sendto = λ f w. (true, (true, w.1)); recv = next_frame }

server_link-Ends :
    (command : ℕ) (w : Bool × List (List ℕ))
    → Ends (recv_file_ack server_link sock server_mac 1 2 command w)
unfolding recv_file_ack
server_link-Ends command (false, fs) = tt
server_link-Ends command (true, []) = tt
server_link-Ends command (true, f ∷ fs) =
    let P : Option (Option ℕ × (Bool × List (List ℕ))) → Type 0 = λ r. Ends r in
    if_intro P (is_file_ack sock server_mac 1 command f) (if_intro P (get_be16 f 32 == 0) tt tt) tt

file_transfer_put-Sends_example :
    EndsSending
      (IsOfSender bytes)
      (file_transfer_put server_link sock server_mac 1 2 local (88 ∷ []) (true, answers))
file_transfer_put-Sends_example =
    file_transfer_put-Sends sock server_mac 1 bytes (omega arith) server_link local refl 2 (88 ∷ [])
      (true, answers) (record { wait_ends = server_link-Ends }) refl
