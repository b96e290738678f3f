-- ===== src/Tests/Serving.antt =====
-- A ping and keystrokes, and a loop over one ready buffer.
use rmtdos_utils.Prelude.{ℕ, ◌≡◌, ◌+◌, refl, arith, List, [], ◌∷◌, ◌++◌, replicate}
use rmtdos_utils.Wire.{frame, combined_header_len}
use rmtdos_utils.Wire.PktType
use rmtdos_utils.BufMgr.{buffer_init}
use rmtdos_utils.FileTransfer.State.{file_transfer_init}
use rmtdos_utils.FileTransfer.Invariant.{file_transfer_init-IsValid}
use rmtdos_utils.Session.{session_mgr_init}
use rmtdos_utils.Session.Video.{VideoState}
use rmtdos_utils.Protocol.{
  Keystroke, Served, Server, Env, protocol_process, handle_ping, handle_inject_keystroke,
}
use rmtdos_utils.Protocol.Drain.{Drained, protocol_process-Drained, serve_all}
use rmtdos_utils.Protocol.Replies.{key_bytes, handle_ping-frame, handle_inject_keystroke-frame}
use rmtdos_utils.Session.Unique.{session_mgr_init-HasUnique}
use rmtdos_utils.Protocol.Safety.{IsSound, signed, serve_all-IsSound}
use rmtdos_utils.Tests.{server_net, client_mac, server_mac}
use rmtdos_utils.Tests.Buffers.{marked, marked-IsLinked}

abbrev video : VideoState
video = record {
  video_mode = 3;
  active_page = 0;
  text_rows = 25;
  text_cols = 80;
  cursor_row = 1;
  cursor_col = 2;
}

abbrev env : Env
env = record { net = server_net; now = λ p. 500; video = λ p. video; beyond = λ p. [] }

abbrev served : Served
served = record { file = file_transfer_init; sessions = session_mgr_init; keys = []; sent = [] }

abbrev server : Server
server = record { buffers = marked; served = served }

protocol_process-Drained_example :
    Drained env (1 ∷ []) (0 ∷ []) server (protocol_process 2 env server)
protocol_process-Drained_example =
    protocol_process-Drained env (1 ∷ []) (0 ∷ []) server marked-IsLinked

serve_all-IsSound_example :
    IsSound 4 (serve_all env (buffer_init 2).buffers (0 ∷ 1 ∷ []) served)
    × (serve_all env (buffer_init 2).buffers (0 ∷ 1 ∷ []) served
        ≡ serve_all env
            (buffer_init 2).buffers
            (signed (buffer_init 2).buffers (0 ∷ 1 ∷ []))
            served)
unfolding buffer_init session_mgr_init
serve_all-IsSound_example =
    serve_all-IsSound env (buffer_init 2).buffers 4 (0 ∷ 1 ∷ []) served (λ p. refl)
      (record {
        file_valid = file_transfer_init-IsValid;
        table_size = refl;
        no_double = session_mgr_init-HasUnique;
      })

abbrev greeting : List ℕ
greeting = 104 ∷ 105 ∷ []

handle_ping-frame_example :
    handle_ping server_net
      (combined_header_len + 2)
      (frame server_mac client_mac 0x80ab 7 2 PktType.ping greeting ++ replicate 32 0)
    ≡ frame client_mac server_mac 0x80ab 7 2 PktType.pong greeting
handle_ping-frame_example =
    handle_ping-frame server_net server_mac client_mac 0x80ab 7 greeting (replicate 32 0)
      (omega arith) (omega arith)

abbrev keys : List Keystroke
keys =
    record { bios_scan_code = 30; ascii_value = 97; flags_17 = 0 }
    ∷ record { bios_scan_code = 48; ascii_value = 98; flags_17 = 0 }
    ∷ []

handle_inject_keystroke-frame_example :
    handle_inject_keystroke
      (frame server_mac client_mac 0x80ab 7 8 PktType.inject_keystroke (key_bytes keys) ++ 0 ∷ [])
    ≡ keys
handle_inject_keystroke-frame_example =
    handle_inject_keystroke-frame server_mac client_mac 0x80ab 7 keys (0 ∷ []) (omega arith)
