-- ===== src/Lib.antt =====
-- rmtdos-utils: remote control of DOS machines over raw Ethernet.
--
-- The DOS server (tools/cga-web/src/server) is a resident program. The packet driver's interrupt puts
-- received frames in the buffers of bufmgr.c. On every timer tick `protocol_process` of protocol.c
-- takes the ready buffers one by one and serves them: pings, status requests, keystrokes, session
-- starts (session.c) and the requests of a file transfer (file_transfer.c). Then
-- `session_mgr_update_all` sends the screen to the clients whose session is alive. A file request
-- only writes down the operation; DOS is called when it is idle, by `file_transfer_process_idle`,
-- which does the operation and sends the reply.
--
-- The modules, and the code each is about (paths below tools/cga-web/src):
--   Prelude          lists, tests and machine words that all modules share
--   Wire             common/protocol.h, common/ethernet.h: frames and constants of the protocol
--   BufMgr           server/bufmgr.c, server/bufmgr.h: the free and the ready list
--   FileTransfer     server/file_transfer.c: State is `struct FileTransferState`, Dos the `dos_*`
--                    wrappers, Path the path functions, Send the replies, Receive
--                    `file_transfer_handle_packet` with a function for each case, Dir and Copy the
--                    directory listing and the file copy, Idle `file_transfer_process_idle` with a
--                    function for each case. Invariant, Upload and the modules below Path, Send, Dir,
--                    Copy and Idle hold what is proved.
--   Session          server/session.c: the table of sessions (Session, Table, Unique), the screen
--                    updates (Session.Video)
--   Protocol         server/protocol.c: the handlers, and the loop with its switch
--   Client           the Linux client: client/network.c (Client), the upload and the download of
--                    client/file_transfer.c (Client.Put, Client.Get), session mode of
--                    client/keyboard.c with its key map and client/keysyms.h (Client.Keyboard),
--                    client/hostlist.c (Client.Hosts), and what client/main.c does with frames of
--                    the servers and with keys of its menu (Client.Screen). Client.Screen.Mirror runs
--                    the screen updates of the server against it.
--   Transfer         the client's upload against the server, on one cable
--   FileCommander    the file manager, tools/file-commander/src: net/remote_dir.c (RemoteDir), the
--                    operations on paths of net/file_transfer.c (PathOps), `remote_path_join` of
--                    ui/commander.c (RemotePath)
--   Tests            the theorems at concrete inputs
--
-- State is passed explicitly: a handler takes the globals of its component as a record and gives the
-- new ones. Frames handed to `pktdrv_send` are lists of bytes, as long as the length it is given;
-- what `pktdrv_send` does with them is not modelled. A buffer is named by its index and a session by
-- its place in the table. Integers are natural numbers with the wrap-around of their C type written
-- out where it can happen.
--
-- The client's network, the local file that it reads, interrupt 21h (DOS), the screen and its
-- checksum, the tick clock, the keys that the terminal reports and the memory behind a receive buffer
-- are parameters. What a theorem needs of DOS is a named record: `Stores`, `Accepts`, `Serves`,
-- `ReadsAtMost`, `Readable`, `Found`; of the network, `Quiet`, `Honest` and `Shows`. The client runs on
-- a machine with little-endian words, which the flags of a keystroke show.
--
-- Loops: `collect_loop`, `copy_loop` and `protocol_process` take fuel. A listing needs as much fuel as
-- there are entries, a copy more than there are bytes, and the packet loop one more than there are
-- ready buffers; the theorems on them prove that the result is reached with it. The client's wait
-- for an acknowledgement takes as much fuel as frames may come before it ends, its loop over a file
-- one round more than there are bytes. The loop over the hosts takes
-- one call more than there are slots. The other loops are structural.
--
-- Not modelled: interrupts that arrive inside `protocol_process`, which would make further buffers
-- ready; debug output; the assembly of lib16 and the interrupt entries; installation and removal of
-- the resident program; the client's windows, web view and command line; the
-- host list and the panels of tools/file-commander, whose net/raw_socket.c and transfers of whole
-- files repeat the code of the other client; the launcher src/rmtdos-utils.c.
pub mod Prelude
pub mod Wire
pub mod BufMgr
pub mod FileTransfer
pub mod Session
pub mod Protocol
pub mod Client
pub mod Transfer
pub mod FileCommander
pub mod Tests
