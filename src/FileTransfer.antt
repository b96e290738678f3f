-- ===== src/FileTransfer.antt =====
-- The DOS side of file transfer, tools/cga-web/src/server/file_transfer.c.
pub mod State
pub mod Upload
pub mod Dos
pub mod Path
pub mod Send
pub mod Receive
pub mod Dir
pub mod Copy
pub mod Idle
pub mod Invariant
