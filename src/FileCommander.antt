-- ===== src/FileCommander.antt =====
-- The Linux file manager, tools/file-commander/src. Its net/raw_socket.c sends the frames of
-- `Client.packet_buffer`.
pub mod PathOps
pub mod RemoteDir
pub mod RemotePath
