-- ===== src/Grpc.antt =====
-- images/dataplane/src/grpc.rs: the watcher of the certificate files and the loop that keeps the
-- snapshot stream.
pub mod Watcher
pub mod Connect
pub mod Stream
pub mod Start
