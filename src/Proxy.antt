-- ===== src/Proxy.antt =====
-- images/dataplane/src/proxy.rs: the path of a request through the proxy.
pub mod Headers
pub mod Encode
pub mod Reply
pub mod Effects
pub mod Subrequest
pub mod Upstream
pub mod Forward
pub mod Resolve
pub mod Guard
pub mod Handler
