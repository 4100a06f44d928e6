-- ===== src/Web.antt =====
-- cmd/dscuss-web/: the web client of the owner of a node.
pub mod Sessions
pub mod Http
pub mod Acting
pub mod Posting
pub mod Moderating
pub mod Settings
pub mod Browsing
pub mod Entering
pub mod Serving
