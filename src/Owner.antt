-- ===== src/Owner.antt =====
-- owner/: the profile of the owner of the node, the view of what others wrote, and the directory in
-- which the data of an owner are kept.
pub mod Profile
pub mod View
pub mod Account
