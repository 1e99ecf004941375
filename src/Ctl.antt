-- ===== src/Ctl.antt =====
-- internal/ctl: the control service of a pipeline.
pub mod Removal
pub mod Rewriting
pub mod Sources
pub mod Rules
pub mod Functions
pub mod Extensions
pub mod Requests
