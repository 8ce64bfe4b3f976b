-- ===== src/ProjManager.antt =====
-- internal/projmanager: from environments and filters to filtered environments.
pub mod Manager
pub mod Router
