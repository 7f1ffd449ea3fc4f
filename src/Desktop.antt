-- ===== src/Desktop.antt =====
-- apps/desktop/src-tauri/src: the desktop application.
pub mod AtomicFile
