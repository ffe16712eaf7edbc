-- ===== src/Page.antt =====
-- apps/web/pages/index.tsx: the file list that follows the manifest, and the upload of a file.
pub mod Refresh
pub mod Upload
pub mod Drag
pub mod Widget
