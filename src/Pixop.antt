-- ===== src/Pixop.antt =====
-- src/pixop.c: operations on pixmaps of four bits per pixel.
pub mod Surface
pub mod Draw
pub mod Clip
pub mod Bounds
pub mod Rows
pub mod Kept
