-- ===== src/Screen.antt =====
-- src/screen.c, src/statusbar.c and src/font.c: text and the status bar on the screen.
pub mod Font
pub mod Area
pub mod Bar
pub mod Drawing
pub mod RoundTrip
pub mod Session
