-- ===== src/Ascii.antt =====
-- src/asciitab.c and the functions of src/main.c that send characters: which keys type a character
-- on a Kindle DX and on a Kindle 3.
pub mod Row
pub mod Kdxg
pub mod Kindle3
pub mod Lookup
pub mod Send
pub mod Popup
pub mod Case
