-- ===== src/Keys.antt =====
-- src/keydefs.c and include/keydefs.h: the codes and the names of the input keys.
pub mod Codes
pub mod Table
pub mod Convert
pub mod Names
pub mod Laws
pub mod Load
