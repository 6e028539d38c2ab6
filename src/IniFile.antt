-- ===== src/IniFile.antt =====
-- src/inifile.c: the reader of configuration files. A file is one buffer of bytes with a zero byte
-- behind it; the parser writes terminators into the buffer, and rows of two tables point into it.
pub mod Scan
pub mod Parse
pub mod Access
pub mod Open
pub mod Progress
pub mod Bounds
pub mod Inside
pub mod Safety
pub mod Tables
pub mod Consistency
pub mod Finding
