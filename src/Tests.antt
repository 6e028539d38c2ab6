-- ===== src/Tests.antt =====
-- Runs of the model on concrete inputs, and instances of the theorems.
mod Keys
mod Hotkey
mod IniFile
mod Ascii
mod Pixop
mod Launchpad
mod Rce
mod Screen
mod Screenshot
mod Commands
