-- ===== src/Launchpad.antt =====
-- src/launchpad.c: the table of actions, how it is loaded from the configuration, and how a key
-- sequence finds its action.
pub mod Action
pub mod Sequence
pub mod Command
pub mod State
pub mod Load
pub mod Script
pub mod SendKeys
pub mod Execute
