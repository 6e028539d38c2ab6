-- ===== src/Hotkey.antt =====
-- src/main.c: the state machine that recognises hotkey sequences in the stream of input events,
-- the capture of the input devices, and the interval timer.
pub mod State
pub mod Step
pub mod Valid
pub mod Invariant
pub mod Loop
pub mod Passes
pub mod Reach
pub mod Interrupt
pub mod Typing
pub mod Log
pub mod Sequence
pub mod Frame
pub mod Overflow
pub mod Ending
pub mod Reads
pub mod Loaded
