-- ===== src/Lib.antt =====
-- A model of launchpad, the hotkey daemon for Kindle keyboards written in C, and proofs about it.
--
-- The program reads key events from the keyboard, the five-way controller and (Kindle 3) the volume
-- buttons. An introducer key opens hot mode, in which the devices are captured and the keys are
-- collected; a trailer key or a timer ends it, the collected sequence is looked up in a table of
-- actions, and the action is run. Names of keys, the table of actions and the settings come from
-- configuration files; actions send characters to the system or draw on the screen.
--
-- - Base: lists over the native numbers, C's `int` as unbounded integers, byte strings with the
--   functions of the C library that the program calls, and `Outcome`, the result of code that may
--   leave the memory it owns (`fault`) or run out of fuel (`no_fuel`). Strings has strncpy, strcpy
--   into an array of a size, and strtok_r; Words describes what strtok_r cuts; Parts is about the
--   parts of lists.
-- - Keys: src/keydefs.c, include/keydefs.h and the lookups of src/launchpad.c. Codes and Table are
--   the constants and the tables; Names has get_default_input_keydefs, get_key_substitute_code,
--   find_input_key_code and input_key_name; Convert has convert_key_code with `atoi`; Load has
--   get_input_keydefs, and Load/Rows what it leaves in the table.
-- - Launchpad: src/launchpad.c. Action has `struct action` and find_sequence_action; State has the
--   static variables and the section [Settings]; Sequence has parse_action_sequence, Command
--   parse_action_command, Load process_ini_file and launchpad_init. Script has
--   process_kindle_script, SendKeys process_sendkeys_command, and Execute execute_action. Their
--   children are the proofs: Load/Table and Load/Loading about the table that is loaded,
--   Sequence/Words, Script/Tokens and SendKeys/Items about what is read, State/Paths about the paths
--   of devices, Command/Types about types of actions, Execute/Keys and Execute/Bracket about what is
--   executed.
-- - Hotkey: src/main.c. State is the static variables and the log of what is sent, run, captured and
--   armed; Step has process_input_event and alarm_handler; Loop has a pass of the event loop of
--   main() with the answers of select() and read() as arguments; Valid, Invariant, Passes and Reach
--   have the invariants and the reachable states, and Interrupt those with alarms inside a pass;
--   Typing, Log, Frame, Sequence and Ending say what a typed sequence comes to; Overflow and Reads are
--   about the bounds of hot_sequence and about failed reads; Loaded joins the machine with the table
--   that src/launchpad.c loads.
-- - IniFile: src/inifile.c. Scan has the scanning functions, Parse has parse_ini_file and
--   create_db_structure over one buffer that the parser writes terminators into, Access has the
--   functions that read a database, Open has inidb_open. Progress, Bounds, Inside and Safety are
--   about its bounds and its end, Tables, Consistency and Finding about what its two tables say of
--   one another.
-- - Ascii: src/asciitab.c and the senders of src/main.c. Kdxg and Kindle3 are the tables, Lookup the
--   lookups, Send has send_key, send_ascii_string and send_kindle_input_key; Popup is the symbols
--   popup as a machine that the keys drive, Case is about capital letters.
-- - Pixop: src/pixop.c. Surface has pixmaps, memset and memcpy, Draw the operations; Clip and Bounds
--   are about bounds, Rows and Kept about what is copied and what stays.
-- - Rce: src/rce.c. Config has the settings, Init rce_init, Process rce_start and rce_process, and
--   Control is about the two messages that enable and disable it.
-- - Screen: Font is src/font.c, Area src/screen.c and Bar src/statusbar.c; Drawing, RoundTrip and
--   Session are about the status bar from its showing to its hiding.
-- - Screenshot: src/screenshot.c.
-- - Tests: runs of the model on concrete inputs, and instances of the theorems.
--
-- A record stands for the static variables of a source file, and a function from state to state for
-- a C function that changes them. Reading or writing out of an array, or through a null pointer, is a
-- `fault`. `char` is unsigned, as on the ARM devices that the program is built for; `short` codes are
-- natural numbers. An `int` is an unbounded integer, but for the sums of pix_fill and pix_blt on places
-- and sizes: one that is no 32-bit `int` is undefined in C, and a `fault` here. MAXSEQ, MAXKEYS and MAXCODE are the
-- constants of include/launchpad.h.
--
-- The loop of parse_ini_file has a round of fuel for each byte of the buffer and one more: a round
-- goes ahead by at least a byte or stops at a zero byte. The loop of
-- process_sendkeys_command has a round for each byte of the command: a round takes at least one. All
-- other loops are by structural recursion.
--
-- Parameters: the hotkey machine takes `execute_action` as a function that gives the number of events
-- to skip, and the model of that function lists what it does. What select() and read() answer are
-- arguments of a pass of the loop; the model of Kindle and the delay between keys are arguments of the
-- senders; the bytes of configuration files, directories and scripts, of the font and of the
-- framebuffer, the addresses that the network gives, the messages that are received, and the answers
-- of the shell are arguments of the functions that read them.
--
-- SIGALRM is asynchronous: Hotkey/Interrupt has it between passes of the loop, between events, and
-- inside the handling of a key that is pressed in hot mode; all other theorems on the hotkey machine
-- are about events that are handled without an alarm inside.
--
-- Not modelled: failures of malloc, and a realloc that moves what it shrinks; the opening and mapping of the framebuffer and the updates of the
-- display, which are calls of its driver, flashing in a thread of its own, and the loading of other
-- fonts; the thread of remote command entry; the daemon with its lock file, its command line and its
-- log; and the later C++ program in src/core, src/domain and their neighbours.
pub mod Base
pub mod Keys
pub mod Launchpad
pub mod Hotkey
pub mod IniFile
pub mod Ascii
pub mod Pixop
pub mod Rce
pub mod Screen
pub mod Screenshot
mod Tests
