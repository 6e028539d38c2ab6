-- ===== src/Hotkey/Loaded.antt =====
-- The machine of src/main.c with the table that src/launchpad.c loads.
use kindle_launchpad.Launchpad.Action.{Action}
use kindle_launchpad.Launchpad.State.{Launchpad}
use kindle_launchpad.Rce.Config.{Rce}
use kindle_launchpad.Hotkey.State.{Hotkey}
