-- ===== src/Tests/Screen.antt =====
-- Tests of the status bar of src/statusbar.c.
use kindle_launchpad.Base.{
  ◌≡◌, ◌≤◌, ℕ, refl, pos, List, [], ◌∷◌, Bytes, codes, replicate, length, length-replicate, fault,
  ok, ◌>>=◌, arith,
}
use kindle_launchpad.Pixop.Surface.{Pixmap}
use kindle_launchpad.Screen.Area.{screen_string_at}
use kindle_launchpad.Screen.Bar.{statusbar_show, statusbar_hide}
use kindle_launchpad.Screen.Drawing.{font_size}
use kindle_launchpad.Screen.Session.{BarCall, text, flash, run_calls, statusbar_hide-statusbar_show}

abbrev blank_font : Bytes
blank_font = replicate 33792 0

abbrev narrow : Pixmap
narrow = record { width = 2; height = 31; surf = replicate 31 7 }

abbrev calls : List BarCall
calls = text (codes "^[Q 1]") ∷ flash 1 ∷ text (codes "Success!") ∷ []

-- The empty string is read behind its end.
empty_string_faults :
    screen_string_at [] (record { width = 12; height = 22; surf = replicate 132 0 }) 0 (pos 0) []
    ≡ fault
unfolding screen_string_at
empty_string_faults = refl

font_is_whole : font_size ≤ length blank_font
font_is_whole = let e = length-replicate {A = ℕ} 33792 0 in omega (arith, e)

show_example :
    (statusbar_show narrow >>= λ s. run_calls blank_font s.0 calls >>= λ u. statusbar_hide u s.1)
    ≡ ok narrow
show_example =
    statusbar_hide-statusbar_show blank_font narrow calls font_is_whole refl (omega arith)
      (omega arith) (omega arith, omega arith) (omega arith, (omega arith, tt))
