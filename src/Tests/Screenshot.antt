-- ===== src/Tests/Screenshot.antt =====
-- Tests of the screenshots of src/screenshot.c.
use kindle_launchpad.Base.{
  none, ℕ, ◌≡◌, refl, true, List, [], ◌∷◌, Option, some, Bytes, get_elem?, replicate, ok, ◌>>=◌,
  arith,
}
use kindle_launchpad.Screenshot.{Vinfo, Bitmap, do_screenshot}
use kindle_launchpad.Screenshot.Rows.{written_row, do_screenshot-written_row}

-- A screen of three rows of two bytes.
abbrev tiny : Vinfo
tiny = record { xres = 4; yres = 3; bits_per_pixel = 4 }

abbrev fb : Bytes
fb = 1 ∷ 2 ∷ 3 ∷ 4 ∷ 5 ∷ 6 ∷ []

abbrev garbage : ℕ → Bytes
garbage n = replicate n 9

abbrev rows_of : ℕ × Option Bitmap → List Bytes
rows_of (rc, some bmp) = bmp.rows
rows_of (rc, none) = []

misses_two_rows :
    do_screenshot (some fb) true (some tiny) garbage >>= (λ r. ok (rows_of r))
    ≡ ok ((9 ∷ 9 ∷ []) ∷ (9 ∷ 9 ∷ []) ∷ (5 ∷ 6 ∷ []) ∷ [])
unfolding do_screenshot
misses_two_rows = refl

row_example :
    (bmp : Bitmap) × (do_screenshot (some fb) true (some tiny) garbage ≡ ok (0, some bmp))
    × (get_elem? bmp.rows 2 ≡ some (written_row fb 2 3 (garbage 2) 2))
row_example = do_screenshot-written_row fb (some tiny) garbage tiny 2 2 refl refl refl (omega arith)
