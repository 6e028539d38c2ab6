-- ===== src/Screen/Area.antt =====
-- src/screen.c: screen_string_at, screen_rect_at, screen_get_pixmap, screen_put_pixmap and
-- flash_thread, on the surface of the framebuffer. The updates of the display are not modelled.
use kindle_launchpad.Base.{
  ℕ, zero, suc, ◌+◌, ◌-◌, ◌/◌, ℤ, pos, ◌+ℤ◌, leb_ℤ, ltb, Option, none, some, if◌then◌else◌, Bytes,
  [], ◌∷◌, ◌++◌, length, get_elem?, Outcome, ok, fault, ◌>>=◌,
}
use kindle_launchpad.Pixop.Surface.{Pixmap, pixbuf_alloc}
use kindle_launchpad.Pixop.Draw.{pix_fill, pix_blt, pixmap_xtract}
use kindle_launchpad.Screen.Font.{fnt_width, fnt_height, get_char_pixmap}

unfoldable pub screen_rect_at : Pixmap → ℤ → ℤ → ℤ → ℤ → ℕ → Outcome (Pixmap × ℕ)
unfolding pix_fill
screen_rect_at surface x0 y0 w h color = pix_fill surface x0 y0 w h color

-- The pixmap that the part is copied into, after it.
unfoldable pub screen_get_pixmap : Pixmap → ℤ → ℤ → Pixmap → Outcome (Pixmap × ℕ)
unfolding pixmap_xtract
screen_get_pixmap surface x0 y0 dst = pixmap_xtract dst x0 y0 surface

unfoldable pub screen_put_pixmap : Pixmap → ℤ → ℤ → Pixmap → Outcome (Pixmap × ℕ)
unfolding pix_blt
screen_put_pixmap surface x0 y0 src = pix_blt surface x0 y0 src

-- `*p`, with the terminator behind the string; behind that it is out of the string.
abbrev char_or_fault : Option ℕ → Outcome ℕ
char_or_fault none = fault
char_or_fault (some c) = ok c

abbrev pub char_at : Bytes → ℕ → Outcome ℕ
char_at s p = char_or_fault (get_elem? (s ++ 0 ∷ []) p)

module _ (font : Bytes) where
  -- `do { pix_blt(…) ; ++p ; x += … ; get_char_pixmap(*p, …) ; } while (--n > 0) ;` with the rounds
  -- behind this one, and the character that is drawn in it.
  unfoldable pub draw_chars : Bytes → ℤ → ℕ → ℕ → ℤ → ℕ → Pixmap → Outcome Pixmap
  unfolding pix_blt get_char_pixmap ◌+ℤ◌
  draw_chars s y0 zero p x c surface = do
    (next, drawn) ← pix_blt surface x y0 (get_char_pixmap font c)
    d ← char_at s (p + 1)
    ok next
  draw_chars s y0 (suc n) p x c surface = do
    (next, drawn) ← pix_blt surface x y0 (get_char_pixmap font c)
    d ← char_at s (p + 1)
    draw_chars s y0 n (p + 1) (x +ℤ pos fnt_width) d next

  -- The surface after, and the number of characters that is returned. `x0` is not negative.
  unfoldable pub screen_string_at : Pixmap → ℕ → ℤ → Bytes → Outcome (Pixmap × ℕ)
  unfolding draw_chars ◌+ℤ◌
  screen_string_at surface x0 y0 s = do
    c ← char_at s 0
    let fits = (surface.width - x0) / (fnt_width - 2)
    let n = if ltb (length s) fits then length s else fits
    let drawn = (draw_chars s y0 (n - 1) 0 (pos x0) c surface >>= λ next. ok (next, n))
    let in_width =
        if leb_ℤ (pos (x0 + fnt_width)) (pos surface.width) then drawn else ok (surface, 0)
    if leb_ℤ (y0 +ℤ pos fnt_height) (pos surface.height) then in_width else ok (surface, 0)

-- The loop of flash_thread: what was there is put back in every round.
unfoldable pub flash_rounds : ℕ → ℤ → ℤ → Pixmap → Pixmap → Outcome Pixmap
unfolding pix_blt
flash_rounds zero x0 y0 psave surface = ok surface
flash_rounds (suc count) x0 y0 psave surface =
    pix_blt surface x0 y0 psave >>= λ r. flash_rounds count x0 y0 psave r.0

unfoldable pub flash_thread : Pixmap → ℕ → ℤ → ℤ → ℕ → ℕ → Outcome Pixmap
unfolding flash_rounds pixmap_xtract pixbuf_alloc
flash_thread surface count x0 y0 w h =
    pixmap_xtract (pixbuf_alloc w h) x0 y0 surface >>= λ r. flash_rounds count x0 y0 r.0 surface
