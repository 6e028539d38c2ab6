-- ===== src/Screen/Bar.antt =====
-- src/statusbar.c: the status bar in the last rows of the screen. statusbar_flash is called with
-- `waitflag` set, so that it ends before the next call.
use kindle_launchpad.Base.{ℕ, ℤ, pos, ◌-ℤ◌, Bytes, Outcome, ok, ◌>>=◌}
use kindle_launchpad.Pixop.Surface.{Pixmap, pixbuf_alloc}
use kindle_launchpad.Screen.Area.{
  screen_rect_at, screen_get_pixmap, screen_put_pixmap, screen_string_at, flash_thread,
}

abbrev pub statusbar_height : ℕ
statusbar_height = 30

-- `pscreen->surface.height - STATUSBAR_HEIGHT`
abbrev pub bar_top : Pixmap → ℤ
bar_top surface = pos surface.height -ℤ pos statusbar_height

-- The bar is cleared.
unfoldable pub clear_bar : Pixmap → Outcome Pixmap
unfolding screen_rect_at ◌-ℤ◌
clear_bar surface =
    screen_rect_at surface (pos 0) (bar_top surface) (pos surface.width) (pos statusbar_height) 0
    >>= λ r. ok r.0

-- The surface after, and `psav`.
unfoldable pub statusbar_show : Pixmap → Outcome (Pixmap × Pixmap)
unfolding screen_get_pixmap clear_bar pixbuf_alloc ◌-ℤ◌
statusbar_show surface = do
  (psav, n) ←
      screen_get_pixmap surface (pos 0) (bar_top surface)
        (pixbuf_alloc surface.width statusbar_height)
  cleared ← clear_bar surface
  ok (cleared, psav)

unfoldable pub statusbar_hide : Pixmap → Pixmap → Outcome Pixmap
unfolding screen_put_pixmap ◌-ℤ◌
statusbar_hide surface psav =
    screen_put_pixmap surface (pos 0) (bar_top surface) psav >>= λ r. ok r.0

unfoldable pub statusbar_text : Bytes → Pixmap → Bytes → Outcome Pixmap
unfolding clear_bar screen_string_at ◌-ℤ◌
statusbar_text font surface p = do
  cleared ← clear_bar surface
  (drawn, n) ← screen_string_at font cleared 30 (bar_top surface) p
  ok drawn

unfoldable pub statusbar_flash : Pixmap → ℕ → Outcome Pixmap
unfolding flash_thread ◌-ℤ◌
statusbar_flash surface count =
    flash_thread surface count (pos 0) (bar_top surface) surface.width statusbar_height
