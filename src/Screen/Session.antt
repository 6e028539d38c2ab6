-- ===== src/Screen/Session.antt =====
-- The status bar of src/statusbar.c from its showing to its hiding.
use kindle_launchpad.Base.{
  ℕ, ◌-◌, ◌≤◌, ◌≡◌, sym, ap, ◌∙◌, List, [], ◌∷◌, Bytes, length, Outcome, ok, ◌>>=◌, Returns,
  Returns->>=, Returns-map, Returns-ok, pos,
}
use kindle_launchpad.Pixop.Surface.{Pixmap, IsAllocated, pixbuf_alloc}
use kindle_launchpad.Pixop.Draw.{pixmap_xtract}
use kindle_launchpad.Pixop.Kept.{Kept-refl, Kept-trans, IsAllocated-Kept}
use kindle_launchpad.Screen.Area.{screen_get_pixmap}
use kindle_launchpad.Screen.Bar.{
  statusbar_height, clear_bar, statusbar_show, statusbar_hide, statusbar_text, statusbar_flash,
}
use kindle_launchpad.Screen.Drawing.{
  IsSmall, first_row, bar_top_lem, KeptAbove, font_size, clear_bar-Kept, statusbar_text-Kept,
  statusbar_flash-Kept,
}
use kindle_launchpad.Screen.RoundTrip.{saved_bar, xtract_bar, hide_kept}

-- What is done between the two.
pub data BarCall : Type 0 where
  text : Bytes → BarCall
  flash : ℕ → BarCall

unfoldable pub run_call : Bytes → Pixmap → BarCall → Outcome Pixmap
unfolding statusbar_text statusbar_flash
run_call font surface (text p) = statusbar_text font surface p
run_call font surface (flash count) = statusbar_flash surface count

unfoldable pub run_calls : Bytes → Pixmap → List BarCall → Outcome Pixmap
unfolding run_call
run_calls font surface [] = ok surface
run_calls font surface (c ∷ cs) = run_call font surface c >>= λ next. run_calls font next cs

-- No text is empty.
abbrev pub AllVisible : List BarCall → Type 0
AllVisible [] = Unit
AllVisible (text p ∷ cs) = (1 ≤ length p) × AllVisible cs
AllVisible (flash count ∷ cs) = AllVisible cs

module _ (font : Bytes) (whole : font_size ≤ length font) where
  run_call-Kept :
      (p : Pixmap) (c : BarCall) (cs : List BarCall)
      → IsAllocated p
      → statusbar_height ≤ p.height
      → AllVisible (c ∷ cs)
      → IsSmall p
      → Returns (KeptAbove p) (run_call font p c)
  unfolding run_call
  run_call-Kept p (text s) cs alloc h (visible, others) small =
      statusbar_text-Kept font whole p s alloc h visible small
  run_call-Kept p (flash count) cs alloc h others small = statusbar_flash-Kept p count alloc h small

  others_visible : (c : BarCall) (cs : List BarCall) → AllVisible (c ∷ cs) → AllVisible cs
  others_visible (text s) cs (visible, others) = others
  others_visible (flash count) cs others = others

  run_calls-Kept :
      (p : Pixmap) (cs : List BarCall)
      → IsAllocated p
      → statusbar_height ≤ p.height
      → AllVisible cs
      → IsSmall p
      → Returns (KeptAbove p) (run_calls font p cs)
  unfolding run_calls
  run_calls-Kept p [] alloc h visible small = Kept-refl (first_row p) p
  run_calls-Kept p (c ∷ cs) alloc h visible small =
      Returns->>= (KeptAbove p) (KeptAbove p) (run_call font p c) _
        (run_call-Kept p c cs alloc h visible small)
        (λ q k.
          let e : first_row q ≡ first_row p = ap (λ n. n - statusbar_height) k.1 in
          Returns-map (KeptAbove q) (KeptAbove p) (run_calls font q cs)
            (run_calls-Kept q cs (IsAllocated-Kept (first_row p) p q alloc k) (rw k.1 h)
              (others_visible c cs visible) (rw k.0 small.0, rw k.1 small.1))
            (λ r l. Kept-trans (first_row p) p q r k (rw (sym e) l)))

show_bar :
    (p t : Pixmap)
    → IsAllocated p
    → statusbar_height ≤ p.height
    → 1 ≤ p.width
    → clear_bar p ≡ ok t
    → statusbar_show p ≡ ok (t, saved_bar p)
unfolding statusbar_show screen_get_pixmap
show_bar p t alloc h w clears =
    let (n, saves) = xtract_bar p alloc h w in
    ap
      (λ y. pixmap_xtract (pixbuf_alloc p.width statusbar_height) (pos 0) y p >>= λ r.
        clear_bar p >>= λ c. ok (c, r.0))
      (bar_top_lem p h)
    ∙ ap (λ m. m >>= λ r. clear_bar p >>= λ c. ok (c, r.0)) saves
    ∙ ap (λ m. m >>= λ c. ok (c, saved_bar p)) clears

-- On a screen at least 30 rows high and one pixel wide, and at most 1000000000 of either, whose surface has the size that pixbuf_alloc
-- gives it, with a font of all 256 characters: when the status bar is shown, texts that are not empty
-- are written in it and it is flashed, in any order, and it is hidden, then nothing is read or written
-- out of a surface, and the screen is as it was before.
pub statusbar_hide-statusbar_show :
    (font : Bytes) (surface : Pixmap) (cs : List BarCall)
    → font_size ≤ length font
    → IsAllocated surface
    → statusbar_height ≤ surface.height
    → 1 ≤ surface.width
    → IsSmall surface
    → AllVisible cs
    → (statusbar_show surface >>= λ s. run_calls font s.0 cs >>= λ u. statusbar_hide u s.1)
      ≡ ok surface
statusbar_hide-statusbar_show font surface cs whole alloc h w small visible =
    let (t, clears, k) =
      Returns-ok (KeptAbove surface) (clear_bar surface) (clear_bar-Kept surface alloc h small) in
    let m = first_row surface in
    let e : first_row t ≡ m = ap (λ n. n - statusbar_height) k.1 in
    let (u, runs, l) = Returns-ok (KeptAbove t) (run_calls font t cs) (
      run_calls-Kept font whole t cs (IsAllocated-Kept m surface t alloc k) (rw k.1 h) visible
        (rw k.0 small.0, rw k.1 small.1)) in
    rw (show_bar surface t alloc h w clears, runs)
      (hide_kept surface u alloc h w small (Kept-trans m surface t u k (rw (sym e) l)))
