-- ===== src/Screen/Drawing.antt =====
-- What src/statusbar.c draws in the status bar.
use kindle_launchpad.Base.{
  Returns-OnOk, ℕ, zero, suc, ◌+◌, ◌-◌, ◌*◌, ◌/◌, ◌%◌, ◌≤◌, ◌<◌, ◌≡◌, pos, ◌+ℤ◌, ◌-ℤ◌, leb_ℤ, ltb,
  if◌then◌else◌, if_rule, [], ◌∷◌, Bytes, length, length-drop, length-replicate, Returns,
  Returns->>=, Returns-map, arith,
}
use kindle_launchpad.Pixop.Surface.{Pixmap, stride, IsAllocated, pixbuf_alloc}
use kindle_launchpad.Pixop.Draw.{pix_blt, pix_fill, pixmap_xtract}
use kindle_launchpad.Pixop.Bounds.{pixmap_xtract-Returns}
use kindle_launchpad.Pixop.Kept.{
  SameShape, pixmap_xtract-SameShape, Kept, Kept-refl, Kept-trans, IsAllocated-Kept, pix_fill-Kept,
  pix_blt-Kept,
}
use kindle_launchpad.Screen.Font.{
  fnt_width, fnt_height, nbytesperchar, code_first, in_font, get_char_pixmap,
}
use kindle_launchpad.Screen.Area.{
  screen_rect_at, char_at, draw_chars, screen_string_at, flash_rounds, flash_thread,
}
use kindle_launchpad.Screen.Bar.{
  statusbar_height, bar_top, clear_bar, statusbar_text, statusbar_flash,
}

-- The row in which the bar starts.
abbrev pub first_row : Pixmap → ℕ
first_row p = p.height - statusbar_height

pub bar_top_lem : (p : Pixmap) → statusbar_height ≤ p.height → bar_top p ≡ pos (first_row p)
unfolding ◌-ℤ◌
bar_top_lem p h = ground arith

-- Sizes with which no sum of pix_fill and pix_blt overflows; screens have some hundred pixels.
abbrev pub max_size : ℕ
max_size = 1000000000

abbrev pub IsSmall : Pixmap → Type 0
IsSmall p = (p.width ≤ max_size) × (p.height ≤ max_size)

-- The bar of a surface may have been written in.
abbrev pub KeptAbove : Pixmap → Pixmap → Type 0
KeptAbove p q = Kept (first_row p) p q

pub pixbuf_alloc-IsAllocated : (w h : ℕ) → IsAllocated (pixbuf_alloc w h)
unfolding pixbuf_alloc
pixbuf_alloc-IsAllocated w h = length-replicate {A = ℕ} ((w + 1) / 2 * h) 0

pub clear_bar-Kept :
    (p : Pixmap)
    → IsAllocated p
    → statusbar_height ≤ p.height
    → IsSmall p
    → Returns (KeptAbove p) (clear_bar p)
unfolding clear_bar screen_rect_at ◌+ℤ◌
clear_bar-Kept p alloc h small = rw (bar_top_lem p h) (
    Returns->>= (λ r. KeptAbove p r.0) (KeptAbove p)
      (pix_fill p (pos 0) (pos (first_row p)) (pos p.width) (pos statusbar_height) 0) _
      (pix_fill-Kept p (pos 0) (first_row p) (pos p.width) (pos statusbar_height) 0 alloc
        (ground arith) (ground arith))
      (λ r k. k))

-- The bytes of all characters of the font.
abbrev pub font_size : ℕ
font_size = 256 * nbytesperchar

char_size :
    (font : Bytes) (c : ℕ)
    → font_size ≤ length font
    → let q = get_char_pixmap font c in stride q * q.height ≤ length q.surf
unfolding get_char_pixmap
char_size font c h =
    let code = in_font (c % 256) in
    let small : code ≤ 255 = ground arith in
    omega (arith, length-drop ((code - code_first) * nbytesperchar) font, small)

char_at-Returns : (s : Bytes) (i : ℕ) → i ≤ length s → Returns (λ c. Unit {0}) (char_at s i)
char_at-Returns [] zero h = tt
char_at-Returns [] (suc i) h = absurd (omega arith)
char_at-Returns (c ∷ s) zero h = tt
char_at-Returns (c ∷ s) (suc i) h = char_at-Returns s i (omega arith)

pos_add : (a b : ℕ) → pos a +ℤ pos b ≡ pos (a + b)
unfolding ◌+ℤ◌
pos_add a b = ground arith

module _ (font : Bytes) (whole : font_size ≤ length font) where
  -- One character.
  put_char-Kept :
      (m x c : ℕ) (p : Pixmap)
      → IsAllocated p
      → m ≤ max_size
      → x ≤ 2000000000
      → Returns (λ r. Kept m p r.0) (pix_blt p (pos x) (pos m) (get_char_pixmap font c))
  unfolding get_char_pixmap ◌+ℤ◌
  put_char-Kept m x c p alloc low far =
      pix_blt-Kept p (pos x) m (get_char_pixmap font c) alloc (char_size font c whole)
        (ground arith) (ground arith)

  draw_chars-Kept :
      (s : Bytes) (m n i x c : ℕ) (p : Pixmap)
      → IsAllocated p
      → i + n < length s
      → m ≤ max_size
      → x + n * fnt_width ≤ 2000000000
      → Returns (Kept m p) (draw_chars font s (pos m) n i (pos x) c p)
  unfolding draw_chars
  draw_chars-Kept s m zero i x c p alloc lt low far =
      Returns->>= (λ r. Kept m p r.0) (Kept m p)
        (pix_blt p (pos x) (pos m) (get_char_pixmap font c)) _
        (put_char-Kept m x c p alloc low (omega (arith, far)))
        (λ r k.
          Returns->>= (λ d. Unit {0}) (Kept m p) (char_at s (i + 1)) _
            (char_at-Returns s (i + 1) (omega arith)) (λ d y. k))
  draw_chars-Kept s m (suc n) i x c p alloc lt low far =
      Returns->>= (λ r. Kept m p r.0) (Kept m p)
        (pix_blt p (pos x) (pos m) (get_char_pixmap font c)) _
        (put_char-Kept m x c p alloc low (omega (arith, far)))
        (λ r k.
          Returns->>= (λ d. Unit {0}) (Kept m p) (char_at s (i + 1)) _
            (char_at-Returns s (i + 1) (omega arith))
            (λ d y.
              Returns-map (Kept m r.0) (Kept m p)
                (draw_chars font s (pos m) n (i + 1) (pos x +ℤ pos fnt_width) d r.0)
                (rw (pos_add x fnt_width) (
                  draw_chars-Kept s m n (i + 1) (x + fnt_width) d r.0
                    (IsAllocated-Kept m p r.0 alloc k) (omega arith) low (omega arith)))
                (λ q l. Kept-trans m p r.0 q k l)))

  screen_string_at-Kept :
      (p : Pixmap) (x0 m : ℕ) (s : Bytes)
      → IsAllocated p
      → 1 ≤ length s
      → m ≤ max_size
      → x0 ≤ 100
      → p.width ≤ max_size
      → Returns (λ r. Kept m p r.0) (screen_string_at font p x0 (pos m) s)
  unfolding screen_string_at
  screen_string_at-Kept p x0 m s alloc some_char low left narrow =
      let P = λ (r : Pixmap × ℕ). Kept m p r.0 in
      let fits = (p.width - x0) / (fnt_width - 2) in
      let n = if ltb (length s) fits then length s else fits in
      let le : n ≤ length s = ground arith in
      let few : n ≤ fits = ground arith in
      Returns->>= (λ c. Unit {0}) P (char_at s 0) _ (char_at-Returns s 0 (omega arith))
        (λ c y.
          if_rule (Returns P) (leb_ℤ (pos m +ℤ pos fnt_height) (pos p.height))
            (λ e.
              if_rule (Returns P) (leb_ℤ (pos (x0 + fnt_width)) (pos p.width))
                (λ e.
                  Returns->>= (Kept m p) P (draw_chars font s (pos m) (n - 1) 0 (pos x0) c p) _
                    (draw_chars-Kept s m (n - 1) 0 x0 c p alloc (omega (arith, le)) low
                      (omega (arith, few)))
                    (λ q k. k))
                (λ e. Kept-refl m p))
            (λ e. Kept-refl m p))

  pub statusbar_text-Kept :
      (p : Pixmap) (s : Bytes)
      → IsAllocated p
      → statusbar_height ≤ p.height
      → 1 ≤ length s
      → IsSmall p
      → Returns (KeptAbove p) (statusbar_text font p s)
  unfolding statusbar_text
  statusbar_text-Kept p s alloc h some_char (narrow, low) =
      let m = first_row p in
      Returns->>= (KeptAbove p) (KeptAbove p) (clear_bar p) _
        (clear_bar-Kept p alloc h (narrow, low))
        (λ q k. rw (bar_top_lem p h) (
          Returns->>= (λ r. Kept m q r.0) (KeptAbove p) (screen_string_at font q 30 (pos m) s) _
            (screen_string_at-Kept q 30 m s (IsAllocated-Kept m p q alloc k) some_char (omega arith)
              (omega arith) (rw k.0 narrow))
            (λ r l. Kept-trans m p q r.0 k l)))

flash_rounds-Kept :
    (count m : ℕ) (psave p : Pixmap)
    → IsAllocated p
    → IsAllocated psave
    → m ≤ max_size
    → IsSmall psave
    → Returns (Kept m p) (flash_rounds count (pos 0) (pos m) psave p)
unfolding flash_rounds ◌+ℤ◌
flash_rounds-Kept zero m psave p alloc from low small = Kept-refl m p
flash_rounds-Kept (suc count) m psave p alloc from low small =
    Returns->>= (λ r. Kept m p r.0) (Kept m p) (pix_blt p (pos 0) (pos m) psave) _
      (pix_blt-Kept p (pos 0) m psave alloc (omega (arith, from)) (ground arith) (ground arith))
      (λ r k.
        Returns-map (Kept m r.0) (Kept m p) (flash_rounds count (pos 0) (pos m) psave r.0)
          (flash_rounds-Kept count m psave r.0 (IsAllocated-Kept m p r.0 alloc k) from low small)
          (λ q l. Kept-trans m p r.0 q k l))

pub statusbar_flash-Kept :
    (p : Pixmap) (count : ℕ)
    → IsAllocated p
    → statusbar_height ≤ p.height
    → IsSmall p
    → Returns (KeptAbove p) (statusbar_flash p count)
unfolding statusbar_flash flash_thread pixbuf_alloc
statusbar_flash-Kept p count alloc h (narrow, low) =
    let saved = pixbuf_alloc p.width statusbar_height in
    rw (bar_top_lem p h) (
      Returns->>= (λ r. IsAllocated r.0 × SameShape saved r) (KeptAbove p)
        (pixmap_xtract saved (pos 0) (pos (first_row p)) p) _
        (Returns-OnOk _ _ _
          (pixmap_xtract-Returns saved (pos 0) (pos (first_row p)) p
            (pixbuf_alloc-IsAllocated p.width statusbar_height) alloc)
          (pixmap_xtract-SameShape saved (pos 0) (pos (first_row p)) p))
        (λ r (from, (width, height)).
          flash_rounds-Kept count (first_row p) r.0 p alloc from (omega arith)
            (rw width narrow, rw height (omega arith))))
