-- ===== src/Screen/RoundTrip.antt =====
-- statusbar_show and statusbar_hide of src/statusbar.c.
use native.Mathlib.Nat.{add-mul, mul_comm}
use kindle_launchpad.Base.{
  ◌+ℤ◌, ℤ, Outcome, true, ℕ, zero, suc, ◌+◌, ◌*◌, ◌≤◌, ◌≡◌, refl, sym, ap, ◌∙◌, pos, ◌-ℤ◌, ltb_ℤ,
  if◌then◌else◌, ◌++◌, Bytes, length, length-drop, length-replicate, take, drop, take-drop,
  take_all, ok, ◌>>=◌, arith,
}
use kindle_launchpad.Pixop.Surface.{Pixmap, stride, IsAllocated, pixbuf_alloc, splice}
use kindle_launchpad.Pixop.Draw.{
  is_int, no_overflow, clip_high, counted, copy_rows, with_surf, pix_blt, pixmap_xtract,
}
use kindle_launchpad.Pixop.Rows.{copy_rows_lem, splice_end}
use kindle_launchpad.Screen.Area.{screen_put_pixmap}
use kindle_launchpad.Screen.Bar.{statusbar_height, statusbar_hide}
use kindle_launchpad.Screen.Drawing.{IsSmall, first_row, bar_top_lem, KeptAbove}

counted_pos {ℓ} :
    {A : Type ℓ} (n : ℕ) (nothing : A) (f : ℕ → A) → 1 ≤ n → counted (pos n) nothing f ≡ f n
counted_pos zero nothing f h = absurd (omega arith)
counted_pos (suc n) nothing f h = refl

-- The bytes of the bar.
abbrev pub bar_bytes : Pixmap → Bytes
bar_bytes p = drop (first_row p * stride p) p.surf

abbrev pub saved_bar : Pixmap → Pixmap
saved_bar p = record { width = p.width; height = statusbar_height; surf = bar_bytes p }

bar_size :
    (p : Pixmap)
    → IsAllocated p
    → statusbar_height ≤ p.height
    → first_row p * stride p + statusbar_height * stride p ≡ length p.surf
bar_size p alloc h =
    let e : first_row p + statusbar_height ≡ p.height = omega arith in
    sym (add-mul (first_row p) statusbar_height (stride p))
    ∙ ap (λ n. n * stride p) e
    ∙ mul_comm p.height (stride p)
    ∙ sym alloc

pub xtract_bar :
    (p : Pixmap)
    → IsAllocated p
    → statusbar_height ≤ p.height
    → 1 ≤ p.width
    → (n : ℕ) × (pixmap_xtract (pixbuf_alloc p.width statusbar_height) (pos 0) (pos (first_row p)) p
        ≡ ok (saved_bar p, n))
unfolding pixmap_xtract pixbuf_alloc
xtract_bar p alloc h w =
    let st = stride p in
    let start = first_row p * st + 0 in
    let blank = pixbuf_alloc p.width statusbar_height in
    let size = bar_size p alloc h in
    let rows = λ (n lines : ℕ). copy_rows lines 0 start st st n p.surf blank.surf >>= λ surf.
    ok (with_surf blank (lines * n * 2) surf) in
    let below = pos p.height -ℤ pos (first_row p) in
    let across = pos st -ℤ pos 0 in
    let all_rows : (if ltb_ℤ below (pos statusbar_height) then below else pos statusbar_height)
        ≡ pos statusbar_height =
      unfold ◌-ℤ◌ in ground arith in
    let whole_rows : (if ltb_ℤ across (pos st) then across else pos st) ≡ pos st =
      unfold ◌-ℤ◌ in ground arith in
    let bar = take (statusbar_height * st) (drop start p.surf) in
    let bar_length = length-drop start p.surf in
    let all_bytes : bar ≡ drop start p.surf =
      take_all (statusbar_height * st) (drop start p.surf) (omega (arith, size, bar_length)) in
    let zeros = length-replicate {A = ℕ} (st * statusbar_height) 0 in
    let same : st * statusbar_height ≡ statusbar_height * st = mul_comm st statusbar_height in
    let at_start : start ≡ first_row p * st = omega arith in
    (
      statusbar_height * st * 2,
      ap
            (λ c. counted c (ok (blank, 0)) (λ n.
              counted (if ltb_ℤ below (pos statusbar_height) then below else pos statusbar_height)
                (ok (blank, 0)) (rows n)))
            whole_rows
          ∙ counted_pos st (ok (blank, 0)) _ (omega arith)
          ∙ ap (λ c. counted c (ok (blank, 0)) (rows st)) all_rows
          ∙ ap (λ m. m >>= λ surf. ok (with_surf blank (statusbar_height * st * 2) surf))
              (copy_rows_lem statusbar_height 0 start st p.surf blank.surf
                (omega (arith, zeros, same)) (omega (arith, size)))
          ∙ ap (λ l. ok (with_surf blank (statusbar_height * st * 2) l))
              (splice_end 0 bar blank.surf
                  (omega (arith, zeros, same, size, bar_length, ap length all_bytes))
                ∙ all_bytes
                ∙ ap (λ n. drop n p.surf) at_start),
    )

no_overflow_lem : {A : Type 0} (sum : ℤ) (m : Outcome A) → is_int sum ≡ true → no_overflow sum m ≡ m
no_overflow_lem sum m e = rw e refl

-- The bar that was saved is put below the rows that were kept.
hide_bar :
    (p : Pixmap) (b : Bytes)
    → IsAllocated p
    → statusbar_height ≤ p.height
    → 1 ≤ p.width
    → IsSmall p
    → length b ≡ length p.surf
    → take (first_row p * stride p) b ≡ take (first_row p * stride p) p.surf
    → statusbar_hide (record p { surf = b }) (saved_bar p) ≡ ok p
unfolding statusbar_hide screen_put_pixmap pix_blt ◌+ℤ◌
hide_bar p b alloc h w small size_b front =
    let st = stride p in
    let m = first_row p in
    let u = record p { surf = b } in
    let size = bar_size p alloc h in
    let bar = bar_bytes p in
    let rows = λ (n lines : ℕ). copy_rows lines (m * st + 0) (0 * st + 0) st st n bar b >>= λ surf.
    ok (with_surf u (lines * n * 2) surf) in
    let all_rows : clip_high p.height m (pos statusbar_height) ≡ pos statusbar_height =
      ground arith in
    let whole_rows : clip_high st 0 (pos st) ≡ pos st = ground arith in
    let bar_length : length bar ≡ statusbar_height * st =
      omega (arith, length-drop (m * st) p.surf, size) in
    let fits_x : is_int (pos 0 +ℤ pos st) ≡ true = ground arith in
    let fits_y : is_int (pos m +ℤ pos statusbar_height) ≡ true = ground arith in
    let lines_left =
      λ (n : ℕ). counted (clip_high p.height m (pos statusbar_height)) (ok (u, 0)) (rows n) in
    let none_cut : 0 * st + 0 ≡ 0 = omega arith in
    let at_start : m * st + 0 ≡ m * st = omega arith in
    let all_bytes : take (statusbar_height * st) (drop (0 * st + 0) bar) ≡ bar =
      ap (λ n. take (statusbar_height * st) (drop n bar)) none_cut
      ∙ take_all (statusbar_height * st) bar (omega (arith, bar_length)) in
    ap (λ t. pix_blt u (pos 0) t (saved_bar p) >>= λ r. ok r.0) (bar_top_lem u h)
    ∙ ap (λ m. m >>= λ r. ok r.0)
        (no_overflow_lem (pos 0 +ℤ pos st) _ fits_x
          ∙ ap
              (λ c.
                counted c (ok (u, 0))
                  (λ n. no_overflow (pos m +ℤ pos statusbar_height) (lines_left n)))
              whole_rows
          ∙ counted_pos st (ok (u, 0)) _ (omega arith)
          ∙ no_overflow_lem (pos m +ℤ pos statusbar_height) _ fits_y
          ∙ ap (λ c. counted c (ok (u, 0)) (rows st)) all_rows)
    ∙ ap (λ m. m >>= (λ surf. ok (with_surf u (statusbar_height * st * 2) surf)) >>= λ r. ok r.0)
        (copy_rows_lem statusbar_height (m * st + 0) (0 * st + 0) st bar b
          (omega (arith, size, size_b)) (omega (arith, bar_length)))
    ∙ ap (λ l. ok (record p { surf = l }))
        (ap (λ l. splice (m * st + 0) l b) all_bytes
          ∙ splice_end (m * st + 0) bar b (omega (arith, size, size_b, bar_length))
          ∙ ap (λ n. take n b ++ bar) at_start
          ∙ ap (λ l. l ++ bar) front
          ∙ take-drop (m * st) p.surf)

pub hide_kept :
    (p q : Pixmap)
    → IsAllocated p
    → statusbar_height ≤ p.height
    → 1 ≤ p.width
    → IsSmall p
    → KeptAbove p q
    → statusbar_hide q (saved_bar p) ≡ ok p
hide_kept p q alloc h w small (width, height, size, front) =
    let same : q ≡ record p { surf = q.surf } =
      ap (λ (w : ℕ). record q { width = w }) width
      ∙ ap (λ (h : ℕ). record q { width = p.width; height = h }) height in
    ap (λ u. statusbar_hide u (saved_bar p)) same ∙ hide_bar p q.surf alloc h w small size front
