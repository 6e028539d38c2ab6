-- ===== src/Pixop/Kept.antt =====
-- src/pixop.c: the rows above the place of a drawing.
use kindle_launchpad.Base.{
  ◌-ℤ◌, ltb_ℤ, if◌then◌else◌, negsuc, ◌-◌, OnOk-always, true, ◌+ℤ◌, if_rule, ◌>>=◌, sym, ℕ, suc,
  ◌+◌, ◌*◌, ◌/◌, ◌%◌, ◌≤◌, ◌≡◌, refl, ap, ◌∙◌, ℤ, pos, Bytes, length, take, Outcome, ok, OnOk,
  OnOk->>=, Returns, Returns-map, Returns-OnOk, arith,
}
use kindle_launchpad.Pixop.Surface.{Pixmap, stride, IsAllocated}
use kindle_launchpad.Pixop.Draw.{
  is_int, no_overflow, pixmap_xtract, make_even, halve, with_surf, clip_high, counted, clip_low,
  fill_rows, copy_rows, pix_fill, pix_blt,
}
use kindle_launchpad.Pixop.Bounds.{counted_rule, pix_fill-Returns, pix_blt-IsAllocated}
use kindle_launchpad.Pixop.Rows.{SameFront, fill_rows-SameFront, copy_rows-SameFront}

-- The pixmap has its size, and the first `m` rows are as they were.
abbrev pub Kept : ℕ → Pixmap → Pixmap → Type 0
Kept m p q =
    (q.width ≡ p.width)
    × (q.height ≡ p.height)
    × (length q.surf ≡ length p.surf)
    × (take (m * stride p) q.surf ≡ take (m * stride p) p.surf)

pub Kept-refl : (m : ℕ) (p : Pixmap) → Kept m p p
Kept-refl m p = (refl, refl, refl, refl)

pub stride-Kept : (m : ℕ) (p q : Pixmap) → Kept m p q → stride q ≡ stride p
stride-Kept m p q kept = ap (λ w. (w + 1) / 2) kept.0

pub Kept-trans : (m : ℕ) (p q r : Pixmap) → Kept m p q → Kept m q r → Kept m p r
Kept-trans m p q r pq qr =
    let e = stride-Kept m p q pq in
    let (w1, h1, l1, f1) = pq in
    let (w2, h2, l2, f2) = qr in
    let front : take (m * stride p) r.surf ≡ take (m * stride p) q.surf = rw (sym e) f2 in
    (w2 ∙ w1, h2 ∙ h1, l2 ∙ l1, front ∙ f1)

Shape : Pixmap → ℕ → Pixmap × ℕ → Type 0
Shape p k r = (r.0.width ≡ p.width) × (r.0.height ≡ p.height) × SameFront k p.surf r.0.surf

unchanged : (p : Pixmap) (k n : ℕ) → Shape p k (p, n)
unfolding Shape
unchanged p k n = (refl, refl, refl)

drawn-Shape :
    (p : Pixmap) (k n : ℕ) (surf : Bytes) → SameFront k p.surf surf → Shape p k (with_surf p n surf)
unfolding Shape
drawn-Shape p k n surf e = (refl, refl, e)

counted-Shape :
    (p : Pixmap) (k : ℕ) (n : ℤ) (f : ℕ → Outcome (Pixmap × ℕ))
    → ((m : ℕ) → OnOk (Shape p k) (f (suc m)))
    → OnOk (Shape p k) (counted n (ok (p, 0)) f)
counted-Shape p k n f h =
    counted_rule (OnOk (Shape p k)) n (ok (p, 0)) f (unchanged p k 0) (λ m e. h m)

no_overflow_rule :
    (P : Pixmap × ℕ → Type 0) (sum : ℤ) (m : Outcome (Pixmap × ℕ))
    → OnOk P m
    → OnOk P (no_overflow sum m)
no_overflow_rule P sum m h = if_rule (OnOk P) (is_int sum) (λ e. h) (λ e. tt)

pix_fill-Shape :
    (dst : Pixmap) (bx : ℤ) (m : ℕ) (wd ht : ℤ) (color : ℕ)
    → OnOk (Shape dst (m * stride dst)) (pix_fill dst bx (pos m) wd ht color)
unfolding pix_fill
pix_fill-Shape dst bx m wd ht color =
    let k = m * stride dst in
    let (x, cut, w0) = clip_low (make_even bx) wd in
    let filled = λ (w h : ℕ).
      fill_rows h (k + x / 2) (stride dst) ((w + 1) / 2) (color % 16 * 17) dst.surf >>= λ surf.
      ok (with_surf dst (h * ((w + 1) / 2) * 2) surf) in
    no_overflow_rule (Shape dst k) (make_even bx +ℤ wd) _ (
      no_overflow_rule (Shape dst k) (pos m +ℤ ht) _ (
        counted-Shape dst k (clip_high dst.width x w0)
          (λ w. counted (clip_high dst.height m ht) (ok (dst, 0)) (filled w))
          (λ w. counted-Shape dst k (clip_high dst.height m ht) (filled (suc w)) (λ h.
            OnOk->>= (SameFront k dst.surf) (Shape dst k)
              (fill_rows (suc h) (k + x / 2) (stride dst) ((suc w + 1) / 2) (color % 16 * 17)
                dst.surf)
              _ (fill_rows-SameFront k (suc h) (k + x / 2) (stride dst) _ _ dst.surf (omega arith))
              (λ surf e. drawn-Shape dst k (suc h * ((suc w + 1) / 2) * 2) surf e)))))

pix_blt-Shape :
    (dst : Pixmap) (bx : ℤ) (m : ℕ) (src : Pixmap)
    → OnOk (Shape dst (m * stride dst)) (pix_blt dst bx (pos m) src)
unfolding pix_blt
pix_blt-Shape dst bx m src =
    let k = m * stride dst in
    let (x, sx, n0) = clip_low (halve (make_even bx)) (pos (stride src)) in
    let copied = λ (n l : ℕ).
      copy_rows l (k + x) (0 * stride src + sx) (stride dst) (stride src) n src.surf dst.surf
      >>= λ surf. ok (with_surf dst (l * n * 2) surf) in
    no_overflow_rule (Shape dst k) (halve (make_even bx) +ℤ pos (stride src)) _ (
      counted-Shape dst k (clip_high (stride dst) x n0)
        (λ n.
          no_overflow (pos m +ℤ pos src.height)
            (counted (clip_high dst.height m (pos src.height)) (ok (dst, 0)) (copied n)))
        (λ n. no_overflow_rule (Shape dst k) (pos m +ℤ pos src.height) _ (
          counted-Shape dst k (clip_high dst.height m (pos src.height)) (copied (suc n)) (λ l.
            OnOk->>= (SameFront k dst.surf) (Shape dst k)
              (copy_rows (suc l) (k + x) (0 * stride src + sx) (stride dst) (stride src) (suc n)
                src.surf dst.surf)
              _
              (copy_rows-SameFront k (suc l) (k + x) (0 * stride src + sx) (stride dst) (stride src)
                (suc n) src.surf dst.surf (omega arith))
              (λ surf e. drawn-Shape dst k (suc l * suc n * 2) surf e)))))

Kept-Shape :
    (m : ℕ) (p : Pixmap) (r : Pixmap × ℕ)
    → IsAllocated p
    → IsAllocated r.0 × Shape p (m * stride p) r
    → Kept m p r.0
unfolding Shape
Kept-Shape m p r alloc (still, (width, height, front)) =
    let size : length r.0.surf ≡ stride p * p.height = rw (sym width, sym height) still in
    (width, height, size ∙ sym alloc, front)

pub IsAllocated-Kept : (m : ℕ) (p q : Pixmap) → IsAllocated p → Kept m p q → IsAllocated q
IsAllocated-Kept m p q alloc (width, height, size, front) = rw (width, height) (size ∙ alloc)

pub pix_fill-Kept :
    (dst : Pixmap) (bx : ℤ) (m : ℕ) (wd ht : ℤ) (color : ℕ)
    → IsAllocated dst
    → is_int (make_even bx +ℤ wd) ≡ true
    → is_int (pos m +ℤ ht) ≡ true
    → Returns (λ r. Kept m dst r.0) (pix_fill dst bx (pos m) wd ht color)
pix_fill-Kept dst bx m wd ht color alloc fits_x fits_y =
    Returns-map _ _ _
      (Returns-OnOk _ _ _ (pix_fill-Returns dst bx (pos m) wd ht color alloc fits_x fits_y)
        (pix_fill-Shape dst bx m wd ht color))
      (λ r h. Kept-Shape m dst r alloc h)

pub pix_blt-Kept :
    (dst : Pixmap) (bx : ℤ) (m : ℕ) (src : Pixmap)
    → IsAllocated dst
    → stride src * src.height ≤ length src.surf
    → is_int (halve (make_even bx) +ℤ pos (stride src)) ≡ true
    → is_int (pos m +ℤ pos src.height) ≡ true
    → Returns (λ r. Kept m dst r.0) (pix_blt dst bx (pos m) src)
pix_blt-Kept dst bx m src alloc from fits_x fits_y =
    Returns-map _ _ _
      (Returns-OnOk _ _ _ (pix_blt-IsAllocated dst bx (pos m) src alloc from fits_x fits_y)
        (pix_blt-Shape dst bx m src))
      (λ r h. Kept-Shape m dst r alloc h)

-- The size in pixels.
abbrev pub SameShape : Pixmap → Pixmap × ℕ → Type 0
SameShape p r = (r.0.width ≡ p.width) × (r.0.height ≡ p.height)

pub pixmap_xtract-SameShape :
    (dst : Pixmap) (bx by : ℤ) (src : Pixmap) → OnOk (SameShape dst) (pixmap_xtract dst bx by src)
unfolding pixmap_xtract
pixmap_xtract-SameShape dst (negsuc x) by src = (refl, refl)
pixmap_xtract-SameShape dst (pos x) (negsuc y) src = (refl, refl)
pixmap_xtract-SameShape dst (pos x) (pos y) src =
    let P = OnOk (SameShape dst) in
    let bx = (x - x % 2) / 2 in
    let across = pos (stride src) -ℤ pos bx in
    let below = pos src.height -ℤ pos y in
    let n_bytes = if ltb_ℤ across (pos (stride dst)) then across else pos (stride dst) in
    let n_lines = if ltb_ℤ below (pos dst.height) then below else pos dst.height in
    let copied = λ (n lines : ℕ).
      copy_rows lines 0 (y * stride src + bx) (stride dst) (stride src) n src.surf dst.surf
      >>= λ surf. ok (with_surf dst (lines * n * 2) surf) in
    counted_rule P n_bytes (ok (dst, 0)) (λ n. counted n_lines (ok (dst, 0)) (copied n))
      (refl, refl)
      (λ n en.
        counted_rule P n_lines (ok (dst, 0)) (copied (suc n)) (refl, refl)
          (λ l el.
            OnOk->>= (λ surf. Unit {0}) (SameShape dst)
              (copy_rows (suc l) 0 (y * stride src + bx) (stride dst) (stride src) (suc n) src.surf
                dst.surf)
              _ (OnOk-always _) (λ surf e. (refl, refl))))
