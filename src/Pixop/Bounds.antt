-- ===== src/Pixop/Bounds.antt =====
-- src/pixop.c: no operation leaves the surfaces of its pixmaps.
use native.Mathlib.Nat.{suc-mul, add-mul, mul_comm, mul-le-mul_right, mul-lt-mul_of_pos_right}
use kindle_launchpad.Base.{
  ◌>>=◌, true, ◌+ℤ◌, ℕ, zero, suc, ◌+◌, ◌-◌, ◌*◌, ◌/◌, ◌%◌, ◌≤◌, ◌<◌, ◌≡◌, refl, ◌∙◌, ℤ, pos,
  negsuc, ◌-ℤ◌, ltb_ℤ, leb, ◌==◌, ◌&&◌, if_rule, if◌then◌else◌, [], ◌∷◌, ◌++◌, Bytes, length,
  length-append, length-take, length-drop, length-replicate, take, drop, replicate, Outcome, ok,
  fault, no_fuel, Returns, Returns->>=, arith,
}
use kindle_launchpad.Pixop.Surface.{Pixmap, stride, IsAllocated, splice, memset, memcpy}
use kindle_launchpad.Pixop.Draw.{
  clip_high, with_surf, is_int, no_overflow, make_even, clip_low, counted, halve, fill_rows,
  copy_rows, invert_bytes, pixmap_invert, pix_fill, pix_blt, pixmap_xtract,
}
use kindle_launchpad.Pixop.Clip.{clip_high_bound, clip_low_bound}

pub length-splice :
    (dp : ℕ) (l surf : Bytes)
    → dp + length l ≤ length surf
    → length (splice dp l surf) ≡ length surf
length-splice dp l surf h =
    let a = length-append (take dp surf) (l ++ drop (dp + length l) surf) in
    let b = length-append l (drop (dp + length l) surf) in
    let c = length-take dp surf in
    let d = length-drop (dp + length l) surf in omega (arith, a, b, c, d)

-- The same size as before.
abbrev pub SameSize : Bytes → Bytes → Type 0
SameSize before after = length after ≡ length before

memset-Returns :
    (dp color n : ℕ) (surf : Bytes)
    → dp + n ≤ length surf
    → Returns (SameSize surf) (memset dp color n surf)
unfolding memset
memset-Returns dp color n surf h =
    let size = length-replicate n color in
    if_rule (Returns (SameSize surf)) (leb (dp + n) (length surf))
      (λ e. length-splice dp (replicate n color) surf (omega (arith, size)))
      (λ e. absurd (ground arith))

memcpy-Returns :
    (dstp srcp n : ℕ) (src dst : Bytes)
    → dstp + n ≤ length dst
    → srcp + n ≤ length src
    → Returns (SameSize dst) (memcpy dstp srcp n src dst)
unfolding memcpy
memcpy-Returns dstp srcp n src dst h k =
    let size = length-take n (drop srcp src) in
    if_rule (Returns (SameSize dst)) (leb (dstp + n) (length dst) && leb (srcp + n) (length src))
      (λ e. length-splice dstp (take n (drop srcp src)) dst (omega (arith, size)))
      (λ e. absurd (ground arith))

same_size :
    (before next : Bytes) (m : Outcome Bytes)
    → SameSize before next
    → Returns (SameSize next) m
    → Returns (SameSize before) m
same_size before next (ok after) e h = h ∙ e
same_size before next fault e h = absurd h
same_size before next no_fuel e h = absurd h

fill_rows-Returns :
    (h dp s n color : ℕ) (surf : Bytes)
    → dp + n + h * s ≤ length surf + s
    → Returns (SameSize surf) (fill_rows h dp s n color surf)
unfolding fill_rows
fill_rows-Returns zero dp s n color surf h = refl
fill_rows-Returns (suc rows) dp s n color surf h =
    let m = suc-mul rows s in
    Returns->>= (SameSize surf) (SameSize surf) (memset dp color n surf) _
      (memset-Returns dp color n surf (omega (arith, m)))
      (λ next e.
        same_size _ next _ e (fill_rows-Returns rows (dp + s) s n color next (omega (arith, m, e))))

copy_rows-Returns :
    (h dp sp ds ss n : ℕ) (src dst : Bytes)
    → dp + n + h * ds ≤ length dst + ds
    → sp + n + h * ss ≤ length src + ss
    → Returns (SameSize dst) (copy_rows h dp sp ds ss n src dst)
unfolding copy_rows
copy_rows-Returns zero dp sp ds ss n src dst h k = refl
copy_rows-Returns (suc rows) dp sp ds ss n src dst h k =
    let m = suc-mul rows ds in
    let l = suc-mul rows ss in
    Returns->>= (SameSize dst) (SameSize dst) (memcpy dp sp n src dst) _
      (memcpy-Returns dp sp n src dst (omega (arith, m)) (omega (arith, l)))
      (λ next e. same_size _ next _ e (
        copy_rows-Returns rows (dp + ds) (sp + ss) ds ss n src next (omega (arith, m, e))
          (omega (arith, l))))

-- The last row of a rectangle that is in a surface ends in it.
rectangle_bound :
    (x n s y h rows size : ℕ)
    → x + n ≤ s
    → y + h ≤ rows
    → s * rows ≤ size
    → y * s + x + n + h * s ≤ size + s
rectangle_bound x n s y h rows size hx hy e =
    let a = add-mul y h s in
    let b = mul-le-mul_right s hy in let c = mul_comm s rows in omega (arith, a, b, c)

pub counted_rule {ℓ} :
    {A : Type ℓ} (P : A → Type 0) (n : ℤ) (nothing : A) (f : ℕ → A)
    → P nothing
    → ((m : ℕ) → n ≡ pos (suc m) → P (f (suc m)))
    → P (counted n nothing f)
counted_rule P (negsuc n) nothing f a b = a
counted_rule P (pos zero) nothing f a b = a
counted_rule P (pos (suc n)) nothing f a b = b n refl

even_start : (b n : ℤ) → (clip_low (make_even b) n).0 % 2 ≡ 0
even_start (pos b) n = omega arith
even_start (negsuc b) n =
    if_rule (λ c. (clip_low c n).0 % 2 ≡ 0) (b % 2 == 0) (λ e. refl) (λ e. refl)

-- For a pixmap whose surface has the size that pixbuf_alloc gives it: whatever the place, the size
-- and the color, if the even start and the width, and the start and the height, add up to 32-bit
-- `int`s, then pix_fill returns, writes only in the surface, and keeps its size.
pub pix_fill-Returns :
    (dst : Pixmap) (bx by wd ht : ℤ) (color : ℕ)
    → IsAllocated dst
    → is_int (make_even bx +ℤ wd) ≡ true
    → is_int (by +ℤ ht) ≡ true
    → Returns (λ r. IsAllocated r.0) (pix_fill dst bx by wd ht color)
unfolding pix_fill
pix_fill-Returns dst bx by wd ht color alloc fits_x fits_y =
    let P = Returns (λ (r : Pixmap × ℕ). IsAllocated r.0) in
    let even = even_start bx wd in
    let x = (clip_low (make_even bx) wd).0 in
    let y = (clip_low by ht).0 in
    rw (fits_x, fits_y)
      (counted_rule P _ _ _ alloc (λ w ew. counted_rule P _ _ _ alloc (λ h eh.
        let inx = clip_high_bound dst.width x (clip_low (make_even bx) wd).2 ew in
        let iny = clip_high_bound dst.height y (clip_low by ht).2 eh in
        let n = (suc w + 1) / 2 in
        Returns->>= (SameSize dst.surf) (λ (r : Pixmap × ℕ). IsAllocated r.0)
          (fill_rows (suc h) (y * stride dst + x / 2) (stride dst) n (color % 16 * 17) dst.surf) _
          (fill_rows-Returns (suc h) (y * stride dst + x / 2) (stride dst) n _ dst.surf (
            rectangle_bound (x / 2) n (stride dst) y (suc h) dst.height (length dst.surf)
              (omega (arith, even, inx)) iny.0 (omega (arith, alloc))))
          (λ surf e. e ∙ alloc))))

-- The source may have more bytes than its rows.
pub pix_blt-IsAllocated :
    (dst : Pixmap) (bx by : ℤ) (src : Pixmap)
    → IsAllocated dst
    → stride src * src.height ≤ length src.surf
    → is_int (halve (make_even bx) +ℤ pos (stride src)) ≡ true
    → is_int (by +ℤ pos src.height) ≡ true
    → Returns (λ r. IsAllocated r.0) (pix_blt dst bx by src)
unfolding pix_blt
pix_blt-IsAllocated dst bx by src alloc from fits_x fits_y =
    let P = Returns (λ (r : Pixmap × ℕ). IsAllocated r.0) in
    let cut_x = clip_low_bound (halve (make_even bx)) (pos (stride src)) in
    let cut_y = clip_low_bound by (pos src.height) in
    let (x, sx, n0) = clip_low (halve (make_even bx)) (pos (stride src)) in
    let (y, sy, l0) = clip_low by (pos src.height) in
    let copied = λ (n lines : ℕ).
      copy_rows lines (y * stride dst + x) (sy * stride src + sx) (stride dst) (stride src) n
        src.surf dst.surf
      >>= λ surf. ok (with_surf dst (lines * n * 2) surf) in
    let lines_left = λ (n : ℕ). counted (clip_high dst.height y l0) (ok (dst, 0)) (copied n) in
    rw fits_x (
      counted_rule P (clip_high (stride dst) x n0) (ok (dst, 0))
        (λ n. no_overflow (by +ℤ pos src.height) (lines_left n)) alloc
        (λ n en. rw fits_y (
          counted_rule P _ _ (copied (suc n)) alloc (λ l el.
            let inx = clip_high_bound (stride dst) x n0 en in
            let iny = clip_high_bound dst.height y l0 el in
            Returns->>= (SameSize dst.surf) (λ (r : Pixmap × ℕ). IsAllocated r.0)
              (copy_rows (suc l) (y * stride dst + x) (sy * stride src + sx) (stride dst)
                (stride src) (suc n) src.surf dst.surf)
              _
              (copy_rows-Returns (suc l) (y * stride dst + x) (sy * stride src + sx) (stride dst)
                (stride src) (suc n) src.surf dst.surf
                (rectangle_bound x (suc n) (stride dst) y (suc l) dst.height (length dst.surf) inx.0
                  iny.0 (omega (arith, alloc)))
                (rectangle_bound sx (suc n) (stride src) sy (suc l) src.height (length src.surf)
                  (omega (arith, cut_x, inx)) (omega (arith, cut_y, iny)) from))
              (λ surf e. e ∙ alloc)))))

-- For two pixmaps whose surfaces have the size that pixbuf_alloc gives them: whatever the place, if
-- the start in bytes and the bytes of a row of the source, and the start and the height of the
-- source, add up to 32-bit `int`s, then pix_blt returns, reads only in the surface of the source, writes only in that of the destination,
-- and keeps its size.
pub pix_blt-Returns :
    (dst : Pixmap) (bx by : ℤ) (src : Pixmap)
    → IsAllocated dst
    → IsAllocated src
    → is_int (halve (make_even bx) +ℤ pos (stride src)) ≡ true
    → is_int (by +ℤ pos src.height) ≡ true
    → Returns (λ r. IsAllocated r.0) (pix_blt dst bx by src)
pix_blt-Returns dst bx by src alloc from fits_x fits_y =
    pix_blt-IsAllocated dst bx by src alloc (omega (arith, from)) fits_x fits_y

part_bound :
    (size b limit : ℕ) {m : ℕ}
    → (if ltb_ℤ (pos size -ℤ pos b) (pos limit) then pos size -ℤ pos b else pos limit) ≡ pos (suc m)
    → (b + suc m ≤ size) × (suc m ≤ limit)
unfolding ◌-ℤ◌
part_bound size b limit e = (ground arith, ground arith)

-- For two pixmaps whose surfaces have the size that pixbuf_alloc gives them: whatever the place,
-- pixmap_xtract returns, reads only in the surface of the source, writes only in that of the
-- destination, and keeps its size.
pub pixmap_xtract-Returns :
    (dst : Pixmap) (bx by : ℤ) (src : Pixmap)
    → IsAllocated dst
    → IsAllocated src
    → Returns (λ r. IsAllocated r.0) (pixmap_xtract dst bx by src)
unfolding pixmap_xtract
pixmap_xtract-Returns dst (negsuc x) by src alloc from = alloc
pixmap_xtract-Returns dst (pos x) (negsuc y) src alloc from = alloc
pixmap_xtract-Returns dst (pos x) (pos y) src alloc from =
    let P = Returns (λ (r : Pixmap × ℕ). IsAllocated r.0) in
    let bx = (x - x % 2) / 2 in
    counted_rule P _ _ _ alloc (λ n en. counted_rule P _ _ _ alloc (λ l el.
      let inx = part_bound (stride src) bx (stride dst) en in
      let iny = part_bound src.height y dst.height el in
      let room =
        rectangle_bound 0 (suc n) (stride dst) 0 (suc l) dst.height (length dst.surf)
          (omega (arith, inx)) (omega (arith, iny)) (omega (arith, alloc)) in
      Returns->>= (SameSize dst.surf) (λ (r : Pixmap × ℕ). IsAllocated r.0)
        (copy_rows (suc l) 0 (y * stride src + bx) (stride dst) (stride src) (suc n) src.surf
          dst.surf)
        _
        (copy_rows-Returns (suc l) 0 (y * stride src + bx) (stride dst) (stride src) (suc n)
          src.surf dst.surf (omega (arith, room))
          (rectangle_bound bx (suc n) (stride src) y (suc l) src.height (length src.surf) inx.0
            iny.0 (omega (arith, from))))
        (λ surf e. e ∙ alloc)))

invert_bytes-fault : (n : ℕ) (surf : Bytes) → length surf < n → invert_bytes n surf ≡ fault
unfolding invert_bytes
invert_bytes-fault zero surf h = absurd (omega arith)
invert_bytes-fault (suc n) [] h = refl
invert_bytes-fault (suc n) (c ∷ cs) h = rw (invert_bytes-fault n cs (omega arith)) refl

-- For a pixmap at least two pixels wide and one pixel high, whose surface has the size that
-- pixbuf_alloc gives it, pixmap_invert goes behind the surface.
pub pixmap_invert-faults :
    (p : Pixmap) → IsAllocated p → 2 ≤ p.width → 1 ≤ p.height → pixmap_invert p ≡ fault
unfolding pixmap_invert
pixmap_invert-faults p alloc w h =
    let narrow : stride p < p.width + 0 = omega arith in
    let area = mul-lt-mul_of_pos_right narrow h in
    rw (invert_bytes-fault ((p.width + 0) * p.height) p.surf (omega (arith, alloc, area))) refl
