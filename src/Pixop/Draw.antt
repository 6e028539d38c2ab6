-- ===== src/Pixop/Draw.antt =====
-- src/pixop.c: pix_fill, pix_blt, pixmap_xtract and pixmap_invert. Widths and heights of pixmaps are
-- not negative; the coordinates are any integers. Null pointers are not modelled.
use kindle_launchpad.Base.{
  leb, pos_part, neg_part, Bool, ◌&&◌, ℕ, zero, suc, ◌+◌, ◌-◌, ◌*◌, ◌/◌, ◌%◌, ℤ, pos, negsuc, ◌+ℤ◌,
  ◌-ℤ◌, ltb_ℤ, ◌==◌, if◌then◌else◌, [], ◌∷◌, Bytes, Outcome, ok, fault, ◌>>=◌,
}
use kindle_launchpad.Pixop.Surface.{Pixmap, stride, memset, memcpy}

-- A 32-bit `int`.
abbrev pub is_int : ℤ → Bool
is_int n = leb (pos_part n) 2147483647 && leb (neg_part n) 2147483648

-- `m` behind the computation of a sum of two `int`s, which is undefined if it overflows.
abbrev pub no_overflow {ℓ} : {A : Type ℓ} → ℤ → Outcome A → Outcome A
no_overflow sum m = if is_int sum then m else fault

-- `b &= ~1`
abbrev pub make_even : ℤ → ℤ
make_even (pos n) = pos (n - n % 2)
make_even (negsuc n) = if n % 2 == 0 then negsuc (n + 1) else negsuc n

-- `if (b < 0) { n += b; b = 0; }`: the new `b`, what was cut off, and the new `n`
abbrev pub clip_low : ℤ → ℤ → ℕ × ℕ × ℤ
clip_low (pos b) n = (b, 0, n)
clip_low (negsuc b) n = (0, suc b, n +ℤ negsuc b)

-- `if (b + n > size) n = size - b;`
abbrev pub clip_high : ℕ → ℕ → ℤ → ℤ
clip_high size b n = if ltb_ℤ (pos size) (pos b +ℤ n) then pos size -ℤ pos b else n

-- The drawing that is done: nothing for a count that is not positive.
abbrev pub counted {ℓ} : {A : Type ℓ} → ℤ → A → (ℕ → A) → A
counted (negsuc n) nothing f = nothing
counted (pos zero) nothing f = nothing
counted (pos (suc n)) nothing f = f (suc n)

-- `while (ht-- > 0) { memset(dp, color, fill_stride); dp += dst_stride; n += fill_stride; }`
unfoldable pub fill_rows : ℕ → ℕ → ℕ → ℕ → ℕ → Bytes → Outcome Bytes
unfolding memset
fill_rows zero dp dst_stride fill_stride color surf = ok surf
fill_rows (suc ht) dp dst_stride fill_stride color surf =
    memset dp color fill_stride surf >>= λ next.
    fill_rows ht (dp + dst_stride) dst_stride fill_stride color next

abbrev pub with_surf : Pixmap → ℕ → Bytes → Pixmap × ℕ
with_surf p n surf = (record p { surf = surf }, n)

-- The pixmap after, and the number of pixels that is returned. If `bx` is negative, the sum is that
-- of `wd += bx`, and else that of `bx + wd`; the same for `by`.
unfoldable pub pix_fill : Pixmap → ℤ → ℤ → ℤ → ℤ → ℕ → Outcome (Pixmap × ℕ)
unfolding fill_rows ◌+ℤ◌ ◌-ℤ◌
pix_fill dst bx by wd ht color =
    let (x, cut_x, w0) = clip_low (make_even bx) wd in
    let (y, cut_y, h0) = clip_low by ht in
    no_overflow (make_even bx +ℤ wd) (
      no_overflow (by +ℤ ht) (
        counted (clip_high dst.width x w0) (ok (dst, 0)) (λ w.
          counted (clip_high dst.height y h0) (ok (dst, 0)) (λ h.
            let fill_stride = (w + 1) / 2 in
            fill_rows h (y * stride dst + x / 2) (stride dst) fill_stride (color % 16 * 17) dst.surf
            >>= λ surf. ok (with_surf dst (h * fill_stride * 2) surf)))))

-- `while (n_lines-- > 0) { memcpy(dstp, srcp, n_bytes); dstp += dst_stride; srcp += src_stride; … }`
unfoldable pub copy_rows : ℕ → ℕ → ℕ → ℕ → ℕ → ℕ → Bytes → Bytes → Outcome Bytes
unfolding memcpy
copy_rows zero dstp srcp dst_stride src_stride n src dst = ok dst
copy_rows (suc lines) dstp srcp dst_stride src_stride n src dst =
    memcpy dstp srcp n src dst >>= λ next.
    copy_rows lines (dstp + dst_stride) (srcp + src_stride) dst_stride src_stride n src next

-- `b /= 2`, of an even number
abbrev pub halve : ℤ → ℤ
halve (pos n) = pos (n / 2)
halve (negsuc n) = negsuc (n / 2)

-- The two pixmaps are different ones.
unfoldable pub pix_blt : Pixmap → ℤ → ℤ → Pixmap → Outcome (Pixmap × ℕ)
unfolding copy_rows ◌+ℤ◌ ◌-ℤ◌
pix_blt dst bx by src =
    let (x, src_bx, n0) = clip_low (halve (make_even bx)) (pos (stride src)) in
    let (y, src_by, l0) = clip_low by (pos src.height) in
    no_overflow (halve (make_even bx) +ℤ pos (stride src)) (
      counted (clip_high (stride dst) x n0) (ok (dst, 0)) (λ n. no_overflow (by +ℤ pos src.height) (
        counted (clip_high dst.height y l0) (ok (dst, 0)) (λ lines.
          copy_rows lines (y * stride dst + x) (src_by * stride src + src_bx) (stride dst)
            (stride src) n src.surf dst.surf
          >>= λ surf. ok (with_surf dst (lines * n * 2) surf)))))

-- The part of the source at a place that is not negative, and what there is of it.
unfoldable pub pixmap_xtract : Pixmap → ℤ → ℤ → Pixmap → Outcome (Pixmap × ℕ)
unfolding copy_rows ◌-ℤ◌
pixmap_xtract dst (pos x) (pos y) src =
    let bx = (x - x % 2) / 2 in
    let available = pos (stride src) -ℤ pos bx in
    let below = pos src.height -ℤ pos y in
    counted (if ltb_ℤ available (pos (stride dst)) then available else pos (stride dst))
      (ok (dst, 0))
      (λ n.
        counted (if ltb_ℤ below (pos dst.height) then below else pos dst.height) (ok (dst, 0))
          (λ lines.
            copy_rows lines 0 (y * stride src + bx) (stride dst) (stride src) n src.surf dst.surf
            >>= λ surf. ok (with_surf dst (lines * n * 2) surf)))
pixmap_xtract dst _ _ src = ok (dst, 0)

-- `*tmp = ~(*tmp)`, from the start on
unfoldable pub invert_bytes : ℕ → Bytes → Outcome Bytes
invert_bytes zero surf = ok surf
invert_bytes (suc n) [] = fault
invert_bytes (suc n) (c ∷ cs) = invert_bytes n cs >>= λ rest. ok ((255 - c) ∷ rest)

-- `(p->width+1 /2) * (p->height)` bytes, where `1 /2` is 0.
unfoldable pub pixmap_invert : Pixmap → Outcome Pixmap
unfolding invert_bytes
pixmap_invert p =
    invert_bytes ((p.width + 1 / 2) * p.height) p.surf >>= λ surf. ok (record p { surf = surf })
