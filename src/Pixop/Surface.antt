-- ===== src/Pixop/Surface.antt =====
-- src/pixop.c: a pixmap, and the C library's functions on its bytes.
use kindle_launchpad.Base.{
  ℕ, ◌+◌, ◌*◌, ◌/◌, ◌≡◌, ◌&&◌, ◌++◌, leb, if◌then◌else◌, Bytes, length, take, drop, replicate,
  Outcome, ok, fault,
}

-- `pixmap_t`: a row is `(width + 1) / 2` bytes of two pixels each.
pub record Pixmap : Type 0 where
  pub width : ℕ
  pub height : ℕ
  pub surf : Bytes

abbrev pub stride : Pixmap → ℕ
stride p = (p.width + 1) / 2

-- The surface has the bytes that pixbuf_alloc gives it.
abbrev pub IsAllocated : Pixmap → Type 0
IsAllocated p = length p.surf ≡ stride p * p.height

unfoldable pub pixbuf_alloc : ℕ → ℕ → Pixmap
pixbuf_alloc w h = record { width = w; height = h; surf = replicate ((w + 1) / 2 * h) 0 }

-- The bytes `l` written at `dp`.
abbrev pub splice : ℕ → Bytes → Bytes → Bytes
splice dp l surf = take dp surf ++ (l ++ drop (dp + length l) surf)

-- `memset(dp, color, n)`
unfoldable pub memset : ℕ → ℕ → ℕ → Bytes → Outcome Bytes
memset dp color n surf =
    if leb (dp + n) (length surf) then ok (splice dp (replicate n color) surf) else fault

-- `memcpy(dstp, srcp, n)`, between two surfaces
unfoldable pub memcpy : ℕ → ℕ → ℕ → Bytes → Bytes → Outcome Bytes
memcpy dstp srcp n src dst =
    if leb (dstp + n) (length dst) && leb (srcp + n) (length src)
    then ok (splice dstp (take n (drop srcp src)) dst)
    else fault
