-- ===== src/Screenshot.antt =====
-- src/screenshot.c: do_screenshot, which writes the framebuffer to a bitmap file. What the framebuffer
-- holds, what ioctl() answers and what stands in `rowbuf` at first are arguments.
use kindle_launchpad.Base.{
  ℕ, zero, suc, ◌+◌, ◌-◌, ◌*◌, ◌/◌, Bool, ◌||◌, List, [], ◌∷◌, ◌++◌, Option, none, some, ltb, ◌==◌,
  if◌then◌else◌, Bytes, length, take, drop, Outcome, ok, fault, ◌>>=◌,
}
pub mod Rows

-- SCREENW, SCREENH, BPP, IMGSIZE, and the dots per meter of the two devices
abbrev pub screenw : ℕ
screenw = 600

abbrev pub screenh : ℕ
screenh = 800

abbrev pub default_bpp : ℕ
default_bpp = 4

abbrev pub default_imgsize : ℕ
default_imgsize = screenw / (8 / default_bpp) * screenh

abbrev pub k3dpm : ℕ
k3dpm = 6535

abbrev pub kdxdpm : ℕ
kdxdpm = 5905

-- `fb_var_screeninfo`, of which these are read
pub record Vinfo : Type 0 where
  pub xres : ℕ
  pub yres : ℕ
  pub bits_per_pixel : ℕ

-- The fields of the headers that are not 0 or constant.
pub record Header : Type 0 where
  pub filesz : ℕ
  pub bmp_offset : ℕ
  pub width : ℕ
  pub height : ℕ
  pub bitspp : ℕ
  pub bmp_bytesz : ℕ
  pub hres : ℕ
  pub vres : ℕ
  pub ncolors : ℕ

-- The file: its header, its table of colors (red, green, blue and alpha), and its rows.
pub record Bitmap : Type 0 where
  pub header : Header
  pub colortab : List Bytes
  pub rows : List Bytes

-- Sixteen shades, from white to black.
unfoldable pub shades : ℕ → List Bytes
shades zero = []
shades (suc n) = (n * 17 ∷ n * 17 ∷ n * 17 ∷ 0 ∷ []) ∷ shades n

-- sizeof(magichdr) + sizeof(file_h) + sizeof(dib_h) + sizeof(colortab)
abbrev pub headers_size : ℕ
headers_size = 2 + 12 + 40 + 64

-- `offset = imgsize - (bperrow) * (i -1)`
abbrev pub row_offset : ℕ → ℕ → ℕ → ℕ
row_offset imgsize bperrow zero = imgsize + bperrow
row_offset imgsize bperrow (suc i) = imgsize - bperrow * i

-- `read(fd, &rowbuf, bperrow)` at an offset: the bytes that there are replace those of `rowbuf`.
abbrev pub read_row : Bytes → ℕ → ℕ → Bytes → Bytes
read_row fb offset bperrow rowbuf =
    let got = take bperrow (drop offset fb) in got ++ drop (length got) rowbuf

-- `for (i = 0; i < yres; i++)`, with the rounds that are left and `i`.
unfoldable pub write_rows : Bytes → ℕ → ℕ → ℕ → ℕ → Bytes → List Bytes
write_rows fb imgsize bperrow zero i rowbuf = []
write_rows fb imgsize bperrow (suc n) i rowbuf =
    let buf = read_row fb (row_offset imgsize bperrow i) bperrow rowbuf in
    buf ∷ write_rows fb imgsize bperrow n (i + 1) buf

-- `imgsize` and `bperrow` with the answer of ioctl(); a division by 0 is a fault.
abbrev pub sizes : Option Vinfo → Outcome (Vinfo × ℕ × ℕ)
sizes none = ok (
  record { xres = screenw; yres = screenh; bits_per_pixel = default_bpp },
  default_imgsize,
  default_imgsize / screenh,
)
sizes (some v) =
    let per_byte = 8 / v.bits_per_pixel in
    let imgsize = v.xres / per_byte * v.yres in
    if v.bits_per_pixel == 0 || (per_byte == 0 || v.yres == 0)
    then fault
    else ok (v, imgsize, imgsize / v.yres)

-- The file with the resolution, the size of the image and that of a row.
abbrev pub bitmap : Bytes → Bytes → Vinfo × ℕ × ℕ → Bitmap
bitmap fb rowbuf (v, imgsize, bperrow) =
    let dpm = if ltb screenw v.xres then kdxdpm else k3dpm in
    record {
      header = record {
        filesz = headers_size + default_imgsize;
        bmp_offset = headers_size;
        width = v.xres;
        height = v.yres;
        bitspp = v.bits_per_pixel;
        bmp_bytesz = imgsize;
        hres = dpm;
        vres = dpm;
        ncolors = 16;
      };
      colortab = shades 16;
      rows = write_rows fb imgsize bperrow v.yres 0 rowbuf;
    }

-- The result and what is written. `fb` is what the framebuffer holds if it can be opened, `creates`
-- says whether the destination can be, and `garbage` is what a row buffer of a size holds at first.
unfoldable pub do_screenshot :
    Option Bytes → Bool → Option Vinfo → (ℕ → Bytes) → Outcome (ℕ × Option Bitmap)
unfolding write_rows shades
do_screenshot none creates vinfo garbage = ok (1, none)
do_screenshot (some fb) creates vinfo garbage =
    if creates
    then sizes vinfo >>= (λ s. ok (0, some (bitmap fb (garbage s.2) s)))
    else ok (1, none)
