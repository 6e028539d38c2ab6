-- ===== src/Screenshot/Rows.antt =====
-- The rows of the screenshots of src/screenshot.c.
use native.Mathlib.Nat.{mul-add, mul-le-mul_left}
use mathlib.Core.List.{append-nil}
use kindle_launchpad.Base.{
  ◌>>=◌, true, ok, Option, if_false, if_true, ltb→lt, inr, inl, Bool-cases, if◌then◌else◌, ltb, ℕ,
  zero, suc, ◌+◌, ◌-◌, ◌*◌, ◌≤◌, ◌<◌, ◌≡◌, refl, sym, ap, ◌∙◌, [], ◌++◌, some, Bytes, length,
  length-append, length-take, length-drop, get_elem?, take, drop, drop_all, take_all, arith,
}
use kindle_launchpad.Screenshot.{
  Vinfo, Bitmap, sizes, bitmap, do_screenshot, row_offset, read_row, write_rows,
}

read_row_inside :
    (fb buf : Bytes) (offset b : ℕ)
    → length buf ≡ b
    → offset + b ≤ length fb
    → read_row fb offset b buf ≡ take b (drop offset fb)
read_row_inside fb buf offset b size le =
    let got = take b (drop offset fb) in
    let full = length-take b (drop offset fb) in
    let left = length-drop offset fb in
    ap (λ (l : Bytes). got ++ l) (drop_all (length got) buf (omega (arith, full, left)))
    ∙ append-nil got

read_row_behind :
    (fb buf : Bytes) (offset b : ℕ) → length fb ≤ offset → read_row fb offset b buf ≡ buf
read_row_behind fb buf offset b le =
    let none_left : take b (drop offset fb) ≡ [] =
      ap (take b) (drop_all offset fb le) ∙ take_all b [] (omega arith) in
    ap (λ (got : Bytes). got ++ drop (length got) buf) none_left

-- The row `i` of the file: what was in the buffer, or a row of the framebuffer.
unfoldable pub written_row : Bytes → ℕ → ℕ → Bytes → ℕ → Bytes
written_row fb b yres garbage i = if ltb i 2 then garbage else take b (drop (b * (yres + 1 - i)) fb)

module _ (fb : Bytes) (b yres : ℕ) (whole : length fb ≡ b * yres) where
  -- A row that is read from the framebuffer.
  later_row :
      (i : ℕ) (buf : Bytes)
      → length buf ≡ b
      → 2 ≤ i
      → i < yres
      → read_row fb (row_offset (b * yres) b i) b buf ≡ take b (drop (b * (yres + 1 - i)) fb)
  later_row zero buf size two lt = absurd (omega arith)
  later_row (suc k) buf size two lt =
      let m = yres - k in
      let split : k + m ≡ yres = omega arith in
      let parts : b * (k + m) ≡ b * k + b * m = mul-add b k m in
      let total : b * yres ≡ b * k + b * m = sym (ap (λ n. b * n) split) ∙ parts in
      let start : b * yres - b * k ≡ b * (yres + 1 - suc k) =
        let e : yres + 1 - suc k ≡ m = omega arith in
        omega (arith, total) ∙ ap (λ n. b * n) (sym e) in
      let later : 1 ≤ k = omega arith in
      let least = mul-le-mul_left b later in
      let one : b ≤ b * k = omega (arith, least) in
      read_row_inside fb buf (b * yres - b * k) b size (omega (arith, total, whole, one))
      ∙ ap (λ n. take b (drop n fb)) start

  -- The first two reads are behind the framebuffer.
  early_row : (i : ℕ) (buf : Bytes) → i < 2 → read_row fb (row_offset (b * yres) b i) b buf ≡ buf
  early_row zero buf lt = read_row_behind fb buf (b * yres + b) b (omega (arith, whole))
  early_row (suc zero) buf lt =
      let none_back : b * 0 ≡ 0 = omega arith in
      read_row_behind fb buf (b * yres - b * 0) b (omega (arith, whole, none_back))
  early_row (suc (suc k)) buf lt = absurd (omega arith)

  length-read_row :
      (offset : ℕ) (buf : Bytes) → length buf ≡ b → length (read_row fb offset b buf) ≡ b
  length-read_row offset buf size =
      let got = take b (drop offset fb) in
      let few = length-take b (drop offset fb) in
      let rest = length-drop (length got) buf in
      omega (arith, length-append got (drop (length got) buf), few, rest, size)

  module _ (garbage : Bytes) where
    this_row :
        (i : ℕ) (buf : Bytes)
        → length buf ≡ b
        → (i < 2 → buf ≡ garbage)
        → i < yres
        → read_row fb (row_offset (b * yres) b i) b buf ≡ written_row fb b yres garbage i
    unfolding written_row
    this_row i buf size first lt = elim (Bool-cases (ltb i 2)) [
      | inl early ↦
          early_row i buf (ltb→lt i 2 early)
          ∙ first (ltb→lt i 2 early)
          ∙ sym (if_true garbage (take b (drop (b * (yres + 1 - i)) fb)) early)
      | inr late ↦
          later_row i buf size (ground arith) lt
          ∙ sym (if_false garbage (take b (drop (b * (yres + 1 - i)) fb)) late)
    ]

    write_rows_lem :
        (n i j : ℕ) (buf : Bytes)
        → i + n ≡ yres
        → length buf ≡ b
        → (i < 2 → buf ≡ garbage)
        → j < n
        → get_elem? (write_rows fb (b * yres) b n i buf) j
          ≡ some (written_row fb b yres garbage (i + j))
    unfolding write_rows
    write_rows_lem zero i j buf all size first lt = absurd (omega arith)
    write_rows_lem (suc n) i zero buf all size first lt =
        let e : i ≡ i + 0 = omega arith in
        ap some (this_row i buf size first (omega arith) ∙ ap (written_row fb b yres garbage) e)
    write_rows_lem (suc n) i (suc j) buf all size first lt =
        let next = read_row fb (row_offset (b * yres) b i) b buf in
        let e : i + 1 + j ≡ i + suc j = omega arith in
        write_rows_lem n (i + 1) j next (omega arith)
          (length-read_row (row_offset (b * yres) b i) buf size)
          (λ early. early_row i buf (omega arith) ∙ first (omega arith)) (omega arith)
        ∙ ap (λ k. some (written_row fb b yres garbage k)) e

-- When the framebuffer holds exactly the image and both files can be opened, a screenshot is written,
-- and it has a row for each row of the screen. Its rows from the third one on are those of the
-- framebuffer from the last one up to the third; its first two rows are what the row buffer held
-- before anything was read, so the two top rows of the screen are missing.
pub do_screenshot-written_row :
    (fb : Bytes) (vinfo : Option Vinfo) (garbage : ℕ → Bytes) (v : Vinfo) (b i : ℕ)
    → sizes vinfo ≡ ok (v, b * v.yres, b)
    → length fb ≡ b * v.yres
    → length (garbage b) ≡ b
    → i < v.yres
    → (bmp : Bitmap) × (do_screenshot (some fb) true vinfo garbage ≡ ok (0, some bmp))
      × (get_elem? bmp.rows i ≡ some (written_row fb b v.yres (garbage b) i))
unfolding do_screenshot
do_screenshot-written_row fb vinfo garbage v b i sized whole size lt = (
  bitmap fb (garbage b) (v, b * v.yres, b),
  ap (λ m. m >>= λ s. ok (0, some (bitmap fb (garbage s.2) s))) sized,
  write_rows_lem fb b v.yres whole (garbage b) v.yres 0 i (garbage b) (omega arith) size (λ e. refl)
        lt
      ∙ ap (λ k. some (written_row fb b v.yres (garbage b) k)) (omega arith),
)
