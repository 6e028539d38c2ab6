-- ===== src/Tests/Pixop.antt =====
-- Tests of the pixmap operations of src/pixop.c.
use kindle_launchpad.Base.{◌+ℤ◌, ◌≡◌, refl, pos, negsuc, [], ◌∷◌, ok, fault, arith, Returns}
use kindle_launchpad.Pixop.Surface.{Pixmap, IsAllocated}
use kindle_launchpad.Pixop.Draw.{pix_fill, pix_blt, pixmap_xtract, pixmap_invert}
use kindle_launchpad.Pixop.Bounds.{
  pix_fill-Returns, pix_blt-Returns, pixmap_xtract-Returns, pixmap_invert-faults,
}

-- Three pixels wide: a row has two bytes.
abbrev small : Pixmap
small = record { width = 3; height = 2; surf = 0 ∷ 0 ∷ 0 ∷ 0 ∷ [] }

abbrev tile : Pixmap
tile = record { width = 2; height = 1; surf = 255 ∷ [] }

fills :
    pix_fill small (pos 2) (negsuc 0) (pos 9) (pos 2) 5
    ≡ ok (record { width = 3; height = 2; surf = 0 ∷ 85 ∷ 0 ∷ 0 ∷ [] }, 2)
unfolding pix_fill
fills = refl

copies :
    pix_blt small (pos 0) (pos 1) tile
    ≡ ok (record { width = 3; height = 2; surf = 0 ∷ 0 ∷ 255 ∷ 0 ∷ [] }, 2)
unfolding pix_blt
copies = refl

small-IsAllocated : IsAllocated small
small-IsAllocated = refl

tile-IsAllocated : IsAllocated tile
tile-IsAllocated = refl

fill_example : Returns (λ r. IsAllocated r.0) (pix_fill small (negsuc 2) (pos 1) (pos 7) (pos 9) 3)
unfolding ◌+ℤ◌
fill_example =
    pix_fill-Returns small (negsuc 2) (pos 1) (pos 7) (pos 9) 3 small-IsAllocated refl refl

blt_example : Returns (λ r. IsAllocated r.0) (pix_blt small (pos 2) (pos 1) tile)
unfolding ◌+ℤ◌
blt_example =
    pix_blt-Returns small (pos 2) (pos 1) tile small-IsAllocated tile-IsAllocated refl refl

xtract_example : Returns (λ r. IsAllocated r.0) (pixmap_xtract tile (pos 2) (pos 1) small)
xtract_example = pixmap_xtract-Returns tile (pos 2) (pos 1) small tile-IsAllocated small-IsAllocated

invert_example : pixmap_invert small ≡ fault
invert_example = pixmap_invert-faults small small-IsAllocated (omega arith) (omega arith)
