-- ===== src/Base/Strings.antt =====
-- Functions of the C library on strings and arrays of bytes: strncpy, strtok_r, and the copy of a
-- string into a buffer.
use Prim.Native.Nat.{ℕ}
use mathlib.Core.Bool.{Bool}
use mathlib.Core.Option.{Option, none, some}
use mathlib.Core.List.{[], ◌∷◌, ◌++◌}
use kindle_launchpad.Base.Tests.{ltb, ◌==◌, if◌then◌else◌}
use kindle_launchpad.Base.Lists.{length, take, drop, replicate}
use kindle_launchpad.Base.Text.{Bytes}
use kindle_launchpad.Base.Faults.{Outcome, ok, fault}

-- The C string at the start of an array.
unfoldable pub c_string : Bytes → Bytes
c_string [] = []
c_string (c ∷ cs) = let rest = c_string cs in if c == 0 then [] else c ∷ rest

-- `strncpy(dst, src, n)`: with a source of at least `n` bytes, no terminator is written.
abbrev pub strncpy : Bytes → Bytes → ℕ → Bytes
strncpy dst src n = take n (src ++ replicate n 0) ++ drop n dst

-- `strcpy` into an array of `size` bytes, which the terminator must fit in too.
abbrev pub strcpy : ℕ → Bytes → Outcome Bytes
strcpy size src = if ltb (length src) size then ok src else fault

-- The rest of a string behind the separators that it starts with.
unfoldable pub skip_separators : (ℕ → Bool) → Bytes → Bytes
skip_separators sep [] = []
skip_separators sep (c ∷ cs) = let rest = skip_separators sep cs in if sep c then rest else c ∷ cs

-- The bytes up to a separator, and those behind it.
unfoldable pub cut_token : (ℕ → Bool) → Bytes → Bytes × Bytes
cut_token sep [] = ([], [])
cut_token sep (c ∷ cs) =
    let rest = cut_token sep cs in if sep c then ([], cs) else (c ∷ rest.0, rest.1)

abbrev pub token_of : (ℕ → Bool) → Bytes → Option (Bytes × Bytes)
token_of sep [] = none
token_of sep (c ∷ cs) = some (cut_token sep (c ∷ cs))

-- `strtok_r`: the next token, and what `saveptr` points at; `none` is the null pointer.
unfoldable pub strtok_r : (ℕ → Bool) → Bytes → Option (Bytes × Bytes)
unfolding skip_separators cut_token
strtok_r sep s = token_of sep (skip_separators sep s)
