-- ===== src/Pixop/Rows.antt =====
-- src/pixop.c: rows that follow one another, and what stands in front of them.
use native.Mathlib.Nat.{suc-mul}
use mathlib.Core.List.{append_assoc, append-nil}
use kindle_launchpad.Base.{
  OnOk-map, ◌>>=◌, drop_all, ℕ, zero, suc, ◌+◌, ◌*◌, ◌≤◌, ◌≡◌, refl, sym, ap, ◌∙◌, leb, if_rule,
  if_true, true, ◌&&◌, [], ◌∷◌, ◌++◌, Bytes, length, length-append, length-take, length-drop, take,
  drop, take-drop, drop-drop, take-take_next, take-length-append, drop-length-append, Outcome, ok,
  fault, OnOk, OnOk->>=, arith,
}
use kindle_launchpad.Pixop.Surface.{splice, memset, memcpy}
use kindle_launchpad.Pixop.Draw.{fill_rows, copy_rows}
use kindle_launchpad.Pixop.Bounds.{length-splice}

-- Two parts written one behind the other.
splice-splice :
    (dp : ℕ) (a b dst : Bytes)
    → dp + length a ≤ length dst
    → splice (dp + length a) b (splice dp a dst) ≡ splice dp (a ++ b) dst
splice-splice dp a b dst h =
    let n = dp + length a in
    let rest = drop n dst in
    let front = take dp dst ++ a in
    let size : length front ≡ n =
      omega (arith, length-append (take dp dst) a, length-take dp dst) in
    let parts : splice dp a dst ≡ front ++ rest = sym (append_assoc (take dp dst) a rest) in
    let before : take n (splice dp a dst) ≡ front =
      ap (take n) parts
      ∙ ap (λ k. take k (front ++ rest)) (sym size)
      ∙ take-length-append front rest in
    let end : n + length b ≡ dp + length (a ++ b) = omega (arith, length-append a b) in
    let behind : drop (n + length b) (splice dp a dst) ≡ drop (dp + length (a ++ b)) dst =
      ap (drop (n + length b)) parts
      ∙ ap (λ k. drop (k + length b) (front ++ rest)) (sym size)
      ∙ drop-length-append front rest (length b)
      ∙ drop-drop n (length b) dst
      ∙ ap (λ k. drop k dst) end in
    let last = drop (dp + length (a ++ b)) dst in
    rw (before, behind)
      (append_assoc (take dp dst) a (b ++ last)
        ∙ ap (λ (l : Bytes). take dp dst ++ l) (sym (append_assoc a b last)))

-- Rows without a gap between them are one part.
pub copy_rows_lem :
    (lines dp sp n : ℕ) (src dst : Bytes)
    → dp + lines * n ≤ length dst
    → sp + lines * n ≤ length src
    → copy_rows lines dp sp n n n src dst ≡ ok (splice dp (take (lines * n) (drop sp src)) dst)
unfolding copy_rows memcpy
copy_rows_lem zero dp sp n src dst h k =
    let e : 0 * n ≡ 0 = omega arith in
    let d : dp ≡ dp + 0 = omega arith in
    ap ok (
      sym (take-drop dp dst)
      ∙ ap (λ m. take dp dst ++ drop m dst) d
      ∙ ap (λ m. splice dp (take m (drop sp src)) dst) (sym e))
copy_rows_lem (suc lines) dp sp n src dst h k =
    let m = suc-mul lines n in
    let one = take n (drop sp src) in
    let others = take (lines * n) (drop (sp + n) src) in
    let next = splice dp one dst in
    let size : length one ≡ n = omega (arith, length-take n (drop sp src), length-drop sp src, m) in
    let kept : length next ≡ length dst = length-splice dp one dst (omega (arith, size, m)) in
    let inside : (leb (dp + n) (length dst) && leb (sp + n) (length src)) ≡ true =
      ground (arith, m) in
    let joined : one ++ others ≡ take (suc lines * n) (drop sp src) =
      ap (λ (l : Bytes). one ++ take (lines * n) l) (sym (drop-drop sp n src))
      ∙ take-take_next n (lines * n) (drop sp src)
      ∙ ap (λ j. take j (drop sp src)) (omega (arith, m)) in
    ap (λ o. o >>= λ next. copy_rows lines (dp + n) (sp + n) n n n src next)
      (if_true (ok next) fault inside)
    ∙ copy_rows_lem lines (dp + n) (sp + n) n src next (omega (arith, kept, m)) (omega (arith, m))
    ∙ ap (λ j. ok (splice (dp + j) others next)) (sym size)
    ∙ ap ok (splice-splice dp one others dst (omega (arith, size, m)))
    ∙ ap (λ l. ok (splice dp l dst)) joined

-- A part that is written up to the end.
pub splice_end :
    (dp : ℕ) (l dst : Bytes) → length dst ≤ dp + length l → splice dp l dst ≡ take dp dst ++ l
splice_end dp l dst h =
    ap (λ t. take dp dst ++ (l ++ t)) (drop_all (dp + length l) dst h)
    ∙ ap (λ t. take dp dst ++ t) (append-nil l)

-- The first `k` bytes are as they were.
abbrev pub SameFront : ℕ → Bytes → Bytes → Type 0
SameFront k before after = take k after ≡ take k before

take-take_append :
    (k n : ℕ) (xs ys : Bytes) → k ≤ n → n ≤ length xs → take k (take n xs ++ ys) ≡ take k xs
take-take_append zero n xs ys le lt = refl
take-take_append (suc k) zero xs ys le lt = absurd (omega arith)
take-take_append (suc k) (suc n) [] ys le lt = absurd (omega arith)
take-take_append (suc k) (suc n) (x ∷ xs) ys le lt =
    ap (λ (l : Bytes). x ∷ l) (take-take_append k n xs ys (omega arith) (omega arith))

memset-SameFront :
    (k dp color n : ℕ) (surf : Bytes) → k ≤ dp → OnOk (SameFront k surf) (memset dp color n surf)
unfolding memset
memset-SameFront k dp color n surf le =
    if_rule (OnOk (SameFront k surf)) (leb (dp + n) (length surf))
      (λ e. take-take_append k dp surf _ le (ground arith)) (λ e. tt)

memcpy-SameFront :
    (k dp sp n : ℕ) (src dst : Bytes) → k ≤ dp → OnOk (SameFront k dst) (memcpy dp sp n src dst)
unfolding memcpy
memcpy-SameFront k dp sp n src dst le =
    if_rule (OnOk (SameFront k dst)) (leb (dp + n) (length dst) && leb (sp + n) (length src))
      (λ e. take-take_append k dp dst _ le (ground arith)) (λ e. tt)

further :
    (k : ℕ) (before next : Bytes) (m : Outcome Bytes)
    → SameFront k before next
    → OnOk (SameFront k next) m
    → OnOk (SameFront k before) m
further k before next m e h =
    OnOk-map (SameFront k next) (SameFront k before) m h (λ after f. f ∙ e)

pub fill_rows-SameFront :
    (k h dp s n color : ℕ) (surf : Bytes)
    → k ≤ dp
    → OnOk (SameFront k surf) (fill_rows h dp s n color surf)
unfolding fill_rows
fill_rows-SameFront k zero dp s n color surf le = refl
fill_rows-SameFront k (suc h) dp s n color surf le =
    OnOk->>= (SameFront k surf) (SameFront k surf) (memset dp color n surf) _
      (memset-SameFront k dp color n surf le)
      (λ next e.
        further k surf next (fill_rows h (dp + s) s n color next) e
          (fill_rows-SameFront k h (dp + s) s n color next (omega arith)))

pub copy_rows-SameFront :
    (k h dp sp ds ss n : ℕ) (src dst : Bytes)
    → k ≤ dp
    → OnOk (SameFront k dst) (copy_rows h dp sp ds ss n src dst)
unfolding copy_rows
copy_rows-SameFront k zero dp sp ds ss n src dst le = refl
copy_rows-SameFront k (suc h) dp sp ds ss n src dst le =
    OnOk->>= (SameFront k dst) (SameFront k dst) (memcpy dp sp n src dst) _
      (memcpy-SameFront k dp sp n src dst le)
      (λ next e.
        further k dst next (copy_rows h (dp + ds) (sp + ss) ds ss n src next) e
          (copy_rows-SameFront k h (dp + ds) (sp + ss) ds ss n src next (omega arith)))
