-- ===== src/IniFile/Finding.antt =====
-- src/inifile.c: what inidb_find_key finds is the key that the accessors read.
use kindle_launchpad.Base.{
  ℕ, ◌+◌, ◌≤◌, ◌<◌, ◌≡◌, refl, sym, ap, ◌∙◌, pos, true, false, List, [], ◌∷◌, Option, none, some,
  ltb, ◌==◌, if_true, if_false, Bool-cases, inl, inr, Bytes, same_name, length, get_elem?, ◌&&◌,
  ok-injective, Outcome, ok, fault, no_fuel, ◌>>=◌, arith,
}
use kindle_launchpad.IniFile.Parse.{SectionRow, KeyRow, Database}
use kindle_launchpad.IniFile.Access.{
  read, section_at, row_or_fault, nth_key, key_at, from_pairs, find_key_from, inidb_find_key,
  inidb_get_key_name,
}
use kindle_launchpad.IniFile.Tables.{keys_of, Pairs, Consistent}

same_option : {r q : ℕ} → some r ≡ some q → r ≡ q
same_option e = cc

-- Both loops count in the same way: the key that is found is the one of that number.
found_key :
    (db : Database) (sidx : ℕ) (pname : Bytes) (j : ℕ) (rows : List KeyRow) {i : ℕ}
    → find_key_from db sidx pname j rows ≡ some i
    → (i < j + keys_of sidx rows)
      × (j ≤ i)
      × ((r : KeyRow) × (nth_key sidx i j rows ≡ some r)
          × (same_name pname (read db r.pkname) ≡ true))
unfolding find_key_from nth_key keys_of
found_key db sidx pname j [] e = absurd (cc e)
found_key db sidx pname j (r ∷ rs) {i} e = elim (Bool-cases (r.psect == sidx)) [
  | inr other ↦
      let rest = found_key db sidx pname j rs {i = i} (sym (if_false _ _ other) ∙ e) in
      rw other rest
  | inl own ↦
      let chosen = sym (if_true _ _ own) ∙ e in
      elim (Bool-cases (same_name pname (read db r.pkname))) [
        | inl hit ↦
            let here : j ≡ i = same_option (sym (if_true _ _ hit) ∙ chosen) in
            let same : (j == i) ≡ true = ground arith in
            rw (own, same) (omega arith, omega arith, (r, refl, hit))
        | inr miss ↦
            let rest =
              found_key db sidx pname (j + 1) rs {i = i} (sym (if_false _ _ miss) ∙ chosen) in
            let later : (j == i) ≡ false = ground (arith, rest.1) in
            rw (own, later) (omega (arith, rest.0), omega (arith, rest.1), rest.2)
      ]
]

ok_bind {ℓ κ} :
    {A : Type ℓ} {B : Type κ} (m : Outcome A) (f : A → Outcome B) {b : B}
    → m >>= f ≡ ok b
    → (a : A) × (m ≡ ok a) × (f a ≡ ok b)
ok_bind (ok a) f e = (a, refl, e)
ok_bind fault f e = cc
ok_bind no_fuel f e = cc

section_row : (o : Option SectionRow) {r : SectionRow} → row_or_fault o ≡ ok r → o ≡ some r
section_row none e = cc
section_row (some q) e = ap some (ok-injective e)

keys_of-from_pairs :
    (db : Database) (sidx : ℕ) (o : Option ℕ) {rows : List KeyRow}
    → Pairs sidx db.pkeys o
    → from_pairs db o ≡ ok rows
    → keys_of sidx rows ≡ keys_of sidx db.pkeys
keys_of-from_pairs db sidx none h e = cc
keys_of-from_pairs db sidx (some n) (le, h) e = ap (keys_of sidx) (sym (ok-injective e)) ∙ h

copied_name :
    (db : Database) (sidx j : ℕ) (row : SectionRow) (rows : List KeyRow) (r : KeyRow)
    → get_elem? db.psections sidx ≡ some row
    → ltb j row.npairs ≡ true
    → from_pairs db row.ppairs ≡ ok rows
    → nth_key sidx j 0 rows ≡ some r
    → inidb_get_key_name db sidx j ≡ ok (length (read db r.pkname), some (read db r.pkname))
unfolding inidb_get_key_name key_at
copied_name db sidx j row rows r at_row counted at_pairs key =
    rw (at_row, counted, at_pairs, key) refl

-- In a database with consistent tables, when inidb_find_key gives a number for a name, then
-- inidb_get_key_name of that number copies a name that differs from it at most in the case of
-- letters.
pub inidb_find_key-inidb_get_key_name :
    (db : Database) (sidx : ℕ) (pname : Bytes) (j : ℕ)
    → Consistent db.psections db.pkeys
    → inidb_find_key db (pos sidx) pname ≡ ok (some j)
    → (name : Bytes) × (inidb_get_key_name db sidx j ≡ ok (length name, some name))
      × (same_name pname name ≡ true)
unfolding inidb_find_key
inidb_find_key-inidb_get_key_name db sidx pname j consistent e =
    elim (Bool-cases (ltb 0 (length db.psections) && ltb sidx (length db.psections))) [
      | inr outside ↦ absurd (cc (sym (if_false _ _ outside) ∙ e))
      | inl inside ↦
          let (row, at_row, rest) = ok_bind (section_at db sidx) _ (sym (if_true _ _ inside) ∙ e) in
          let (rows, at_pairs, found) = ok_bind (from_pairs db row.ppairs) _ rest in
          let (count, pairs) =
            consistent.0 sidx row (section_row (get_elem? db.psections sidx) at_row) in
          let all_rows = keys_of-from_pairs db sidx row.ppairs pairs at_pairs in
          let (bound, least, (r, key, same)) =
            found_key db sidx pname 0 rows {i = j} (ok-injective found) in
          let counted : ltb j row.npairs ≡ true = ground (arith, bound, count, all_rows) in
          (
            read db r.pkname,
            copied_name db sidx j row rows r (section_row (get_elem? db.psections sidx) at_row)
                counted at_pairs key,
            same,
          )
    ]
