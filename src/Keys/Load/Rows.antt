-- ===== src/Keys/Load/Rows.antt =====
-- The key table that src/keydefs.c reads from keydefs.ini.
use kindle_launchpad.Base.{
  OnOk-map, ℕ, zero, suc, ◌+◌, ◌-◌, ◌≤◌, ◌<◌, ◌≡◌, refl, sym, ◌∙◌, inl, inr, Bytes, codes, Option,
  none, some, ltb, ◌==◌, if◌then◌else◌, if_rule, set, get_or, get_or-set, get_or-replicate,
  get_elem?-set_self, get_elem?-set_behind, length, length-set, take, OnOk, OnOk->>=, OnOk-always,
  arith,
}
use kindle_launchpad.Keys.Table.{default_input_keys, InputKey, max_keys}
use kindle_launchpad.Keys.Names.{KeyTable, blank_table, get_default_input_keydefs}
use kindle_launchpad.Keys.Convert.{convert_key_code}
use kindle_launchpad.Keys.Laws.{
  IsConsistent, blank-IsConsistent, get_default_input_keydefs-IsConsistent,
}
use kindle_launchpad.IniFile.Parse.{Database}
use kindle_launchpad.IniFile.Open.{inidb_open, into_buffer}
use kindle_launchpad.IniFile.Access.{
  inidb_find_section, inidb_get_number_of_keys, inidb_get_key_name, inidb_get_key_value,
}
use kindle_launchpad.Keys.Load.{
  max_name, max_path, store_code, with_value, with_name, key_row, key_rows, key_section,
  with_database, get_input_keydefs, load_keys,
}

-- Codes lead to the rows before `i` only, and each to a row that has it; no more keys are counted
-- than rows were gone through.
abbrev pub IsFilled : ℕ → KeyTable → Type 0
IsFilled i t =
    (length t.input_keys ≡ max_keys)
    × (t.n_input_keys ≤ i)
    × IsConsistent t.input_keys t.input_key_codes
    × ((c j : ℕ) → get_or t.input_key_codes c none ≡ some j → j < i)

further-IsFilled : (i : ℕ) (t : KeyTable) → IsFilled i t → IsFilled (i + 1) t
further-IsFilled i t (size, count, consistent, before) =
    (size, omega arith, consistent, λ c j e. let lt = before c j e in omega (arith, lt))

store-IsFilled :
    (i code : ℕ) (row : InputKey) (t : KeyTable)
    → i < max_keys
    → row.input_key_code ≡ code
    → IsFilled i t
    → IsFilled (i + 1) (record {
      input_keys = set t.input_keys i row;
      input_key_codes = set t.input_key_codes code (some i);
      n_input_keys = t.n_input_keys + 1;
    })
store-IsFilled i code row t lt has (size, count, consistent, before) = (
  length-set t.input_keys i row ∙ size,
  omega arith,
  λ c j e. elim (get_or-set t.input_key_codes code c (some i) none) [
    | inl old ↦
        let (k, at_j, is) = consistent c j (sym old ∙ e) in
        (k, get_elem?-set_behind t.input_keys i j row (before c j (sym old ∙ e)) ∙ at_j, is)
    | inr (hit, new) ↦
        let same : i ≡ j = cc in
        (
          row,
          rw (sym same) (get_elem?-set_self t.input_keys i row (omega (arith, size))),
          has ∙ hit,
        )
  ],
  λ c j e. elim (get_or-set t.input_key_codes code c (some i) none) [
    | inl old ↦ let lt = before c j (sym old ∙ e) in omega (arith, lt)
    | inr (hit, new) ↦ let same : i ≡ j = cc in omega (arith, same)
  ],
)

store_code-IsFilled :
    (i : ℕ) (name : Bytes) (o : Option ℕ) (t : KeyTable)
    → i < max_keys
    → IsFilled i t
    → IsFilled (i + 1) (store_code i name o t)
store_code-IsFilled i name none t lt h = further-IsFilled i t h
store_code-IsFilled i name (some code) t lt h =
    elim (get_or t.input_key_codes code none)
      as (λ x. IsFilled (i + 1) (elim x [
        | some j ↦ t
        | none ↦ record {
          input_keys =
              set t.input_keys i
                (record { input_key_code = code; input_key_name = take (max_name - 1) name });
          input_key_codes = set t.input_key_codes code (some i);
          n_input_keys = t.n_input_keys + 1;
        }
      ])) [ some j ↦ further-IsFilled i t h | none ↦ store-IsFilled i code _ t lt refl h ]

key_row-IsFilled :
    (db : Database) (s_idx i : ℕ) (t : KeyTable)
    → i < max_keys
    → IsFilled i t
    → OnOk (IsFilled (i + 1)) (key_row db s_idx i t)
unfolding key_row
key_row-IsFilled db s_idx i t lt h =
    OnOk->>= (λ g. Unit {0}) (IsFilled (i + 1)) (inidb_get_key_name db s_idx i) _ (OnOk-always _)
      (λ got x.
        OnOk->>= (λ v. Unit {0}) (IsFilled (i + 1)) (into_buffer max_name got) _ (OnOk-always _)
          (λ o y. named o))
  where
    valued : (name : Bytes) (o : Option Bytes) → IsFilled (i + 1) (with_value i name t o)
    valued name none = further-IsFilled i t h
    valued name (some value) = store_code-IsFilled i name (convert_key_code value) t lt h

    named : (o : Option Bytes) → OnOk (IsFilled (i + 1)) (with_name db s_idx i t o)
    named none = further-IsFilled i t h
    named (some name) =
        OnOk->>= (λ g. Unit {0}) (IsFilled (i + 1)) (inidb_get_key_value db s_idx i) _
          (OnOk-always _)
          (λ got x.
            OnOk->>= (λ v. Unit {0}) (IsFilled (i + 1)) (into_buffer max_path got) _ (OnOk-always _)
              (λ o y. valued name o))

key_rows-IsFilled :
    (db : Database) (s_idx n i : ℕ) (t : KeyTable)
    → i + n ≤ max_keys
    → IsFilled i t
    → OnOk (IsFilled (i + n)) (key_rows db s_idx n i t)
unfolding key_rows
key_rows-IsFilled db s_idx zero i t le h = let e : i ≡ i + 0 = omega arith in rw (sym e) h
key_rows-IsFilled db s_idx (suc n) i t le h =
    let e : i + 1 + n ≡ i + suc n = omega arith in
    OnOk->>= (IsFilled (i + 1)) (IsFilled (i + suc n)) (key_row db s_idx i t) _
      (key_row-IsFilled db s_idx i t (omega arith) h)
      (λ next u. rw (sym e) (key_rows-IsFilled db s_idx n (i + 1) next (omega arith) u))

-- A table of MAXKEYS (96) rows, in which every code leads to a row that has it.
abbrev pub IsKeyTable : KeyTable → Type 0
IsKeyTable t =
    (length t.input_keys ≡ max_keys)
    × (t.n_input_keys ≤ max_keys)
    × IsConsistent t.input_keys t.input_key_codes

section-IsKeyTable :
    (db : Database) (t : KeyTable) (o : Option ℕ)
    → IsFilled 0 t
    → OnOk IsKeyTable (key_section db t o)
section-IsKeyTable db t none (size, count, consistent, before) = (size, omega arith, consistent)
section-IsKeyTable db t (some s_idx) h =
    OnOk->>= (λ n. Unit {0}) IsKeyTable (inidb_get_number_of_keys db s_idx) _ (OnOk-always _)
      (λ n x. rows (if ltb max_keys n then max_keys else n) (ground arith))
  where
    rows : (n : ℕ) → n ≤ max_keys → OnOk IsKeyTable (key_rows db s_idx n 0 t)
    rows n le =
        OnOk-map (IsFilled (0 + n)) IsKeyTable (key_rows db s_idx n 0 t)
          (key_rows-IsFilled db s_idx n 0 t (omega arith) h)
          (λ u (size, count, consistent, before). (size, omega arith, consistent))

get_input_keydefs-IsKeyTable :
    (contents : Option Bytes) → OnOk IsKeyTable (get_input_keydefs contents blank_table)
unfolding get_input_keydefs
get_input_keydefs-IsKeyTable contents =
    OnOk->>= (λ o. Unit {0}) IsKeyTable (inidb_open contents) _ (OnOk-always _) (λ o x. by o)
  where
    blank : IsFilled 0 blank_table
    blank = (
      refl,
      omega arith,
      blank-IsConsistent 256 blank_table.input_keys,
      λ c j e. absurd (cc (get_or-replicate {A = Option ℕ} 256 c none)),
    )

    by : (o : Option Database) → OnOk IsKeyTable (with_database blank_table o)
    by none = (refl, omega arith, blank-IsConsistent 256 blank_table.input_keys)
    by (some db) =
        section-IsKeyTable db blank_table (inidb_find_section db (codes "InputKeys")) blank

default-IsKeyTable : IsKeyTable get_default_input_keydefs
unfolding get_default_input_keydefs default_input_keys
default-IsKeyTable =
    (refl, omega arith, unfold get_default_input_keydefs in get_default_input_keydefs-IsConsistent)

-- Whatever keydefs.ini holds, and without it: when the key table is loaded, it has MAXKEYS (96) rows of which
-- at most all are counted, and every code that has a row has one with exactly that code.
pub load_keys-IsKeyTable :
    (contents : Option Bytes) → OnOk IsKeyTable (load_keys contents blank_table)
unfolding load_keys
load_keys-IsKeyTable contents =
    OnOk->>= IsKeyTable IsKeyTable (get_input_keydefs contents blank_table) _
      (get_input_keydefs-IsKeyTable contents)
      (λ u h. if_rule IsKeyTable (u.n_input_keys == 0) (λ e. default-IsKeyTable) (λ e. h))
