-- ===== src/Launchpad/Load/Keeping.antt =====
-- The reading of the settings of a section, src/launchpad.c.
use kindle_launchpad.Base.{
  ℕ, [], ◌∷◌, Option, none, some, Bytes, Outcome, ok, OnOk, OnOk->>=, OnOk-always,
}
use kindle_launchpad.IniFile.Parse.{Database}
use kindle_launchpad.IniFile.Access.{inidb_find_section}
use kindle_launchpad.Launchpad.State.{
  Settings, read_settings, retrieve_key_value, on_value, with_value,
}
use kindle_launchpad.Launchpad.Load.{in_section}

-- A value that is read leaves a property alone that the use of it leaves alone.
pub with_value-OnOk :
    {A : Type 0} (P : A → Type 0) (db : Database) (s_idx : ℕ) (pkey : Bytes) (f : Bytes → A → A)
    → ((v : Bytes) (a : A) → P a → P (f v a))
    → (a : A) → P a
    → OnOk P (with_value db s_idx pkey f a)
unfolding with_value
with_value-OnOk P db s_idx pkey f keeps a h =
    OnOk->>= (λ v. Unit {0}) P (retrieve_key_value db s_idx pkey) _ (OnOk-always _) (λ v x. by v)
  where
    by : (v : Option Bytes) → P (on_value f v a)
    by none = h
    by (some v) = keeps v a h

-- Every setter of a list keeps a property.
abbrev pub AllKeep : {A : Type 0} → (A → Type 0) → Settings A → Type 0
AllKeep P [] = Unit
AllKeep {A} P ((pkey, f) ∷ fs) = ((v : Bytes) (a : A) → P a → P (f v a)) × AllKeep P fs

pub read_settings-OnOk :
    {A : Type 0} (P : A → Type 0) (db : Database) (s_idx : ℕ) (fs : Settings A)
    → AllKeep P fs
    → (a : A) → P a
    → OnOk P (read_settings db s_idx fs a)
unfolding read_settings
read_settings-OnOk P db s_idx [] keep a h = h
read_settings-OnOk P db s_idx ((pkey, f) ∷ fs) (keeps, keep) a h =
    OnOk->>= P P (with_value db s_idx pkey f a) _ (with_value-OnOk P db s_idx pkey f keeps a h)
      (λ next n. read_settings-OnOk P db s_idx fs keep next n)

pub in_section-OnOk :
    {A : Type 0} (P : A → Type 0) (db : Database) (p : Bytes) (f : ℕ → A → Outcome A)
    → ((s_idx : ℕ) (a : A) → P a → OnOk P (f s_idx a))
    → (a : A) → P a
    → OnOk P (in_section db p f a)
in_section-OnOk P db p f keeps a h =
    elim (inidb_find_section db p)
      as (λ o. OnOk P (elim o [ none ↦ ok a | some s_idx ↦ f s_idx a ])) [
        | none ↦ h
        | some s_idx ↦ keeps s_idx a h
      ]
