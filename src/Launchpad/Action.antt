-- ===== src/Launchpad/Action.antt =====
-- `struct action` of include/launchpad.h, and find_sequence_action of src/launchpad.c.
use kindle_launchpad.Base.{
  ℕ, Bool, ◌&&◌, List, [], ◌∷◌, Option, none, some, ◌==◌, if◌then◌else◌, Bytes, same_bytes, take,
}
pub mod Laws
use kindle_launchpad.Keys.Codes.{kpkey_shift}

-- MAXSEQ, MAXPATH and MAXNAME
abbrev pub max_seq : ℕ
max_seq = 8

abbrev pub max_path : ℕ
max_path = 256

abbrev pub max_name : ℕ
max_name = 16

-- ACTION_SENDKEYS, ACTION_SHELL_COMMAND, ACTION_KINDLE_KEYS and ACTION_KINDLE_SCRIPT
pub data ActionType : Type 0 where
  sendkeys shell_command kindle_keys kindle_script : ActionType

-- `sequence` is an array of MAXSEQ codes, of which the first `len` are used.
pub record Action : Type 0 where
  pub type : ActionType
  pub len : ℕ
  pub sequence : List ℕ
  pub command : Bytes
  pub dispname : Bytes

-- What find_sequence_action returns, but for the null pointer: a row of the table, or the pointer
-- -1, which stands for the built-in screenshot.
pub data Found : Type 0 where
  action : Action → Found
  screenshot : Found

-- `pa->len == len && memcmp(pseq, pa->sequence, len * sizeof(short)) == 0`
unfoldable pub has_sequence : List ℕ → ℕ → Action → Bool
has_sequence pseq len pa = (pa.len == len) && same_bytes (take len pseq) (take len pa.sequence)

unfoldable pub first_with_sequence : List ℕ → ℕ → List Action → Option Action
unfolding has_sequence
first_with_sequence pseq len [] = none
first_with_sequence pseq len (pa ∷ rest) =
    if has_sequence pseq len pa then some pa else first_with_sequence pseq len rest

abbrev pub triple_shift : List ℕ
triple_shift = kpkey_shift ∷ kpkey_shift ∷ []

abbrev if_not_found : List ℕ → ℕ → Option Action → Option Found
if_not_found pseq len (some pa) = some (action pa)
if_not_found pseq len none =
    if (len == 2) && same_bytes triple_shift (take 2 pseq) then some screenshot else none

-- `pactions` is the table up to `nactions`.
unfoldable pub find_sequence_action : List Action → List ℕ → ℕ → Option Found
unfolding first_with_sequence same_bytes
find_sequence_action pactions pseq len =
    if_not_found pseq len (first_with_sequence pseq len pactions)
