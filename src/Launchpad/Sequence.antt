-- ===== src/Launchpad/Sequence.antt =====
-- src/launchpad.c: parse_action_sequence, which reads the name of a key of the section [Actions] as
-- the keys of a hotkey sequence.
use kindle_launchpad.Base.{
  ℕ, zero, suc, ◌+◌, ◌-◌, Bool, Option, none, some, ltb, ◌==◌, if◌then◌else◌, Bytes, [], set, take,
  length, replicate, strcpy, strtok_r, Outcome, ok, ◌>>=◌,
}
use kindle_launchpad.Keys.Names.{KeyTable, find_input_key_code}
pub mod Words
use kindle_launchpad.Launchpad.Action.{Action, max_seq, max_path, max_name, sendkeys}

-- The separator of the keys of a sequence.
abbrev pub is_space : ℕ → Bool
is_space c = c == b' '

-- `pact->sequence[pact->len] = code; pact->len += 1;`
abbrev pub add_code : Action → ℕ → Action
add_code pact code = record pact { sequence = set pact.sequence pact.len code; len = pact.len + 1 }

-- `for (i = 0; i < MAXSEQ; i++)`, with the rounds that are left and what `saveptr` points at.
unfoldable pub sequence_loop : KeyTable → ℕ → Bytes → Action → Action
unfolding strtok_r find_input_key_code
sequence_loop t zero rest pact = pact
sequence_loop t (suc n) rest pact = elim (strtok_r is_space rest) [
  | none ↦ pact
  | some (p, saveptr) ↦ elim (find_input_key_code t p) [
    | none ↦ record pact { len = 0 }
    | some code ↦ sequence_loop t n saveptr (add_code pact code)
  ]
]

-- `strncpy(dispname, pbuf, sizeof(dispname) - 1)`, into a cleared array
abbrev pub name_action : Bytes → Action → Action
name_action pbuf pact =
    if ltb 0 pact.len then record pact { dispname = take (max_name - 1) pbuf } else pact

-- The action with its sequence; its length is the result of the source.
unfoldable pub parse_action_sequence : KeyTable → Bytes → Action → Outcome Action
unfolding sequence_loop
parse_action_sequence t pbuf pact = do
  tmpbuf ← strcpy max_path pbuf
  ok (name_action pbuf (sequence_loop t max_seq tmpbuf (record pact { len = 0 })))

-- `memset(pactions + nactions, 0, sizeof(*pactions))`
abbrev pub cleared : Action
cleared = record {
  type = sendkeys;
  len = 0;
  sequence = replicate max_seq 0;
  command = [];
  dispname = [];
}
