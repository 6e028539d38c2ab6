-- ===== src/Hotkey/Loop.antt =====
-- src/main.c: one pass of the event loop of main(), from select() to the events of the three input
-- devices. What the kernel answers to select() and read() is an argument.
use kindle_launchpad.Base.{
  ℕ, ◌*◌, ℤ, pos, ◌-ℤ◌, eqb_ℤ, ltb_ℤ, minus_one, Bool, not, ◌&&◌, ◌||◌, ◌==◌, if◌then◌else◌, List,
  [], ◌∷◌, ◌++◌, Option, none, some, length, take, drop, Outcome, ok, ◌>>=◌,
}
use kindle_launchpad.Hotkey.State.{InputEvent, Hotkey}
use kindle_launchpad.Hotkey.Step.{process_input_event}
use kindle_launchpad.Keys.Codes.{
  kpkey_fw_press, kpkey_fw_up, kpkey_fw_right, kpkey_fw_down, kpkey_fw_left, k3key_fw_up,
  k3key_fw_down, k3key_fw_press, k3key_vplus, k3key_vminus,
}
use kindle_launchpad.Launchpad.Action.{Found}

-- The `case` labels of the three `switch`es: the codes of the fiveway, and those of the volume keys.
unfoldable pub is_fiveway_code : ℕ → Bool
is_fiveway_code c =
    c == kpkey_fw_press
    || (c == kpkey_fw_up
        || (c == kpkey_fw_right
            || (c == kpkey_fw_down
                || (c == kpkey_fw_left
                    || (c == k3key_fw_up || (c == k3key_fw_down || c == k3key_fw_press))))))

unfoldable pub is_volume_code : ℕ → Bool
is_volume_code c = c == k3key_vplus || c == k3key_vminus

-- `sizeof(struct input_event)` on the 32-bit devices
abbrev pub event_size : ℕ
event_size = 16

-- What read() answers: whole events, at most the two that were asked for, or -1.
pub data ReadResult : Type 0 where
  got : List InputEvent → ReadResult
  failed : ReadResult

abbrev pub num_bytes : ReadResult → ℤ
num_bytes (got evs) = pos (event_size * length (take 2 evs))
num_bytes failed = minus_one

-- The buffer after the call; a call that fails leaves it.
abbrev pub read_into : ReadResult → List InputEvent → List InputEvent
read_into (got evs) buf = take 2 evs ++ drop (length (take 2 evs)) buf
read_into failed buf = buf

-- `numBytes < sizeof(struct input_event)`: the `int` is compared as an unsigned number, so a
-- negative one is not less.
abbrev pub is_short : ℤ → Bool
is_short n = not (ltb_ℤ n (pos 0)) && ltb_ℤ n (pos event_size)

module _ (execute_action : Found → ℕ) where
  -- `for (i = 0; i < 2; i++)` over a buffer of two events; `keep` is the `switch`.
  unfoldable pub drain : (ℕ → Bool) → List InputEvent → ℤ → Hotkey → Outcome Hotkey
  drain keep [] n s = ok s
  drain keep (pev ∷ evs) n s =
      let rest = λ (t : Hotkey). drain keep evs (n -ℤ pos event_size) t in
      if is_short n
      then ok s
      else (if keep pev.code then process_input_event execute_action s pev else ok s) >>= rest

-- The machine, and the three buffers of main().
pub record Loop : Type 0 where
  pub hotkey : Hotkey
  pub kbbuf : List InputEvent
  pub fwbuf : List InputEvent
  pub k3volbuf : List InputEvent

-- What select() answers; for a ready device, what the read() behind it answers.
pub data Select : Type 0 where
  ready : Option ReadResult → Option ReadResult → Option ReadResult → Select
  timeout : Select
  interrupted : Select

abbrev max_of : ℤ → ℤ → ℤ
max_of maxfd fd = if eqb_ℤ fd minus_one then maxfd else if ltb_ℤ maxfd fd then fd else maxfd

-- `maxfd` in front of select()
abbrev pub max_fd : Hotkey → ℤ
max_fd s =
    max_of (max_of (if eqb_ℤ s.fd_kbd minus_one then pos 0 else s.fd_kbd) s.fd_fw) s.fd_k3_vol

-- `if (rc == 0)`: bring everything in sync.
unfoldable pub idle : Hotkey → Hotkey
idle s = record s { npressed = pos 0; hot_sequence_length = 0; skip_next_events = 0 }

-- The read() of a device that is open and ready.
abbrev pub answer : ℤ → Option ReadResult → Option ReadResult
answer fd r = if eqb_ℤ fd minus_one then none else r

abbrev pub refill : Option ReadResult → List InputEvent → List InputEvent
refill none buf = buf
refill (some r) buf = read_into r buf

module _ (execute_action : Found → ℕ) where
  unfoldable pub serve : (ℕ → Bool) → Option ReadResult → List InputEvent → Hotkey → Outcome Hotkey
  unfolding drain
  serve keep none buf s = ok s
  serve keep (some r) buf s = drain execute_action keep buf (num_bytes r) s

  -- The three `if (FD_ISSET(…))` blocks, in order.
  unfoldable pub serve_all :
      Option ReadResult → Option ReadResult → Option ReadResult → Loop → Outcome Loop
  unfolding serve
  serve_all kbd fw vol l = do
    let kbbuf = refill kbd l.kbbuf
    let fwbuf = refill fw l.fwbuf
    let k3volbuf = refill vol l.k3volbuf
    s ← serve (λ c. not (is_fiveway_code c)) kbd kbbuf l.hotkey
    t ← serve is_fiveway_code fw fwbuf s
    u ← serve is_volume_code vol k3volbuf t
    ok (record { hotkey = u; kbbuf = kbbuf; fwbuf = fwbuf; k3volbuf = k3volbuf })

  unfoldable pub loop_pass : Select → Loop → Outcome Loop
  unfolding serve_all idle
  loop_pass (ready kbd fw vol) l =
      if eqb_ℤ (max_fd l.hotkey) (pos 0)
      then ok l
      else serve_all (answer l.hotkey.fd_kbd kbd) (answer l.hotkey.fd_fw fw)
          (answer l.hotkey.fd_k3_vol vol) l
  loop_pass timeout l =
      if eqb_ℤ (max_fd l.hotkey) (pos 0) then ok l else ok (record l { hotkey = idle l.hotkey })
  loop_pass interrupted l = ok l
