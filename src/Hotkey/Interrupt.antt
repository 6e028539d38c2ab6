-- ===== src/Hotkey/Interrupt.antt =====
-- src/main.c: SIGALRM is asynchronous, so that alarm_handler also runs inside a pass of the event
-- loop: between two events, and inside process_input_event. The handler and process_input_event share
-- hotkey_mode and the collected codes only in the branch of a key that is pressed in hot mode. Behind
-- the end of hot mode the timer is off and SIGALRM has no handler. An alarm inside that branch leaves a
-- code collected out of hot mode.
use mathlib.Core.Bool.{false≢true}
use kindle_launchpad.Base.{
  ℕ, ◌+◌, pos, ◌+ℤ◌, ◌<◌, ◌≡◌, true, sym, ◌∙◌, if_rule, ltb, if◌then◌else◌, set, length-set,
  Outcome, ok, fault, OnOk, OnOk-ok, arith,
}
use kindle_launchpad.Hotkey.Ending.{disarm-mode}
use kindle_launchpad.Hotkey.Invariant.{finish_sequence-length}
use kindle_launchpad.Hotkey.Loop.{Loop, Select, loop_pass, idle}
use kindle_launchpad.Hotkey.Passes.{pass-keeps}
use kindle_launchpad.Hotkey.Reach.{expire}
use kindle_launchpad.Hotkey.State.{InputEvent, Hotkey}
use kindle_launchpad.Hotkey.Step.{
  alarm_handler, hot_press, is_trailer, leave_hot, disarm, press, process_input_event,
}
use kindle_launchpad.Hotkey.Valid.{
  IsSafe, step-IsSafe, alarm-IsSafe, hot_press-IsSafe, press-IsSafe,
}
use kindle_launchpad.Keys.Names.{get_key_substitute_code}
use kindle_launchpad.Launchpad.Action.{Found, max_seq}

-- Where the alarm comes in the branch of a key that is pressed in hot mode: behind the test of
-- hotkey_mode; behind the store of the code (or in front of it when its index has been read, which
-- comes to the same, since the handler looks at the codes below the index only); or in the middle of
-- `hot_sequence_length += 1`, when the old length has been read and the new one has not been written.
pub data Point : Type 0 where
  tested : Point
  stored : Point
  length_read : Point

module _ (execute_action : Found → ℕ) where
  -- The timer expires, and its handler runs.
  unfoldable pub interrupt : Hotkey → Hotkey
  unfolding alarm_handler
  interrupt s = alarm_handler execute_action (expire s)

  -- `hot_sequence_length += 1`, of the machine `t`, with the alarm inside or in front
  unfoldable pub count_interrupted : Point → Hotkey → Hotkey
  unfolding interrupt
  count_interrupted length_read t = record (interrupt t) {
    hot_sequence_length = t.hot_sequence_length + 1;
  }
  count_interrupted _ t =
      let u = interrupt t in record u { hot_sequence_length = u.hot_sequence_length + 1 }

  -- A code is collected, and the alarm comes behind its store.
  unfoldable pub collect_interrupted : Point → Hotkey → ℕ → Outcome Hotkey
  unfolding count_interrupted
  collect_interrupted at s code =
      if ltb s.hot_sequence_length max_seq
      then ok (
          count_interrupted at (record s {
            hot_sequence = set s.hot_sequence s.hot_sequence_length (get_key_substitute_code code);
          }))
      else fault

  -- A key is pressed in hot mode. In `tested` the alarm comes in front of the test for the trailer; the
  -- trailer turns the timer off, so that no alarm comes behind it.
  unfoldable pub hot_press_interrupted : Point → Hotkey → ℕ → Outcome Hotkey
  unfolding hot_press interrupt collect_interrupted
  hot_press_interrupted tested s code = hot_press execute_action (interrupt s) code
  hot_press_interrupted at s code =
      if is_trailer s.trailer code
      then hot_press execute_action s code
      else collect_interrupted at s code

  -- A key is pressed, and the timer expires in this branch.
  unfoldable pub interrupted_press : Point → Hotkey → ℕ → Outcome Hotkey
  unfolding press hot_press_interrupted
  interrupted_press at s code =
      if s.hotkey_mode
      then hot_press_interrupted at (record s { npressed = s.npressed +ℤ pos 1 }) code
      else press execute_action s code

  -- The life of the daemon with alarms at every place: a pass that is broken by an alarm is given by
  -- its events, one by one, and `event` and `interrupted` may change the buffers of the loop.
  pub data AsyncStep : Loop → Loop → Type 0 where
    pass :
        (answered : Select) {l m : Loop}
        → loop_pass execute_action answered l ≡ ok m
        → AsyncStep l m
    event :
        (pev : InputEvent) {l m : Loop}
        → process_input_event execute_action l.hotkey pev ≡ ok m.hotkey
        → AsyncStep l m
    interrupted :
        (at : Point) (code : ℕ) {l m : Loop}
        → interrupted_press at l.hotkey code ≡ ok m.hotkey
        → AsyncStep l m
    alarm : (l : Loop) → AsyncStep l (record l { hotkey = interrupt l.hotkey })
    stray_alarm :
        (l : Loop) → AsyncStep l (record l { hotkey = alarm_handler execute_action l.hotkey })

  pub data AsyncReach (l : Loop) : Loop → Type 0 where
    here : AsyncReach l l
    next : {m n : Loop} → AsyncReach l m → AsyncStep m n → AsyncReach l n

  interrupt-IsSafe : (s : Hotkey) → IsSafe s → IsSafe (interrupt s)
  unfolding interrupt
  interrupt-IsSafe s v = alarm-IsSafe execute_action (expire s) (ground arith)

  -- Out of hot mode and with nothing collected, wherever the alarm comes.
  interrupt-length : (s : Hotkey) → s.hotkey_mode ≡ true → (interrupt s).hot_sequence_length ≡ 0
  unfolding interrupt alarm_handler
  interrupt-length s hot =
      if_rule (λ (t : Hotkey). t.hot_sequence_length ≡ 0) (disarm (expire s)).hotkey_mode
        (λ e. finish_sequence-length execute_action (leave_hot (expire s)))
        (λ cold. absurd (false≢true (sym cold ∙ disarm-mode (expire s) ∙ hot)))

  count_interrupted-IsSafe :
      (at : Point) (t : Hotkey)
      → t.hot_sequence_length < max_seq
      → t.hotkey_mode ≡ true
      → IsSafe t
      → IsSafe (count_interrupted at t)
  unfolding count_interrupted
  count_interrupted-IsSafe tested t room hot v =
      ground (arith, interrupt-IsSafe t v, interrupt-length t hot)
  count_interrupted-IsSafe stored t room hot v =
      ground (arith, interrupt-IsSafe t v, interrupt-length t hot)
  count_interrupted-IsSafe length_read t room hot v = ground (arith, interrupt-IsSafe t v)

  collect_interrupted-IsSafe :
      (at : Point) (s : Hotkey) (code : ℕ)
      → s.hotkey_mode ≡ true
      → IsSafe s
      → OnOk IsSafe (collect_interrupted at s code)
  unfolding collect_interrupted
  collect_interrupted-IsSafe at s code hot v =
      let c = get_key_substitute_code code in
      if_rule (OnOk IsSafe) (ltb s.hot_sequence_length max_seq)
        (λ room.
          count_interrupted-IsSafe at
            (record s { hot_sequence = set s.hot_sequence s.hot_sequence_length c }) (ground arith)
            hot (ground (arith, length-set s.hot_sequence s.hot_sequence_length c)))
        (λ full. tt)

  hot_press_interrupted-IsSafe :
      (at : Point) (s : Hotkey) (code : ℕ)
      → s.hotkey_mode ≡ true
      → IsSafe s
      → OnOk IsSafe (hot_press_interrupted at s code)
  unfolding hot_press_interrupted
  hot_press_interrupted-IsSafe tested s code hot v =
      hot_press-IsSafe execute_action (interrupt s) code (interrupt-IsSafe s v)
  hot_press_interrupted-IsSafe stored s code hot v =
      if_rule (OnOk IsSafe) (is_trailer s.trailer code)
        (λ e. hot_press-IsSafe execute_action s code v)
        (λ e. collect_interrupted-IsSafe stored s code hot v)
  hot_press_interrupted-IsSafe length_read s code hot v =
      if_rule (OnOk IsSafe) (is_trailer s.trailer code)
        (λ e. hot_press-IsSafe execute_action s code v)
        (λ e. collect_interrupted-IsSafe length_read s code hot v)

  interrupted_press-IsSafe :
      (at : Point) (s : Hotkey) (code : ℕ) → IsSafe s → OnOk IsSafe (interrupted_press at s code)
  unfolding interrupted_press
  interrupted_press-IsSafe at s code v =
      if_rule (OnOk IsSafe) s.hotkey_mode
        (λ hot. hot_press_interrupted-IsSafe at _ code hot (ground arith))
        (λ cold. press-IsSafe execute_action s code v)

  idle-IsSafe : (s : Hotkey) → IsSafe s → IsSafe (idle s)
  unfolding idle
  idle-IsSafe s v = ground arith

  AsyncStep-IsSafe : {l m : Loop} → AsyncStep l m → IsSafe l.hotkey → IsSafe m.hotkey
  AsyncStep-IsSafe (pass answered {l} e) v =
      OnOk-ok (λ (n : Loop). IsSafe n.hotkey) _ e
        (pass-keeps execute_action IsSafe (step-IsSafe execute_action) idle-IsSafe answered l v)
  AsyncStep-IsSafe (event pev {l} e) v =
      OnOk-ok IsSafe _ e (step-IsSafe execute_action l.hotkey pev v)
  AsyncStep-IsSafe (interrupted at code {l} e) v =
      OnOk-ok IsSafe _ e (interrupted_press-IsSafe at l.hotkey code v)
  AsyncStep-IsSafe (alarm l) v = interrupt-IsSafe l.hotkey v
  AsyncStep-IsSafe (stray_alarm l) v = alarm-IsSafe execute_action l.hotkey v

  -- Whatever events, read failures, timeouts and alarms come, in whatever order, with alarms between
  -- two passes, between two events and inside the handling of a key that is pressed in hot mode:
  -- while no write has left the array of collected codes, the devices are captured exactly in hot
  -- mode, the timer runs only in hot mode and with its handler in place, the introducer is noted only
  -- out of hot mode, and at most MAXSEQ codes are collected.
  pub AsyncReach-IsSafe : {l m : Loop} → IsSafe l.hotkey → AsyncReach l m → IsSafe m.hotkey
  AsyncReach-IsSafe v here = v
  AsyncReach-IsSafe v (next r st) = AsyncStep-IsSafe st (AsyncReach-IsSafe v r)
