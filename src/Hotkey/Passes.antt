-- ===== src/Hotkey/Passes.antt =====
-- src/main.c: what every event and a timeout of select() keep, a pass of the event loop keeps.
use kindle_launchpad.Base.{
  ℕ, ℤ, pos, eqb_ℤ, Bool, if_rule, List, [], ◌∷◌, Option, none, some, Outcome, ok, fault, no_fuel,
  ◌>>=◌, OnOk,
}
use kindle_launchpad.Hotkey.Loop.{
  ReadResult, Loop, Select, ready, timeout, interrupted, is_short, drain, idle, max_fd, answer,
  serve, serve_all, loop_pass, num_bytes, refill,
}
use kindle_launchpad.Hotkey.State.{InputEvent, Hotkey}
use kindle_launchpad.Hotkey.Step.{process_input_event}
use kindle_launchpad.Launchpad.Action.{Found}

module _ (execute_action : Found → ℕ) (Holds : Hotkey → Type 0)
    (event-keeps : (s : Hotkey) (pev : InputEvent)
      → Holds s
      → OnOk Holds (process_input_event execute_action s pev))
    (idle-keeps : (s : Hotkey) → Holds s → Holds (idle s)) where
  bind-keeps :
      (m : Outcome Hotkey) (f : Hotkey → Outcome Hotkey)
      → OnOk Holds m
      → ((s : Hotkey) → Holds s → OnOk Holds (f s))
      → OnOk Holds (m >>= f)
  bind-keeps (ok s) f h k = k s h
  bind-keeps fault f h k = tt
  bind-keeps no_fuel f h k = tt

  drain-keeps :
      (keep : ℕ → Bool) (evs : List InputEvent) (n : ℤ) (s : Hotkey)
      → Holds s
      → OnOk Holds (drain execute_action keep evs n s)
  unfolding drain
  drain-keeps keep [] n s v = v
  drain-keeps keep (pev ∷ evs) n s v =
      if_rule (OnOk Holds) (is_short n) (λ _. v)
        (λ _.
          bind-keeps _ _ (if_rule (OnOk Holds) (keep pev.code) (λ _. event-keeps s pev v) (λ _. v))
            (λ t w. drain-keeps keep evs _ t w))

  serve-keeps :
      (keep : ℕ → Bool) (r : Option ReadResult) (buf : List InputEvent) (s : Hotkey)
      → Holds s
      → OnOk Holds (serve execute_action keep r buf s)
  unfolding serve
  serve-keeps keep none buf s v = v
  serve-keeps keep (some r) buf s v = drain-keeps keep buf (num_bytes r) s v

  abbrev HoldsLoop : Loop → Type 0
  HoldsLoop l = Holds l.hotkey

  bind_loop :
      (m : Outcome Hotkey) (f : Hotkey → Outcome Loop)
      → OnOk Holds m
      → ((s : Hotkey) → Holds s → OnOk HoldsLoop (f s))
      → OnOk HoldsLoop (m >>= f)
  bind_loop (ok s) f h k = k s h
  bind_loop fault f h k = tt
  bind_loop no_fuel f h k = tt

  serve_all-keeps :
      (kbd fw vol : Option ReadResult) (l : Loop)
      → Holds l.hotkey
      → OnOk HoldsLoop (serve_all execute_action kbd fw vol l)
  unfolding serve_all
  serve_all-keeps kbd fw vol l v =
      bind_loop _ _ (serve-keeps _ kbd (refill kbd l.kbbuf) l.hotkey v) λ s vs.
        bind_loop _ _ (serve-keeps _ fw (refill fw l.fwbuf) s vs)
          λ t vt. bind_loop _ _ (serve-keeps _ vol (refill vol l.k3volbuf) t vt) λ u vu. vu

  pub pass-keeps :
      (answered : Select) (l : Loop)
      → Holds l.hotkey
      → OnOk HoldsLoop (loop_pass execute_action answered l)
  unfolding loop_pass
  pass-keeps (ready kbd fw vol) l v =
      if_rule (OnOk HoldsLoop) (eqb_ℤ (max_fd l.hotkey) (pos 0)) (λ _. v)
        (λ _.
          serve_all-keeps (answer l.hotkey.fd_kbd kbd) (answer l.hotkey.fd_fw fw)
            (answer l.hotkey.fd_k3_vol vol) l v)
  pass-keeps timeout l v =
      if_rule (OnOk HoldsLoop) (eqb_ℤ (max_fd l.hotkey) (pos 0)) (λ _. v)
        (λ _. idle-keeps l.hotkey v)
  pass-keeps interrupted l v = v
