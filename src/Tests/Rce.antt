-- ===== src/Tests/Rce.antt =====
-- Tests of remote command entry, src/rce.c.
use kindle_launchpad.Base.{
  Option, ℕ, none, some, ◌↔◌, ◌≤◌, ◌%◌, ◌*◌, ◌+◌, ◌≡◌, refl, true, false, List, [], ◌∷◌, Bytes,
  codes, same_bytes_iff, same_bytes, c_string, ok, arith,
}
use kindle_launchpad.Rce.Config.{Rce, blank_rce}
use kindle_launchpad.Rce.Init.{Answers, rce_init, rce_init_iff}
use kindle_launchpad.Rce.Process.{rce_process}
use kindle_launchpad.Rce.Control.{enabled_after, accepted, AllFit, IsDistinct, rce_process-accepted}

abbrev settings : Rce
settings = record blank_rce { enable_string = codes "on"; disable_string = codes "off" }

abbrev messages : List Bytes
messages = codes "a" ∷ codes "on" ∷ codes "b" ∷ codes "c &" ∷ codes "off" ∷ codes "d" ∷ []

runs_two : rce_process settings messages ≡ ok (false, codes "b&" ∷ codes "c &" ∷ [])
unfolding rce_process
runs_two = refl

settings-IsDistinct : IsDistinct settings
unfolding same_bytes c_string
settings-IsDistinct e = let same = (same_bytes_iff (codes "on") (codes "off")).1 e in cc same

messages-AllFit : AllFit messages
messages-AllFit =
    (omega arith, (omega arith, (omega arith, (omega arith, (omega arith, (omega arith, tt))))))

accepted_example :
    rce_process settings messages
    ≡ ok (enabled_after settings messages, accepted settings [] messages)
accepted_example = rce_process-accepted settings messages settings-IsDistinct messages-AllFit

-- The group 239.1.2.3, and an address of a single host.
abbrev group_settings : Rce
group_settings = record blank_rce { mc_group = 239 + 256 }

abbrev host_settings : Rce
host_settings = record blank_rce { mc_group = 192 + 256 * 168 }

abbrev succeeds : Answers
succeeds = record { recv_s = some 7; reuseaddr = true; bound = true; add_membership = true }

no_unicast : rce_init host_settings succeeds ≡ none
unfolding rce_init
no_unicast = refl

abbrev opened : Option ℕ
opened = some 7

init_example : (rce_init group_settings succeeds ≡ opened) ↔ (
    (opened ≡ opened) × (true ≡ true) × (true ≡ true) × (true ≡ true) × (224 ≤ (239 + 256) % 256))
init_example = rce_init_iff group_settings succeeds 7
