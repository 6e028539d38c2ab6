-- ===== src/Rce/Init.antt =====
-- src/rce.c: rce_init, which opens the socket of remote command entry. What the system answers is an
-- argument.
use kindle_launchpad.Base.{
  ℕ, ◌%◌, ◌≤◌, ◌≡◌, ◌↔◌, Bool, true, not, Option, none, some, ltb, if◌then◌else◌, arith,
}
use kindle_launchpad.Rce.Config.{Rce}

-- The descriptor that socket() gives, and whether setsockopt() succeeds for SO_REUSEADDR, bind(), and
-- setsockopt() for IP_ADD_MEMBERSHIP.
pub record Answers : Type 0 where
  pub recv_s : Option ℕ
  pub reuseaddr : Bool
  pub bound : Bool
  pub add_membership : Bool

-- The first byte of the group's address, which is in network order, is under 224.
abbrev pub doing_unicast : Rce → Bool
doing_unicast r = ltb (r.mc_group % 256) 224

abbrev join_group : Bool → Answers → ℕ → Option ℕ
join_group unicast a s =
    if not a.reuseaddr
    then none
    else if not a.bound
    then none
    else if not unicast
    then if not a.add_membership then none else some s
    else none

abbrev with_socket : Rce → Answers → Option ℕ → Option ℕ
with_socket r a none = none
with_socket r a (some s) = join_group (doing_unicast r) a s

-- `none` is -1.
unfoldable pub rce_init : Rce → Answers → Option ℕ
rce_init r a = with_socket r a a.recv_s

-- A socket is given if and only if the group is a multicast address and every call of the system
-- succeeds: with an address below 224.0.0.0 the result is always -1, so that no remote command is
-- ever received on it.
pub rce_init_iff :
    (r : Rce) (a : Answers) (s : ℕ)
    → (rce_init r a ≡ some s) ↔ (
        (a.recv_s ≡ some s)
        × (a.reuseaddr ≡ true)
        × (a.bound ≡ true)
        × (a.add_membership ≡ true)
        × (224 ≤ r.mc_group % 256))
unfolding rce_init
rce_init_iff r a s =
    elim a.recv_s
      as (λ o. (with_socket r a o ≡ some s) ↔ (
        (o ≡ some s)
        × (a.reuseaddr ≡ true)
        × (a.bound ≡ true)
        × (a.add_membership ≡ true)
        × (224 ≤ r.mc_group % 256))) [ none ↦ ground arith | some t ↦ ground arith ]
