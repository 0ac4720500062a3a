-- ===== src/Access/GroupLaws.antt =====
-- Proofs about the access of groups in group_policy.py.
use hovorun_v.Prelude.{◌≡◌, ◌↔◌, true, false, arith, ok}
use hovorun_v.Access.Permissions.{validate_decision, admin_full_banned}
use hovorun_v.Access.Groups.{GroupAccessFacts, group_access}

-- What a group with access is.
pub record IsWelcome (f : GroupAccessFacts) : Type 0 where
  pub active : f.active ≡ true
  pub unbanned : f.banned ≡ false
  pub fresh : f.admins_fresh ≡ true
  pub administered : f.banned_admin ≡ false
  pub known : f.unknown_admin ≡ false
  pub approved : f.approved ≡ true

-- The decision on a group is always one that its own validation accepts. It allows exactly the groups
-- that are active, not banned and approved, whose administrators are freshly known, all of them, with
-- none banned. It blames a banned administrator exactly when the group is active and not banned, the
-- evidence is fresh and one is banned, whoever else is unknown.
pub group_access_iff :
    (f : GroupAccessFacts)
    → (validate_decision (group_access f) ≡ ok tt)
      × (((group_access f).allowed ≡ true) ↔ IsWelcome f)
      × (((group_access f).reason ≡ admin_full_banned) ↔ (
          (f.active ≡ true)
          × (f.banned ≡ false)
          × (f.admins_fresh ≡ true)
          × (f.banned_admin ≡ true)))
unfolding group_access validate_decision
group_access_iff f = (ground arith, ground arith, ground arith)
