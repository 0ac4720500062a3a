-- ===== src/Access/Groups.antt =====
-- src/hovorunv2/application/groups/group_policy.py: whether a group may use the bot, from fresh facts.
use hovorun_v.Prelude.{Bool, true, false, not, ◌&&◌, if◌then◌else◌}
use hovorun_v.Access.Permissions.{
  AccessDecision, DecisionReason, reason_allowed, entity_unavailable, group_banned,
  admin_full_banned, member_evidence_unknown, not_approved,
}

pub record GroupAccessFacts : Type 0 where
  pub active : Bool
  pub banned : Bool
  pub admins_fresh : Bool
  pub banned_admin : Bool
  pub unknown_admin : Bool
  pub approved : Bool

-- `_requires_administrator_verification`
unfoldable pub requires_administrator_verification : GroupAccessFacts → Bool
requires_administrator_verification f =
    if not f.admins_fresh then true else f.unknown_admin && not f.banned_admin

abbrev deny : DecisionReason → AccessDecision
deny r = record { allowed = false; reason = r }

-- `group_access`
unfoldable pub group_access : GroupAccessFacts → AccessDecision
unfolding requires_administrator_verification
group_access f =
    if not f.active
    then deny entity_unavailable
    else if f.banned
    then deny group_banned
    else if requires_administrator_verification f
    then deny member_evidence_unknown
    else if f.banned_admin
    then deny admin_full_banned
    else if not f.approved
    then deny not_approved
    else record { allowed = true; reason = reason_allowed }
