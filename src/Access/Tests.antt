-- ===== src/Access/Tests.antt =====
-- permission_policy.py at requests about a group, with every property of it applied there.
use hovorun_v.Prelude.{◌≡◌, refl, true, false, none, some}
use hovorun_v.Domain.{plain_user, seconds}
use hovorun_v.Access.Permissions.{PermissionRequest, GroupAdminEvidence, group_kind, applies_to}
use hovorun_v.Access.Decision.{
  permission_decision, packaged_policy, has_current_group_administrator,
}
use hovorun_v.Access.Groups.{GroupAccessFacts}
use hovorun_v.Access.Laws.{IsAllowed, permission_decision-IsGranted}

abbrev evidence : GroupAdminEvidence
evidence = record {
  actor_id = 7;
  target_id = 4;
  target_generation = 2;
  verified_at = record { instant = seconds 100; aware = true };
  expires_at = record { instant = seconds 160; aware = true };
}

abbrev manage_group : PermissionRequest
manage_group = record {
  actor_id = 7;
  action = "group:settings";
  target = record { kind = group_kind; entity_id = some 4; generation = 2; telegram_id = none };
  group_admin = some evidence;
  transport_kind = some "supergroup";
}

managed :
    (permission_decision packaged_policy manage_group
      (some plain_user)
      (seconds 130)
      true
      false).allowed
    ≡ true
unfolding permission_decision packaged_policy has_current_group_administrator applies_to
managed = refl

lapsed :
    (permission_decision packaged_policy manage_group
      (some plain_user)
      (seconds 160)
      true
      false).allowed
    ≡ false
unfolding permission_decision packaged_policy has_current_group_administrator applies_to
lapsed = refl

permission_decision-IsGranted_example : IsAllowed manage_group plain_user (seconds 130) true false
permission_decision-IsGranted_example =
    permission_decision-IsGranted packaged_policy (λ f. refl) manage_group plain_user (seconds 130)
      true false managed

abbrev welcome : GroupAccessFacts
welcome = record {
  active = true;
  banned = false;
  admins_fresh = true;
  banned_admin = false;
  unknown_admin = false;
  approved = true;
}
