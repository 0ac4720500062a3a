-- ===== src/Access/Decision.antt =====
-- src/hovorunv2/application/access/permission_policy.py, with the rules of
-- src/hovorunv2/infrastructure/authorization/policies. The Casbin enforcer is a parameter.
use hovorun_v.Prelude.{
  Bool, true, false, not, ◌&&◌, Option, none, some, List, [], ◌∷◌, String, str_eq, any, leb,
  if◌then◌else◌,
}
use hovorun_v.Domain.{Role, plain_user, admin, owner, role_value, Timestamp}
use hovorun_v.Access.Permissions.{
  DecisionReason, reason_allowed, entity_unavailable, group_banned, unauthorized_management, Kind,
  bot_kind, group_kind, other_kind, applies_to, PermissionRequest, PermissionFacts, AccessDecision,
}

pub data Authority : Type 0 where
  by_role by_group_admin : Authority

-- A line of policy.csv.
pub record Rule : Type 0 where
  pub minimum_role : Role
  pub action : String
  pub resource : Kind
  pub authority : Authority

-- policy.csv
abbrev pub packaged_rules : List Rule
packaged_rules =
    record {
      minimum_role = admin;
      action = "bot:administer";
      resource = bot_kind;
      authority = by_role;
    }
    ∷ record {
      minimum_role = admin;
      action = "group:settings";
      resource = group_kind;
      authority = by_role;
    }
    ∷ record {
      minimum_role = plain_user;
      action = "group:settings";
      resource = group_kind;
      authority = by_group_admin;
    }
    ∷ record { minimum_role = owner; action = "bot:own"; resource = bot_kind; authority = by_role }
    ∷ []

abbrev pub same_kind : Kind → Kind → Bool
same_kind bot_kind bot_kind = true
same_kind group_kind group_kind = true
same_kind (other_kind a) (other_kind b) = str_eq a b
same_kind _ _ = false

-- `_at_least`
abbrev pub at_least : Role → Role → Bool
at_least role minimum = leb (role_value minimum) (role_value role)

-- The matcher of model.conf.
unfoldable pub matches : PermissionFacts → Rule → Bool
matches f p = str_eq f.action p.action && same_kind f.target.kind p.resource && elim p.authority [
  | by_role ↦ at_least f.role p.minimum_role
  | by_group_admin ↦ f.group_admin
]

-- The effect of model.conf: some rule allows.
unfoldable pub packaged_policy : PermissionFacts → Bool
unfolding matches
packaged_policy f = any (matches f) packaged_rules

abbrev pub is_group_kind : Kind → Bool
is_group_kind group_kind = true
is_group_kind _ = false

abbrev pub is_bot_kind : Kind → Bool
is_bot_kind bot_kind = true
is_bot_kind _ = false

abbrev pub is_private : Option String → Bool
is_private none = false
is_private (some t) = str_eq t "private"

-- `_has_current_group_administrator`
unfoldable pub has_current_group_administrator : PermissionRequest → Timestamp → Bool
has_current_group_administrator q now =
    is_group_kind q.target.kind
    && elim q.group_admin [ none ↦ false | some e ↦ applies_to e q.actor_id q.target now ]

abbrev pub denied : DecisionReason → AccessDecision
denied r = record { allowed = false; reason = r }

-- Everything is decided by the enforcer, which is not code of the repository.
module _ (enforce : PermissionFacts → Bool) where
  -- `authority_allowed`
  unfoldable pub authority_allowed : Option Role → String → Bool
  authority_allowed none action = false
  authority_allowed (some role) action = enforce (record {
    role = role;
    action = action;
    target = record { kind = bot_kind; entity_id = none; generation = 1; telegram_id = none };
    group_admin = false;
  })

  -- `permission_decision`
  unfoldable pub permission_decision :
      PermissionRequest → Option Role → Timestamp → Bool → Bool → AccessDecision
  unfolding has_current_group_administrator
  permission_decision q none now target_active banned = denied entity_unavailable
  permission_decision q (some role) now target_active banned =
      if not target_active
      then denied entity_unavailable
      else if is_bot_kind q.target.kind && not (is_private q.transport_kind)
      then denied unauthorized_management
      else if is_group_kind q.target.kind && banned
      then denied group_banned
      else (let allowed = enforce (record {
        role = role;
        action = q.action;
        target = q.target;
        group_admin = has_current_group_administrator q now;
      }) in
          record {
            allowed = allowed;
            reason = if allowed then reason_allowed else unauthorized_management;
          })
