-- ===== src/Access/Laws.antt =====
-- Proofs about the permission decisions of permission_policy.py and the rules that the bot ships.
use hovorun_v.Prelude.{
  String, ◌↔◌, inl, inr, not, ◌&&◌, ◌≡◌, ◌⊎◌, ◌≤◌, ◌<◌, refl, Bool, true, false, Option, none, some,
  eq_iff, arith, ok, sym, ◌∙◌,
}
use hovorun_v.Domain.{Role, plain_user, owner, role_value, Timestamp}
use hovorun_v.Access.Permissions.{
  bot_kind, group_kind, PermissionRequest, PermissionFacts, validate_decision, GroupAdminEvidence,
  applies_to, group_banned,
}
use hovorun_v.Access.Decision.{
  permission_decision, packaged_policy, has_current_group_administrator, is_private, is_group_kind,
  is_bot_kind,
}

-- Whatever the enforcer answers, a decision's flag agrees with its reason, so making it never raises.
pub permission_decision-valid :
    (enforce : PermissionFacts → Bool) (q : PermissionRequest) (role : Option Role)
    (now : Timestamp) (active banned : Bool)
    → validate_decision (permission_decision enforce q role now active banned) ≡ ok tt
unfolding permission_decision validate_decision
permission_decision-valid enforce q none now active banned = refl
permission_decision-valid enforce q (some role) now active banned = ground arith

-- A ban of an active group denies its management to every role, whatever the enforcer answers.
pub permission_decision-banned :
    (enforce : PermissionFacts → Bool) (q : PermissionRequest) (role : Role) (now : Timestamp)
    → q.target.kind ≡ group_kind
    → permission_decision enforce q (some role) now true true
      ≡ record { allowed = false; reason = group_banned }
unfolding permission_decision
permission_decision-banned enforce q role now h = ground arith

-- The evidence is about this actor, this group in this generation, and holds now.
abbrev pub IsEvidence : GroupAdminEvidence → PermissionRequest → Timestamp → Type 0
IsEvidence e q now =
    (e.actor_id ≡ q.actor_id)
    × (q.target.entity_id ≡ some e.target_id)
    × (e.target_generation ≡ q.target.generation)
    × (e.verified_at.aware ≡ true)
    × (e.expires_at.aware ≡ true)
    × (e.verified_at.instant ≤ now)
    × (now < e.expires_at.instant)

abbrev pub IsGroupAdmin : PermissionRequest → Timestamp → Type 0
IsGroupAdmin q now =
    (q.target.kind ≡ group_kind)
    × (e : GroupAdminEvidence) × (q.group_admin ≡ some e)
    × IsEvidence e q now

current-IsGroupAdmin :
    (q : PermissionRequest) (now : Timestamp)
    → has_current_group_administrator q now ≡ true
    → IsGroupAdmin q now
unfolding has_current_group_administrator applies_to
current-IsGroupAdmin q now h = ground arith

-- What the packaged rules grant, told without the rules.
abbrev pub IsGranted : PermissionFacts → Type 0
IsGranted f =
    ((f.action ≡ "bot:administer") × (f.target.kind ≡ bot_kind) × (10 ≤ role_value f.role))
    ⊎ ((f.action ≡ "group:settings")
        × (f.target.kind ≡ group_kind)
        × ((10 ≤ role_value f.role) ⊎ (f.group_admin ≡ true)))
    ⊎ ((f.action ≡ "bot:own") × (f.target.kind ≡ bot_kind) × (f.role ≡ owner))

packaged-IsGranted : (f : PermissionFacts) → packaged_policy f ≡ true → IsGranted f
unfolding packaged_policy
packaged-IsGranted f h = ground (
  arith,
  eq_iff f.action "bot:administer",
  eq_iff f.action "group:settings",
  eq_iff f.action "bot:own",
)

-- The facts that a request puts to the enforcer.
abbrev pub facts_of : PermissionRequest → Role → Timestamp → PermissionFacts
facts_of q role now = record {
  role = role;
  action = q.action;
  target = q.target;
  group_admin = has_current_group_administrator q now;
}

-- The target is active, a request about the bot came in private, and a managed group is not banned.
abbrev pub IsOpen : PermissionRequest → Bool → Bool → Type 0
IsOpen q active banned =
    (active ≡ true)
    × (q.target.kind ≡ bot_kind → q.transport_kind ≡ some "private")
    × (q.target.kind ≡ group_kind → banned ≡ false)

is_private_iff : (o : Option String) → (is_private o ≡ true) ↔ (o ≡ some "private")
is_private_iff none = (λ h. cc, λ h. cc)
is_private_iff (some t) = ground (arith, eq_iff t "private")

asked-IsOpen :
    (q : PermissionRequest) (active banned : Bool)
    → active ≡ true
    → (is_bot_kind q.target.kind && not (is_private q.transport_kind)) ≡ false
    → (is_group_kind q.target.kind && banned) ≡ false
    → IsOpen q active banned
asked-IsOpen q active banned on closed unbanned = (
  on,
  λ bot. (is_private_iff q.transport_kind).0 (ground (arith, bot, closed)),
  λ managed. ground (arith, managed, unbanned),
)

-- What a role or current evidence is granted.
abbrev pub IsPermitted : PermissionRequest → Role → Timestamp → Type 0
IsPermitted q role now =
    ((q.action ≡ "bot:administer") × (q.target.kind ≡ bot_kind) × (10 ≤ role_value role))
    ⊎ ((q.action ≡ "group:settings")
        × (q.target.kind ≡ group_kind)
        × ((10 ≤ role_value role) ⊎ IsGroupAdmin q now))
    ⊎ ((q.action ≡ "bot:own") × (q.target.kind ≡ bot_kind) × (role ≡ owner))

granted-IsPermitted :
    (q : PermissionRequest) (role : Role) (now : Timestamp)
    → IsGranted (facts_of q role now)
    → IsPermitted q role now
granted-IsPermitted q role now (inl x) = inl x
granted-IsPermitted q role now (inr (inl (action, kind, inl r))) = inr (inl (action, kind, inl r))
granted-IsPermitted q role now (inr (inl (action, kind, inr e))) =
    inr (inl (action, kind, inr (current-IsGroupAdmin q now e)))
granted-IsPermitted q role now (inr (inr x)) = inr (inr x)

abbrev pub IsAllowed : PermissionRequest → Role → Timestamp → Bool → Bool → Type 0
IsAllowed q role now active banned = IsPermitted q role now × IsOpen q active banned

module _ (enforce : PermissionFacts → Bool)
    (casbin : (f : PermissionFacts) → enforce f ≡ packaged_policy f) where
  allowed-enforced :
      (q : PermissionRequest) (role : Role) (now : Timestamp) (active banned : Bool)
      → (permission_decision enforce q (some role) now active banned).allowed ≡ true
      → (enforce (facts_of q role now) ≡ true) × IsOpen q active banned
  unfolding permission_decision
  allowed-enforced q role now active banned h =
      (ground arith, asked-IsOpen q active banned (ground arith) (ground arith) (ground arith))

  -- Where the enforcer evaluates the packaged rules, an allowed request is granted by its role, or by
  -- evidence that its actor administers this group in this generation, verified and not expired at that
  -- moment; its target is active, a request about the bot came in private, and a group it
  -- manages is not banned.
  pub permission_decision-IsGranted :
      (q : PermissionRequest) (role : Role) (now : Timestamp) (active banned : Bool)
      → (permission_decision enforce q (some role) now active banned).allowed ≡ true
      → IsAllowed q role now active banned
  permission_decision-IsGranted q role now active banned h =
      let (e, entry) = allowed-enforced q role now active banned h in
      (granted-IsPermitted q role now (packaged-IsGranted _ (sym (casbin _) ∙ e)), entry)

  user_evidence :
      (q : PermissionRequest) (now : Timestamp)
      → IsPermitted q plain_user now
      → (q.action ≡ "group:settings") × IsGroupAdmin q now
  user_evidence q now (inl (action, kind, r)) = absurd (omega arith)
  user_evidence q now (inr (inl (action, kind, inl r))) = absurd (omega arith)
  user_evidence q now (inr (inl (action, kind, inr e))) = (action, e)
  user_evidence q now (inr (inr (action, kind, r))) = cc

  -- Without an application role, only group settings can be managed, and only with unexpired evidence
  -- of being an administrator of exactly that group.
  pub permission_decision_plain_user :
      (q : PermissionRequest) (now : Timestamp) (active banned : Bool)
      → (permission_decision enforce q (some plain_user) now active banned).allowed ≡ true
      → (q.action ≡ "group:settings") × IsGroupAdmin q now
  permission_decision_plain_user q now active banned h =
      user_evidence q now (permission_decision-IsGranted q plain_user now active banned h).0
