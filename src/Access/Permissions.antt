-- ===== src/Access/Permissions.antt =====
-- src/hovorunv2/application/access/permissions.py: targets, evidence, requests and decisions. A
-- `datetime` is its instant, with whether it carries an offset.
use hovorun_v.Prelude.{
  ℕ, Bool, true, false, ◌&&◌, Option, none, some, String, ℤ, ltb, leb, ◌==◌, xor, Result, raise_if,
  value_error,
}
use hovorun_v.Domain.{Role, Timestamp}

pub data DecisionReason : Type 0 where
  reason_allowed entity_unavailable group_banned admin_full_banned : DecisionReason
  member_evidence_unknown not_approved unauthorized_management : DecisionReason

-- The kinds of target that the code tests for, and any other text.
pub data Kind : Type 0 where
  bot_kind group_kind : Kind
  other_kind : String → Kind

pub record PermissionTarget : Type 0 where
  pub kind : Kind
  pub entity_id : Option ℕ
  pub generation : ℕ
  pub telegram_id : Option ℤ

pub record DateTime : Type 0 where
  pub instant : Timestamp
  pub aware : Bool

pub record GroupAdminEvidence : Type 0 where
  pub actor_id : ℕ
  pub target_id : ℕ
  pub target_generation : ℕ
  pub verified_at : DateTime
  pub expires_at : DateTime

abbrev is_entity : ℕ → Option ℕ → Bool
is_entity n none = false
is_entity n (some m) = n == m

-- `_matches_target`
unfoldable pub matches_target : GroupAdminEvidence → PermissionTarget → Bool
matches_target e t = is_entity e.target_id t.entity_id && e.target_generation == t.generation

-- `_is_current`
unfoldable pub is_current : GroupAdminEvidence → Timestamp → Bool
is_current e now =
    e.verified_at.aware
    && e.expires_at.aware
    && leb e.verified_at.instant now
    && ltb now e.expires_at.instant

-- `GroupAdminEvidence.applies_to`
unfoldable pub applies_to : GroupAdminEvidence → ℕ → PermissionTarget → Timestamp → Bool
unfolding matches_target is_current
applies_to e actor t now = e.actor_id == actor && matches_target e t && is_current e now

pub record PermissionRequest : Type 0 where
  pub actor_id : ℕ
  pub action : String
  pub target : PermissionTarget
  pub group_admin : Option GroupAdminEvidence
  pub transport_kind : Option String

pub record PermissionFacts : Type 0 where
  pub role : Role
  pub action : String
  pub target : PermissionTarget
  pub group_admin : Bool

pub record AccessDecision : Type 0 where
  pub allowed : Bool
  pub reason : DecisionReason

abbrev pub is_allowed_reason : DecisionReason → Bool
is_allowed_reason reason_allowed = true
is_allowed_reason _ = false

-- `AccessDecision.__post_init__`
unfoldable pub validate_decision : AccessDecision → Result (Unit {0})
validate_decision d = raise_if (xor d.allowed (is_allowed_reason d.reason)) value_error
