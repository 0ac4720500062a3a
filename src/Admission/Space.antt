-- ===== src/Admission/Space.antt =====
-- src/hovorunv2/infrastructure/runtime/admission.py, what the store holds for one namespace. Every key
-- has the type that its role gives it, so the tests of key types pass; a hash or a sorted set that is
-- gone is the empty one. The order of a sorted set is that of its scores.
use hovorun_v.Prelude.{
  ℕ, ◌*◌, max, Bool, true, false, Option, none, some, List, [], ◌∷◌, String, codes, sum_by, ◌||◌,
  refl, false, arith, ltb, leb, decided, decided_iff, ◌≡◌, ◌↔◌, length, Dict, if◌then◌else◌, Result,
  ok, err, unavailable, is_some, ℤ-discrete, String-discrete,
}
use hovorun_v.Domain.{Timestamp, TargetKind-discrete}
use hovorun_v.Usage.Budgets.{max_exact_integer}
use hovorun_v.Admission.Record.{
  AdmissionKeys, Owner, Owner-discrete, Ingress, Ingress-discrete, Stored,
}
use hovorun_v.Admission.Capacity.{RawCounter, RawTotals, no_totals, missing, Counters}

-- `lane:<owner>:<feature>`
abbrev pub Lane : Type 0
Lane = Owner × String

unfoldable pub Lane-discrete : Discrete Lane
unfolding TargetKind-discrete ℤ-discrete String-discrete
Lane-discrete = hlevel (TargetKind-discrete, ℤ-discrete, String-discrete)

unfoldable pub same_owner : Owner → Owner → Bool
same_owner a b = decided (Owner-discrete a b)

pub same_owner_iff : (a b : Owner) → (same_owner a b ≡ true) ↔ (a ≡ b)
unfolding same_owner
same_owner_iff a b = decided_iff (Owner-discrete a b)

unfoldable pub same_ingress : Ingress → Ingress → Bool
same_ingress a b = decided (Ingress-discrete a b)

pub same_ingress_iff : (a b : Ingress) → (same_ingress a b ≡ true) ↔ (a ≡ b)
unfolding same_ingress
same_ingress_iff a b = decided_iff (Ingress-discrete a b)

unfoldable pub same_lane : Lane → Lane → Bool
same_lane a b = decided (Lane-discrete a b)

pub same_lane_iff : (a b : Lane) → (same_lane a b ≡ true) ↔ (a ≡ b)
unfolding same_lane
same_lane_iff a b = decided_iff (Lane-discrete a b)

-- The sorted set of lanes.
abbrev pub Rotation : Type 0
Rotation = List (Lane × ℕ)

pub record Space : Type 0 where
  pub tickets : Dict Stored
  pub dedupe : Dict String
  pub all_totals : RawTotals
  pub subjects : Owner → RawCounter
  pub ingresses : Ingress → RawCounter
  pub payloads : Dict String
  pub pending : Dict Timestamp
  pub handoff : Dict Timestamp
  pub rotation : Rotation
  pub lanes : Lane → Dict Timestamp

-- A namespace that nothing was written to.
abbrev pub empty_space : Space
empty_space = record {
  tickets = [];
  dedupe = [];
  all_totals = no_totals;
  subjects = λ o. missing;
  ingresses = λ i. missing;
  payloads = [];
  pending = [];
  handoff = [];
  rotation = [];
  lanes = λ l. [];
}

-- The counters that a transaction of one job reads, `zcard` of the pending index with them.
abbrev pub counters_of : Space → AdmissionKeys → Counters
counters_of sp keys = record {
  all_totals = sp.all_totals;
  subject = sp.subjects keys.subject;
  ingress = sp.ingresses keys.ingress;
  pending = length sp.pending;
}

-- The same counters, written back.
abbrev pub write_counters : Space → AdmissionKeys → Counters → Space
write_counters sp keys k = record sp {
  all_totals = k.all_totals;
  subjects = λ o. if same_owner o keys.subject then k.subject else sp.subjects o;
  ingresses = λ i. if same_ingress i keys.ingress then k.ingress else sp.ingresses i;
}

-- `zscore` of the rotation.
unfoldable pub rotation_of : Lane → Rotation → Option ℕ
rotation_of l [] = none
rotation_of l ((m, s) ∷ z) = if same_lane m l then some s else rotation_of l z

-- `zadd` with `nx`: a lane that is there keeps its score.
unfoldable pub add_lane : Lane → ℕ → Rotation → Rotation
unfolding rotation_of
add_lane l s z = if is_some (rotation_of l z) then z else (l, s) ∷ z

-- `zrem`
unfoldable pub remove_lane : Lane → Rotation → Rotation
remove_lane l [] = []
remove_lane l ((m, s) ∷ z) =
    let rest = remove_lane l z in if same_lane m l then rest else (m, s) ∷ rest

pub rotation_of-remove_lane :
    (m l : Lane) (z : Rotation)
    → same_lane m l ≡ false
    → rotation_of m (remove_lane l z) ≡ rotation_of m z
unfolding rotation_of remove_lane
rotation_of-remove_lane m l [] h = refl
rotation_of-remove_lane m l ((k, s) ∷ z) h =
    ground (
      arith,
      rotation_of-remove_lane m l z,
      same_lane_iff k l,
      same_lane_iff k m,
      same_lane_iff m l,
    )

pub rotation_of-add_lane :
    (m l : Lane) (s : ℕ) (z : Rotation)
    → is_some (rotation_of m (add_lane l s z)) ≡ (same_lane l m || is_some (rotation_of m z))
unfolding rotation_of add_lane
rotation_of-add_lane m l s z = ground (arith, same_lane_iff l m)

-- The highest score, or 0.
abbrev pub top {ℓ} : {K : Type ℓ} → List (K × ℕ) → ℕ
top [] = 0
top ((k, s) ∷ z) = max s (top z)

-- `_rotation_score`; `unit` is 1 for a count and a second for a time.
unfoldable pub rotation_score {ℓ} : {K : Type ℓ} → ℕ → List (K × ℕ) → Result ℕ
rotation_score unit z =
    if leb (max_exact_integer * unit) (top z) then err unavailable else ok (top z)

abbrev pub set_lane : Lane → Dict Timestamp → (Lane → Dict Timestamp) → Lane → Dict Timestamp
set_lane l z lanes m = if same_lane m l then z else lanes m

-- The bytes of a code point in UTF-8.
abbrev utf8_size : ℕ → ℕ
utf8_size c = if ltb c 128 then 1 else if ltb c 2048 then 2 else if ltb c 65536 then 3 else 4

-- `len(text.encode())`
unfoldable pub byte_length : String → ℕ
byte_length s = sum_by utf8_size (codes s)
