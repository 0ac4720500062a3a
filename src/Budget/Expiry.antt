-- ===== src/Budget/Expiry.antt =====
-- Proofs about the expiry of a reservation in budget_state.py, and about its release.
use hovorun_v.Prelude.{
  Option, min, map, is_some, sym, if◌then◌else◌, ℕ, ◌+◌, ◌-◌, ◌*◌, ◌≤◌, ◌≡◌, refl, none, some, List,
  [], ◌∷◌, All, Option-cases, inl, inr, ok, >>=-eq-ok, ok-injective, arith,
}
use mathlib.Core.Path.{subst}
use hovorun_v.Domain.{Timestamp, second}
use hovorun_v.Usage.Budgets.{reserved, expired, max_exact_integer}
use hovorun_v.Budget.Record.{QuotaSpec, BudgetRecord}
use hovorun_v.Budget.Calculate.{
  read_integer, read_number, Rate, reserve_update, Snapshot, Window, QuotaUpdate, BudgetMutation,
  Reading, scale, full, refill, decide,
}
use hovorun_v.Budget.Settlement.{read_integer-some, read_number-some}
use hovorun_v.Budget.Settle.{
  expire_rate, calculate_expire, expire_quotas, expire_window, settle_quota, used_of, held_of,
}

-- The quotas whose windows the store still has.
abbrev pub survivors : Snapshot → List QuotaSpec → List QuotaSpec
survivors s [] = []
survivors s (q ∷ qs) =
    let rest = survivors s qs in if is_some (s.window q.key) then q ∷ rest else rest

-- The tokens of a quota after its whole amount has returned: a bucket that is gone is full, and one
-- that is there has what time has added, up to its burst.
abbrev pub IsRefilled : Timestamp → Option Rate → QuotaSpec → ℕ → Type 0
IsRefilled now none q credits = credits ≡ full q
IsRefilled now (some rate) q credits =
    (c : ℕ) × (since : ℕ) × (rate.credits ≡ some c)
    × (rate.at ≡ some since)
    × (credits ≡ min (full q) (c + (now - since) * q.limit + q.amount * (q.seconds * second)))

rate-IsRefilled :
    (now : Timestamp) (o : Option Rate) (q : QuotaSpec) {n : ℕ}
    → expire_rate q now o ≡ ok n
    → IsRefilled now o q n
unfolding expire_rate
rate-IsRefilled now none q h = sym (ok-injective h)
rate-IsRefilled now (some rate) q h =
    let (c, found, rest) = >>=-eq-ok (read_number rate.credits) _ h in
    let (since, found_since, made) = >>=-eq-ok (read_number rate.at) _ rest in
    (
      c,
      since,
      read_number-some rate.credits found,
      read_number-some rate.at found_since,
      sym (ok-injective made),
    )

-- What is left of a window when a reservation in it expires: what others used and hold.
pub record IsForgotten (now : Timestamp) (s : Snapshot) (u : QuotaUpdate) : Type 0 where
  pub used : used_of (s.window u.quota.key) ≡ some u.used
  pub held : (n : ℕ) × (held_of (s.window u.quota.key) ≡ some n) × (u.held ≡ n - u.quota.amount)
  pub credited : IsRefilled now (s.rate u.quota.rate) u.quota u.credits
  pub stamped : u.at ≡ now

expire_window-IsForgotten :
    (q : QuotaSpec) (now : Timestamp) (s : Snapshot) (w : Window) {u : QuotaUpdate}
    → s.window q.key ≡ some w
    → expire_window q now w (s.rate q.rate) ≡ ok u
    → IsForgotten now s u × (u.quota ≡ q)
unfolding expire_window
expire_window-IsForgotten q now s w {u} e h =
    let (used, found_used, rest) = >>=-eq-ok (read_integer w.used) _ h in
    let (held, found_held, rest1) = >>=-eq-ok (read_integer w.held) _ rest in
    let (credits, refilled, made) = >>=-eq-ok (expire_rate q now (s.rate q.rate)) _ rest1 in
    subst (λ u. IsForgotten now s u × (u.quota ≡ q)) (ok-injective made)
      (
        record {
          used = ground (arith, e, read_integer-some w.used found_used);
          held = (held, ground (arith, e, read_integer-some w.held found_held), refl);
          credited = rate-IsRefilled now (s.rate q.rate) q refilled;
          stamped = refl;
        },
        refl,
      )

expire_quotas-IsForgotten :
    (qs : List QuotaSpec) (now : Timestamp) (s : Snapshot) {us : List QuotaUpdate}
    → expire_quotas qs now s ≡ ok us
    → All (IsForgotten now s) us × (map (λ u. u.quota) us ≡ survivors s qs)
unfolding expire_quotas
expire_quotas-IsForgotten [] now s h =
    subst (λ us. All (IsForgotten now s) us × (map (λ u. u.quota) us ≡ [])) (ok-injective h)
      (tt, refl)
expire_quotas-IsForgotten (q ∷ qs) now s h = elim (Option-cases (s.window q.key)) [
  | inl gone ↦
      let ih = expire_quotas-IsForgotten qs now s (rw (gone, expire_quotas) at h) in
      (ih.0, rw gone ih.1)
  | inr (w, found) ↦
      let (u, one, rest) =
        >>=-eq-ok (expire_window q now w (s.rate q.rate)) _ (rw (found, expire_quotas) at h) in
      let (us, tail, last) = >>=-eq-ok (expire_quotas qs now s) _ rest in
      let (new, same) = expire_window-IsForgotten q now s w found one in
      let ih = expire_quotas-IsForgotten qs now s tail in
      subst (λ l. All (IsForgotten now s) l × (map (λ u. u.quota) l ≡ survivors s (q ∷ qs)))
        (ok-injective last) ((new, ih.0), rw found (cc (same, ih.1)))
]

-- What an expiry of a live reservation does.
pub record IsExpiry (r : BudgetRecord) (now : Timestamp) (s : Snapshot) (m : BudgetMutation)
    : Type 0 where
  pub forgotten : All (IsForgotten now s) m.updates
  pub complete : map (λ u. u.quota) m.updates ≡ survivors s r.quotas
  pub state : m.decision.state ≡ expired
  pub entry : m.entry ≡ some (record r { actual = none; state = expired })

live_expire :
    (r : BudgetRecord) (now : Timestamp) (s : Snapshot) {m : BudgetMutation}
    → r.state ≡ reserved
    → calculate_expire r now s ≡ ok m
    → (us : List QuotaUpdate) × (expire_quotas r.quotas now s ≡ ok us)
      × (record {
        decision = decide expired none;
        updates = us;
        entry = some (record r { actual = none; state = expired });
      }
          ≡ m)
unfolding calculate_expire
live_expire r now s live h =
    let (us, made, last) = >>=-eq-ok (expire_quotas r.quotas now s) _ (rw live at h) in
    (us, made, ok-injective last)

-- An expiry of a live reservation that returns marks it expired, and updates exactly the windows that
-- survive, in order. It charges nothing to them, takes the reservation's amount out of what they hold,
-- and returns it to their buckets with what time has added, up to the burst.
pub calculate_expire-IsExpiry :
    (r : BudgetRecord) (now : Timestamp) (s : Snapshot) {m : BudgetMutation}
    → r.state ≡ reserved
    → calculate_expire r now s ≡ ok m
    → IsExpiry r now s m
calculate_expire-IsExpiry r now s live h =
    let (us, made, same) = live_expire r now s live h in
    let facts = expire_quotas-IsForgotten r.quotas now s made in
    subst (IsExpiry r now s) same
      (record { forgotten = facts.0; complete = facts.1; state = refl; entry = refl })

-- A reservation that found its tokens in the bucket and is released unused, where the store holds
-- what its grant wrote and the counters are exact, leaves its window as it was read, and its
-- bucket as if nothing had been taken from it.
pub settle_quota-reserve_update :
    (r : BudgetRecord) (q : QuotaSpec) (x : Reading) (now : Timestamp) (s : Snapshot)
    → s.window q.key
      ≡ some (record {
        used = some (reserve_update r q x).used;
        held = some (reserve_update r q x).held;
      })
    → s.rate q.rate
      ≡ some (record {
        credits = some (reserve_update r q x).credits;
        at = some (reserve_update r q x).at;
      })
    → x.used ≤ max_exact_integer
    → x.held + q.amount ≤ max_exact_integer
    → q.amount * scale q ≤ x.credits
    → settle_quota q 0 now s
      ≡ ok (record {
        quota = q;
        used = x.used;
        held = x.held;
        credits = refill q x.credits r.now now 0;
        at = now;
      })
unfolding settle_quota
settle_quota-reserve_update r q x now s w t a b c = ground arith
