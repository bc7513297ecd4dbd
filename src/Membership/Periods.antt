-- ===== src/Membership/Periods.antt =====
-- The periods of membership: `syncUserProfileFields`, `expireStaleMemberships` and
-- `hasUsedMemberDiscount` of src/membership/membership.service.ts, and `updateMembership` of
-- src/membership/admin-memberships.service.ts.
use mathlib.Core.List.{map}
pub mod Frame
use altstay_backend.Prelude.{
  ℕ, Bool, true, false, ◌&&◌, ◌||◌, Option, none, some, List, [], ◌∷◌, ltb, leb, ◌==◌,
  if◌then◌else◌, is_some, length, any, pos, ltb_ℤ, find?, select, update_where, delete_where,
}
use altstay_backend.Model.{
  MembershipStatus, CancellationReason, payment_pending, confirmed, completed, active, superseded,
  same_status, is_active, User, Reservation, UserMembership, Db, membership_not_found,
  extension_not_positive, unsupported_action, record_not_found, Result, ok, err, Tx, Action, throw,
  gets, throw_if, or_throw, ◌>>=◌, ◌>>◌, update_user,
}
use altstay_backend.Membership.Terms.{ActiveMembership, add_days, load_active}

abbrev pub is_membership : ℕ → UserMembership → Bool
is_membership id row = row.id == id

unfoldable pub update_user_membership : ℕ → (UserMembership → UserMembership) → Tx (Unit {0})
update_user_membership id f db =
    if any (is_membership id) db.user_memberships
    then ok
        (tt, record db { user_memberships = update_where (is_membership id) f db.user_memberships })
    else err record_not_found

-- `plan.name ?? 'Free'`
abbrev pub set_profile : Option ℕ → Option ℕ → User → User
set_profile tier expires_at u = record u {
  membership_tier = tier;
  membership_expires_at = expires_at;
}

abbrev profile_of : Option ActiveMembership → User → User
profile_of none = set_profile none none
profile_of (some current) =
    set_profile (some current.plan.name) (some current.membership.expires_at)

unfoldable pub sync_user_profile_fields : ℕ → ℕ → Tx (Unit {0})
sync_user_profile_fields user_id now = do
  current ← load_active user_id now
  update_user user_id (profile_of current)

abbrev is_stale_period : ℕ → UserMembership → Bool
is_stale_period now m = is_active m.status && leb m.expires_at now

abbrev set_period_expired : UserMembership → UserMembership
set_period_expired m = record m { status = MembershipStatus.expired }

abbrev is_expired_status : MembershipStatus → Bool
is_expired_status active = false
is_expired_status MembershipStatus.expired = true
is_expired_status superseded = false
is_expired_status MembershipStatus.cancelled = false

abbrev has_expired : ℕ → UserMembership → Bool
has_expired now m = is_expired_status m.status && leb m.expires_at now

-- `distinct: ['userId']`
distinct : List ℕ → List ℕ
distinct [] = []
distinct (x ∷ xs) = x ∷ delete_where (λ y. y == x) (distinct xs)

-- The loop over the users, which stops at the first error.
sync_all : List ℕ → ℕ → Action (Unit {0})
sync_all [] now db = (ok tt, db)
sync_all (user_id ∷ rest) now db = elim (sync_user_profile_fields user_id now db) [
  | err e ↦ (err e, db)
  | ok (_, db₁) ↦ sync_all rest now db₁
]

count_after : ℕ → Result (Unit {0}) × Db → Result ℕ × Db
count_after count (ok _, db) = (ok count, db)
count_after count (err e, db) = (err e, db)

unfoldable pub expire_stale_memberships : ℕ → ℕ → Action ℕ
unfolding distinct sync_all count_after
expire_stale_memberships now sync_at db =
    let count = length (select (is_stale_period now) db.user_memberships) in
    let rows = update_where (is_stale_period now) set_period_expired db.user_memberships in
    let db₁ : Db = record db { user_memberships = rows } in
    let users =
      distinct (map (λ (m : UserMembership). m.user_id) (select (has_expired now) rows)) in
    if ltb 0 count then count_after count (sync_all users sync_at db₁) else (ok count, db₁)

abbrev counts_as_used : Reservation → Bool
counts_as_used r =
    (same_status r.status confirmed
      || same_status r.status completed
      || same_status r.status payment_pending)
    && (ltb_ℤ (pos 0) r.coins_earnable
        || ltb_ℤ (pos 0) r.coins_redeemed
        || is_some r.coins_earned_at)

unfoldable pub has_used_member_discount : ℕ → Db → Bool
has_used_member_discount user_id db =
    any (λ r. r.user_id == user_id && counts_as_used r) db.reservations

-- `dto.action`, and `extendDays` where it is there.
pub data MembershipAction : Type 0 where
  cancel : MembershipAction
  extend : (days : Option ℕ) → MembershipAction
  other : MembershipAction

abbrev pub set_period_cancelled : CancellationReason → ℕ → UserMembership → UserMembership
set_period_cancelled reason now m = record m {
  status = MembershipStatus.cancelled;
  cancelled_at = some now;
  cancellation_reason = some reason;
}

abbrev set_period_end : ℕ → UserMembership → UserMembership
set_period_end at m = record m { expires_at = at }

apply_action : UserMembership → MembershipAction → ℕ → Tx (Unit {0})
apply_action m cancel now = do
  update_user_membership m.id (set_period_cancelled CancellationReason.admin now)
  sync_user_profile_fields m.user_id now
apply_action m (extend none) now = throw extension_not_positive
apply_action m (extend (some days)) now = do
  throw_if (days == 0) extension_not_positive
  update_user_membership m.id (set_period_end (add_days m.expires_at days))
  sync_user_profile_fields m.user_id now
apply_action m other now = throw unsupported_action

-- `updateMembership`
unfoldable pub update_membership : ℕ → MembershipAction → ℕ → Tx (Unit {0})
unfolding apply_action
update_membership id action now = do
  found ← gets (λ db. find? (is_membership id) db.user_memberships)
  m ← or_throw found membership_not_found
  apply_action m action now
