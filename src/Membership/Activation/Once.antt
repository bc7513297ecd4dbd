-- ===== src/Membership/Activation/Once.antt =====
-- A purchase activates one membership (src/membership/membership-payment-confirmation.service.ts).
use altstay_backend.Quotes.{is_plan}
use altstay_backend.Payments.Confirmation.{
  EventType, PaymentNotification, payment_succeeded, payment_failed,
}
use altstay_backend.Membership.Periods.Frame.{
  IgnoresProfiles, load_active-Stable, sync_user_profile_fields-Stable,
}
use altstay_backend.Prelude.{
  ℕ, ◌≡◌, refl, subst, inl, inr, Option, none, some, List, ◌∷◌, arith, ==_refl, Bool-cases,
  Option-cases, any, find?, update_where, find?-update_where_seen, any_of_found,
}
use altstay_backend.Model.{
  MembershipStatus, PurchaseStatus, User, UserMembership, MembershipPlan, MembershipPurchase, Db,
  Result, ok, ◌>>=◌, ◌>>◌, Keeps, Keeps-of_eq, Result-cases,
}
use altstay_backend.Model.Stable.{Stable, Stable-pure, stable_rules}
use altstay_backend.Membership.Terms.{ActiveMembership}
use altstay_backend.Membership.Periods.{is_membership, update_user_membership}
use altstay_backend.Membership.Activation.{
  MembershipResult, is_purchase, has_purchase_reference, update_membership_purchase, seen_result,
  is_captured, handle_failure, set_purchase_captured, is_period_of, status_of,
  create_user_membership, supersede, start_period, activate, activated_result, handle_success,
  by_event, handle_membership_notification,
}

-- A property of the plans and the purchases.
abbrev IgnoresPeriods : (Db → Type 0) → Type 0
IgnoresPeriods P =
    (db : Db) (ms : List UserMembership) (us : List User)
    → P db
    → P (record db { user_memberships = ms; users = us })

module _ (P : Db → Type 0) (ignores : IgnoresPeriods P) where
  profiles : IgnoresProfiles P
  profiles db us h = ignores db db.user_memberships us h

  update_user_membership-Stable :
      (id : ℕ) (f : UserMembership → UserMembership) → Stable P (update_user_membership id f)
  unfolding update_user_membership
  update_user_membership-Stable id f = record {
    keeps = λ db h. elim (Bool-cases (any (is_membership id) db.user_memberships)) [
      | inl e ↦ rw e (ignores db (update_where (is_membership id) f db.user_memberships) db.users h)
      | inr e ↦ rw e tt
    ];
  }

  create_user_membership-Stable : (m : UserMembership) → Stable P (create_user_membership m)
  unfolding create_user_membership
  create_user_membership-Stable m = record {
    keeps = λ db h. elim (Bool-cases (any (is_period_of m.purchase_id) db.user_memberships)) [
      | inl e ↦ rw (◌>>=◌, e) tt
      | inr e ↦ rw (◌>>=◌, e) (ignores db (m ∷ db.user_memberships) db.users h)
    ];
  }

  supersede-Stable :
      (current : Option ActiveMembership) (now : ℕ) → Stable P (supersede current now)
  unfolding supersede
  supersede-Stable none now = Stable-pure P tt
  supersede-Stable (some current) now = update_user_membership-Stable _ _

  start_period-Stable :
      (row : MembershipPurchase) (plan : MembershipPlan) (id paid_at now : ℕ)
      → Stable P (start_period row plan id paid_at now)
  unfolding start_period
  start_period-Stable row plan id paid_at now =
      search
        (
          stable_rules,
          load_active-Stable P profiles,
          supersede-Stable,
          create_user_membership-Stable,
          sync_user_profile_fields-Stable P profiles,
        )
        depth 12

module _ (dto : PaymentNotification) (row : MembershipPurchase) (plan : MembershipPlan) where
  -- The purchase is captured, and its plan is there.
  abbrev IsSettled : Db → Type 0
  IsSettled db =
      (find? (has_purchase_reference dto.payment_reference) db.membership_purchases
        ≡ some (set_purchase_captured dto row))
      × (find? (is_plan row.plan_id) db.membership_plans ≡ some plan)

  activate-IsSettled :
      (id now : ℕ) (db : Db)
      → find? (has_purchase_reference dto.payment_reference) db.membership_purchases ≡ some row
      → find? (is_plan row.plan_id) db.membership_plans ≡ some plan
      → Keeps IsSettled (activate dto row plan id now db)
  unfolding activate update_membership_purchase
  activate-IsSettled id now db f g =
      rw
        (
          ◌>>◌,
          ◌>>=◌,
          any_of_found (has_purchase_reference dto.payment_reference) (is_purchase row.id)
              db.membership_purchases f (==_refl row.id),
        )
        ((start_period-Stable IsSettled (λ d ms us h. h) row plan id dto.occurred_at now).keeps _ (
          find?-update_where_seen (has_purchase_reference dto.payment_reference)
              (is_purchase row.id) (set_purchase_captured dto) db.membership_purchases (λ y. refl) f
              (==_refl row.id),
          g,
        ))

  module _ (again : PaymentNotification) (id now : ℕ) (db : Db)
      (same : again.payment_reference ≡ dto.payment_reference) (settled : IsSettled db) where
    abbrev IsSeen : Result (MembershipResult × Db) → Type 0
    IsSeen r = (m : Option MembershipStatus) × (r ≡ ok (seen_result PurchaseStatus.captured m, db))

    handle_success-IsSeen : IsSeen (handle_success again id now db)
    unfolding handle_success
    handle_success-IsSeen = (
      status_of (find? (is_period_of row.id) db.user_memberships),
      rw (same, settled.0, settled.1) refl,
    )

    handle_failure-IsSeen : IsSeen (handle_failure again db)
    unfolding handle_failure
    handle_failure-IsSeen = (none, rw (same, settled.0) refl)

    by_event-IsSeen : (t : EventType) → IsSeen (by_event t again id now db)
    unfolding by_event
    by_event-IsSeen payment_succeeded = handle_success-IsSeen
    by_event-IsSeen payment_failed = handle_failure-IsSeen

handle_success-IsSettled :
    (dto : PaymentNotification) (id now : ℕ) (db db' : Db)
    → handle_success dto id now db ≡ ok (activated_result, db')
    → (row : MembershipPurchase) × (plan : MembershipPlan) × IsSettled dto row plan db'
unfolding handle_success
handle_success-IsSettled dto id now db db' e =
    elim (Option-cases
      (find? (has_purchase_reference dto.payment_reference) db.membership_purchases)) [
        | inl n ↦ ground arith
        | inr (row, f) ↦ elim (Option-cases (find? (is_plan row.plan_id) db.membership_plans)) [
          | inl n ↦ ground arith
          | inr (plan, g) ↦ elim (Result-cases (activate dto row plan id now db)) [
            | inl (x, k) ↦ ground arith
            | inr (_, d, k) ↦ (
              row,
              plan,
              elim (Bool-cases (is_captured row)) [
                | inl c ↦ ground arith
                | inr c ↦
                    let same : d ≡ db' = ground arith in
                    subst (IsSettled dto row plan) same (
                      Keeps-of_eq (IsSettled dto row plan) (activate dto row plan id now db) k
                        (activate-IsSettled dto row plan id now db f g))
              ],
            )
          ]
        ]
      ]

-- After a success that has activated a membership, every notification about the same purchase,
-- success or failure, answers that the purchase is captured and changes nothing.
pub membership_redelivery :
    (dto again : PaymentNotification) (id now id_again later : ℕ) (db db' : Db)
    → again.payment_reference ≡ dto.payment_reference
    → handle_success dto id now db ≡ ok (activated_result, db')
    → (m : Option MembershipStatus) × (handle_membership_notification again id_again later db'
        ≡ ok (seen_result PurchaseStatus.captured m, db'))
unfolding handle_membership_notification
membership_redelivery dto again id now id_again later db db' same e =
    let (row, plan, settled) = handle_success-IsSettled dto id now db db' e in
    by_event-IsSeen dto row plan again id_again later db' same settled again.event_type
