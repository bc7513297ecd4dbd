-- ===== src/Membership/Activation/Running.antt =====
-- The membership that a user is in after an activation
-- (src/membership/membership-payment-confirmation.service.ts).
use altstay_backend.Model.Stable.{Keeps-of_ok}
use altstay_backend.Membership.Periods.Frame.{sync_user_profile_fields-Stable}
use altstay_backend.Membership.Terms.Credit.{compute_expiry_for_purchase_lem}
use altstay_backend.Payments.Confirmation.{PaymentNotification}
use altstay_backend.Prelude.{
  ℕ, ◌≤◌, ◌<◌, ◌≡◌, refl, sym, ap, ◌∙◌, subst, inl, inr, Bool, false, Option, none, some, ◌∷◌,
  arith, lt→ltb, ==_refl, Bool-cases, Option-cases, any, find?, update_where, AtMostOne, any-none,
  AtMostOne-none, any-cleared, find?-newest,
}
use altstay_backend.Model.{
  UserMembership, MembershipPlan, MembershipPurchase, Db, invalid_time, ok, or_throw, Keeps,
  Keeps-of_eq, Result-cases, or_throw_ok,
}
use altstay_backend.Quotes.{is_running_membership, is_plan, find_active_membership}
use altstay_backend.Membership.Terms.{
  MembershipExpiry, ActiveMembership, add_days, compute_expiry_for_purchase, load_active,
}
use altstay_backend.Membership.Periods.{is_membership, update_user_membership}
use altstay_backend.Membership.Activation.{
  has_purchase_reference, update_membership_purchase, set_purchase_captured, is_period_of,
  set_superseded, create_user_membership, new_period, supersede, start_period, activate,
  activated_result, handle_success,
}

abbrev pub AtMostOneRunning : ℕ → ℕ → Db → Type 0
AtMostOneRunning user_id at db = AtMostOne (is_running_membership user_id at) db.user_memberships

-- What a step has left of the running periods: none.
abbrev NoneRunning : ℕ → ℕ → Db → Type 0
NoneRunning user_id at db = any (is_running_membership user_id at) db.user_memberships ≡ false

find_active_membership-find? :
    (user_id at : ℕ) (db : Db)
    → AtMostOneRunning user_id at db
    → find_active_membership user_id at db
      ≡ find? (is_running_membership user_id at) db.user_memberships
unfolding find_active_membership
find_active_membership-find? user_id at db h =
    find?-newest (is_running_membership user_id at) (λ (m : UserMembership). m.activated_at)
      db.user_memberships h

abbrev membership_of : Option ActiveMembership → Option UserMembership
membership_of none = none
membership_of (some c) = some c.membership

load_active_ok :
    (user_id at : ℕ) (db : Db) {c : Option ActiveMembership} {d : Db}
    → load_active user_id at db ≡ ok (c, d)
    → (find_active_membership user_id at db ≡ membership_of c) × (d ≡ db)
unfolding load_active
load_active_ok user_id at db {c} {d} e =
    elim (Option-cases (find_active_membership user_id at db)) [
      | inl n ↦ ground arith
      | inr (m, f) ↦ elim (Option-cases (find? (is_plan m.plan_id) db.membership_plans)) [
        | inl n ↦ ground arith
        | inr (plan, g) ↦ ground arith
      ]
    ]

module _ (user_id at : ℕ) where
  abbrev runs : UserMembership → Bool
  runs = is_running_membership user_id at

  update_user_membership_ok :
      (id : ℕ) (f : UserMembership → UserMembership) (db : Db) {u : Unit {0}} {d : Db}
      → update_user_membership id f db ≡ ok (u, d)
      → d.user_memberships ≡ update_where (is_membership id) f db.user_memberships
  unfolding update_user_membership
  update_user_membership_ok id f db e = ground arith

  -- Superseding the period that was found leaves none.
  supersede-NoneRunning :
      (c : Option ActiveMembership) (db : Db) {u : Unit {0}} {d : Db}
      → AtMostOneRunning user_id at db
      → find_active_membership user_id at db ≡ membership_of c
      → supersede c at db ≡ ok (u, d)
      → NoneRunning user_id at d
  unfolding supersede
  supersede-NoneRunning none db {d = d} h f e =
      let same : d ≡ db = ground arith in
      subst (NoneRunning user_id at) (sym same)
        (any-none runs db.user_memberships (sym (find_active_membership-find? user_id at db h) ∙ f))
  supersede-NoneRunning (some c) db h f e =
      rw (update_user_membership_ok c.membership.id (set_superseded at) db e) (
        any-cleared runs (is_membership c.membership.id) (set_superseded at) db.user_memberships h
          (sym (find_active_membership-find? user_id at db h) ∙ f) (==_refl c.membership.id)
          (λ y. ground arith))

  create_user_membership_ok :
      (m : UserMembership) (db : Db) {u : Unit {0}} {d : Db}
      → create_user_membership m db ≡ ok (u, d)
      → d.user_memberships ≡ m ∷ db.user_memberships
  unfolding create_user_membership
  create_user_membership_ok m db e =
      elim (Bool-cases (any (is_period_of m.purchase_id) db.user_memberships)) [
        | inl k ↦ ground arith
        | inr k ↦ ground arith
      ]

module _ (row : MembershipPurchase) (plan : MembershipPlan) (id at now : ℕ)
    (lasts : 0 < plan.duration_days) where
  -- At that time the user is in one period: the purchase's, of at least the plan's days.
  abbrev pub IsActivated : Db → Type 0
  IsActivated db =
      (m : UserMembership) × (find? (is_running_membership row.user_id at) db.user_memberships
        ≡ some m)
      × (m.purchase_id ≡ row.id)
      × (m.plan_id ≡ row.plan_id)
      × (add_days at plan.duration_days ≤ m.expires_at)
      × AtMostOneRunning row.user_id at db

  IsActivated-new_period :
      (e : MembershipExpiry) (db d : Db)
      → add_days at plan.duration_days ≤ e.expires_at
      → NoneRunning row.user_id at db
      → d.user_memberships ≡ new_period id row e at ∷ db.user_memberships
      → IsActivated d
  unfolding find?
  IsActivated-new_period e db d h none_runs rows =
      let q = is_running_membership row.user_id at in
      (
        new_period id row e at,
        rw (rows, ==_refl row.user_id, lt→ltb at e.expires_at (omega arith)) refl,
        refl,
        refl,
        h,
        rw rows ((λ _. none_runs), AtMostOne-none q db.user_memberships none_runs),
      )

  created-IsActivated :
      (c : Option ActiveMembership) (expiry : MembershipExpiry) (db db₁ db₂ db₃ db₄ : Db)
      → AtMostOneRunning row.user_id at db
      → load_active row.user_id at db ≡ ok (c, db₁)
      → supersede c at db₁ ≡ ok (tt, db₂)
      → or_throw (compute_expiry_for_purchase plan c at) invalid_time db₂ ≡ ok (expiry, db₃)
      → create_user_membership (new_period id row expiry at) db₃ ≡ ok (tt, db₄)
      → IsActivated db₄
  created-IsActivated c expiry db db₁ db₂ db₃ db₄ one e₁ e₂ e₃ e₄ =
      let (found, same₁) = load_active_ok row.user_id at db e₁ in
      let (calc, same₃) = or_throw_ok (compute_expiry_for_purchase plan c at) invalid_time db₂ e₃ in
      IsActivated-new_period expiry db₂ db₄
        (compute_expiry_for_purchase_lem plan c at expiry calc).0
        (supersede-NoneRunning row.user_id at c db₁ (rw same₁ one) (rw same₁ found) e₂)
        (create_user_membership_ok row.user_id at (new_period id row expiry at) db₃ e₄
          ∙ ap (λ (d : Db). new_period id row expiry at ∷ d.user_memberships) same₃)

  start_period-IsActivated :
      (db : Db)
      → AtMostOneRunning row.user_id at db
      → Keeps IsActivated (start_period row plan id at now db)
  unfolding start_period
  start_period-IsActivated db one =
      Keeps-of_ok IsActivated (load_active row.user_id at db) _ λ c db₁ e₁.
        let calc = compute_expiry_for_purchase plan c at in
        Keeps-of_ok IsActivated (supersede c at db₁) _ λ u db₂ e₂.
          Keeps-of_ok IsActivated (or_throw calc invalid_time db₂) _ λ expiry db₃ e₃.
            Keeps-of_ok IsActivated (create_user_membership (new_period id row expiry at) db₃) _
              λ u db₄ e₄.
                (sync_user_profile_fields-Stable IsActivated (λ d us h. h) row.user_id now).keeps
                  db₄ (created-IsActivated c expiry db db₁ db₂ db₃ db₄ one e₁ e₂ e₃ e₄)

update_membership_purchase_ok :
    (id : ℕ) (f : MembershipPurchase → MembershipPurchase) (db : Db) {u : Unit {0}} {d : Db}
    → update_membership_purchase id f db ≡ ok (u, d)
    → d.user_memberships ≡ db.user_memberships
unfolding update_membership_purchase
update_membership_purchase_ok id f db e = ground arith

activate-IsActivated :
    (dto : PaymentNotification) (row : MembershipPurchase) (plan : MembershipPlan) (id now : ℕ)
    → (lasts : 0 < plan.duration_days) (db : Db) → AtMostOneRunning row.user_id dto.occurred_at db
    → Keeps (IsActivated row plan id dto.occurred_at now lasts) (activate dto row plan id now db)
unfolding activate
activate-IsActivated dto row plan id now lasts db one =
    Keeps-of_ok _ (update_membership_purchase row.id (set_purchase_captured dto) db) _ λ u d e.
      start_period-IsActivated row plan id dto.occurred_at now lasts d
        (rw (update_membership_purchase_ok row.id (set_purchase_captured dto) db e) one)

handle_success-activated :
    (dto : PaymentNotification) (id now : ℕ) (db db' : Db) (row : MembershipPurchase)
    → (plan : MembershipPlan)
    → find? (has_purchase_reference dto.payment_reference) db.membership_purchases ≡ some row
    → find? (is_plan row.plan_id) db.membership_plans ≡ some plan
    → handle_success dto id now db ≡ ok (activated_result, db')
    → activate dto row plan id now db ≡ ok (tt, db')
unfolding handle_success
handle_success-activated dto id now db db' row plan f g e =
    elim (Result-cases (activate dto row plan id now db)) [
      | inl (x, k) ↦ ground arith
      | inr (u, d, k) ↦ ground arith
    ]

-- When a success has activated the membership of a purchase whose plan lasts at least a day, for a
-- user with at most one running period at the time of the payment, then at that time the user is
-- again in at most one, and it is the purchase's: of its plan, and of at least the plan's days.
pub activation_lem :
    (dto : PaymentNotification) (id now : ℕ) (db db' : Db) (row : MembershipPurchase)
    → (plan : MembershipPlan)
    → find? (has_purchase_reference dto.payment_reference) db.membership_purchases ≡ some row
    → find? (is_plan row.plan_id) db.membership_plans ≡ some plan
    → 0 < plan.duration_days
    → AtMostOneRunning row.user_id dto.occurred_at db
    → handle_success dto id now db ≡ ok (activated_result, db')
    → (m : UserMembership) × (find_active_membership row.user_id dto.occurred_at db' ≡ some m)
      × (m.purchase_id ≡ row.id)
      × (m.plan_id ≡ row.plan_id)
      × (add_days dto.occurred_at plan.duration_days ≤ m.expires_at)
      × AtMostOneRunning row.user_id dto.occurred_at db'
activation_lem dto id now db db' row plan f g lasts one e =
    let (m, found, purchase, of_plan, end_time, still) =
      Keeps-of_eq (IsActivated row plan id dto.occurred_at now lasts)
        (activate dto row plan id now db)
        (handle_success-activated dto id now db db' row plan f g e)
        (activate-IsActivated dto row plan id now lasts db one) in
    (
      m,
      find_active_membership-find? row.user_id dto.occurred_at db' still ∙ found,
      purchase,
      of_plan,
      end_time,
      still,
    )
