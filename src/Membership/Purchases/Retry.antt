-- ===== src/Membership/Purchases/Retry.antt =====
-- A purchase request that is sent again (src/membership/membership-purchase.service.ts).
use altstay_backend.Model.Stable.{Stable, Stable-bind, Stable-pure}
use altstay_backend.Membership.Terms.{get_plan_by_code}
use altstay_backend.Prelude.{
  ℕ, ◌≡◌, refl, ◌∙◌, inl, inr, true, Option, none, some, arith, Bool-cases, length, any, find?,
  length-update_where,
}
use altstay_backend.Model.{
  MembershipPlan, MembershipPurchase, Db, payment_service_rejected, Result, ok, err, after, Keeps,
  Result-cases,
}
use altstay_backend.Payments.Sessions.{SessionReply, started, refused, failing}
use altstay_backend.Membership.Activation.{
  is_purchase, update_membership_purchase, set_purchase_failed,
}
use altstay_backend.Membership.Purchases.{
  PurchaseSurroundings, purchase_ttl_ms, find_reusable_purchase, has_key, insert_purchase,
  set_provider_order, finish_session, start_payment_session, resume_purchase, replay_purchase,
  start_purchase, create_purchase,
}

abbrev pub purchase_count : Db → ℕ
purchase_count db = length db.membership_purchases

-- Code that adds no purchase, whatever it returns.
abbrev AddsNone : {A : Type 0} → Db → Result A × Db → Type 0
AddsNone db r = purchase_count (after r) ≡ purchase_count db

transaction-AddsNone :
    {A : Type 0} (r : Result (A × Db)) (db : Db)
    → Keeps (λ d. purchase_count d ≡ purchase_count db) r
    → AddsNone {A = A} db (elim r [ ok (a, d) ↦ (ok a, d) | err e ↦ (err e, db) ])
transaction-AddsNone (ok (a, d)) db h = h
transaction-AddsNone (err e) db h = refl

update_membership_purchase-Stable :
    (n id : ℕ) (f : MembershipPurchase → MembershipPurchase)
    → Stable (λ d. purchase_count d ≡ n) (update_membership_purchase id f)
unfolding update_membership_purchase
update_membership_purchase-Stable n id f = record {
  keeps = λ db h. elim (Bool-cases (any (is_purchase id) db.membership_purchases)) [
    | inl e ↦ rw e (length-update_where (is_purchase id) f db.membership_purchases ∙ h)
    | inr e ↦ rw e tt
  ];
}

finish_session-AddsNone :
    (purchase_id at : ℕ) (reply : SessionReply) (db : Db)
    → AddsNone db (finish_session purchase_id at reply db)
unfolding finish_session
finish_session-AddsNone purchase_id at (started session) db = transaction-AddsNone _ db (
    (Stable-bind (λ d. purchase_count d ≡ purchase_count db)
        (update_membership_purchase purchase_id (set_provider_order session.provider_order_id)) _
        (update_membership_purchase-Stable (purchase_count db) purchase_id _)
        (λ _. Stable-pure (λ d. purchase_count d ≡ purchase_count db) session)).keeps
      db refl)
finish_session-AddsNone purchase_id at refused db =
    transaction-AddsNone
      (update_membership_purchase purchase_id (set_purchase_failed payment_service_rejected at) db)
      db ((update_membership_purchase-Stable (purchase_count db) purchase_id _).keeps db refl)
finish_session-AddsNone purchase_id at failing db = refl

module _ (client : MembershipPurchase → SessionReply) (interim : Db → Db)
    (env : PurchaseSurroundings)
    (quiet : (db : Db) → purchase_count (interim db) ≡ purchase_count db) where
  start_payment_session-AddsNone :
      (row : MembershipPurchase) (db : Db)
      → AddsNone db (start_payment_session client interim env row db)
  unfolding start_payment_session
  start_payment_session-AddsNone row db = elim (Bool-cases env.is_payment_service_configured) [
    | inl e ↦
        rw e (finish_session-AddsNone row.id env.answered_at (client row) (interim db) ∙ quiet db)
    | inr e ↦ rw e refl
  ]

  resume_purchase-AddsNone :
      (row : MembershipPurchase) (db : Db) → AddsNone db (resume_purchase client interim env row db)
  unfolding resume_purchase
  resume_purchase-AddsNone row db = ground (arith, start_payment_session-AddsNone row db)

  replay_purchase-AddsNone :
      (found : Option MembershipPurchase) (plan_id : ℕ) (db : Db)
      → AddsNone db (replay_purchase client interim env found plan_id db)
  unfolding replay_purchase
  replay_purchase-AddsNone none plan_id db = refl
  replay_purchase-AddsNone (some row) plan_id db = ground (arith, resume_purchase-AddsNone row db)

  start_purchase-AddsNone :
      (user_id : ℕ) (plan : MembershipPlan) (key : ℕ) (existing : Option MembershipPurchase)
      (db : Db)
      → any (has_key user_id key) db.membership_purchases ≡ true
      → AddsNone db (start_purchase client interim env user_id plan key existing db)
  unfolding start_purchase insert_purchase
  start_purchase-AddsNone user_id plan key (some row) db h = resume_purchase-AddsNone row db
  start_purchase-AddsNone user_id plan key none db h =
      rw h
        (replay_purchase-AddsNone (find? (has_key user_id key) db.membership_purchases) plan.id db)

-- A purchase request under an Idempotency-Key that the user has a purchase under adds no purchase,
-- whatever the plan, the payment service's answer and the outcome, when other calls add none
-- meanwhile.
pub create_purchase-adds_none :
    (client : MembershipPurchase → SessionReply) (interim : Db → Db) (env : PurchaseSurroundings)
    → (user_id plan_code key : ℕ) (db : Db)
    → ((d : Db) → purchase_count (interim d) ≡ purchase_count d)
    → any (has_key user_id key) db.membership_purchases ≡ true
    → purchase_count (after (create_purchase client interim env user_id plan_code key db))
      ≡ purchase_count db
unfolding create_purchase
create_purchase-adds_none client interim env user_id plan_code key db quiet h =
    elim (Result-cases (get_plan_by_code plan_code db)) [
      | inl (e, k) ↦ rw (create_purchase, after, k) refl
      | inr (plan, d, k) ↦
          rw (create_purchase, after, k)
            (start_purchase-AddsNone client interim env quiet user_id plan key
              (find_reusable_purchase user_id plan.id (purchase_ttl_ms env.ttl_minutes) env.now db)
              db h)
    ]
