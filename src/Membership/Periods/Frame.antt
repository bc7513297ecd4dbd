-- ===== src/Membership/Periods/Frame.antt =====
-- Reading a period and writing a profile (src/membership/membership.service.ts) touch the users alone.
use altstay_backend.Prelude.{ℕ, List, find?, update_where}
use altstay_backend.Model.{
  User, UserMembership, Db, record_not_found, is_user, update_user, Stable-update_user,
}
use altstay_backend.Model.Stable.{Stable, Stable-or_throw, stable_rules}
use altstay_backend.Quotes.{is_plan, plan_of}
use altstay_backend.Membership.Terms.{load_active}
use altstay_backend.Membership.Periods.{sync_user_profile_fields}

abbrev pub IgnoresProfiles : (Db → Type 0) → Type 0
IgnoresProfiles P = (db : Db) (us : List User) → P db → P (record db { users = us })

module _ (P : Db → Type 0) (ignores : IgnoresProfiles P) where
  pub update_user-Stable : (id : ℕ) (f : User → User) → Stable P (update_user id f)
  update_user-Stable id f =
      Stable-update_user P id f (λ db h. ignores db (update_where (is_user id) f db.users) h)

  pub plan_of-Stable : (m : UserMembership) → Stable P (plan_of m)
  plan_of-Stable m = record {
    keeps = λ db h.
        (Stable-or_throw P (find? (is_plan m.plan_id) db.membership_plans) record_not_found).keeps
          db h;
  }

  pub load_active-Stable : (user_id now : ℕ) → Stable P (load_active user_id now)
  unfolding load_active
  load_active-Stable user_id now = search (stable_rules, plan_of-Stable) depth 10

  pub sync_user_profile_fields-Stable :
      (user_id now : ℕ) → Stable P (sync_user_profile_fields user_id now)
  unfolding sync_user_profile_fields
  sync_user_profile_fields-Stable user_id now =
      search (stable_rules, load_active-Stable, update_user-Stable) depth 6
