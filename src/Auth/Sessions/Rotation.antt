-- ===== src/Auth/Sessions/Rotation.antt =====
-- A refresh token is used once (`refresh` of src/auth/auth.service.ts).
use altstay_backend.Prelude.{
  ℕ, ◌≡◌, refl, ◌∙◌, subst, inl, inr, true, false, some, List, ◌∷◌, arith, ◌==◌, ==_refl,
  Bool-cases, Option-cases, is_some, any, find?, update_where, find?_holds, find?-update_where_seen,
  find?-update_where_other, any_of_found,
}
use altstay_backend.Model.{invalid_refresh_token, ok, err}
use altstay_backend.Auth.Sessions.{
  RefreshToken, AuthDb, TokenSurroundings, has_hash, is_token, set_revoked, set_last_used,
  new_row_of, issue_tokens, stamp_last_used, rotate, is_refused, refresh_stored, refresh,
}

module _ (hash_token : ℕ → ℕ) (token : ℕ) where
  abbrev hash : ℕ
  hash = hash_token token

  abbrev IsRevoked : List RefreshToken → Type 0
  IsRevoked rows =
      (row : RefreshToken) × (find? (has_hash hash) rows ≡ some row)
      × (is_some row.revoked_at ≡ true)

  set_revoked-IsRevoked :
      (rows : List RefreshToken) (stored : RefreshToken) (now : ℕ)
      → find? (has_hash hash) rows ≡ some stored
      → IsRevoked (update_where (is_token stored.id) (set_revoked now) rows)
  set_revoked-IsRevoked rows stored now f = (
    set_revoked now stored,
    find?-update_where_seen (has_hash hash) (is_token stored.id) (set_revoked now) rows (λ y. refl)
        f (==_refl stored.id),
    refl,
  )

  other_hash :
      (h : ℕ) (rows : List RefreshToken) {row : RefreshToken}
      → any (has_hash h) rows ≡ false
      → find? (has_hash hash) rows ≡ some row
      → (h == hash) ≡ false
  other_hash h rows {row} fresh f = elim (Bool-cases (h == hash)) [
    | inr e ↦ e
    | inl e ↦
        let here : has_hash hash row ≡ true = find?_holds (has_hash hash) rows f in
        let there : any (has_hash h) rows ≡ true =
          any_of_found (has_hash hash) (has_hash h) rows f (ground arith) in
        cc
  ]

  -- Rows of another hash, in front or written, do not hide it.
  issued-IsRevoked :
      (rows : List RefreshToken) (new : RefreshToken) (now : ℕ)
      → any (has_hash new.token_hash) rows ≡ false
      → IsRevoked rows
      → IsRevoked (update_where (has_hash new.token_hash) (set_last_used now) (new ∷ rows))
  unfolding find? update_where
  issued-IsRevoked rows new now fresh (row, f, r) =
      let other : (new.token_hash == hash) ≡ false = other_hash new.token_hash rows fresh f in
      (
        row,
        rw (==_refl new.token_hash, other)
            (find?-update_where_other (has_hash hash) (has_hash new.token_hash) (set_last_used now)
                rows (λ x k. ground arith)
              ∙ f),
        r,
      )

  rotate-IsRevoked :
      (stored : RefreshToken) (env : TokenSurroundings) (db db' : AuthDb) {new : ℕ}
      → find? (has_hash hash) db.refresh_tokens ≡ some stored
      → rotate hash_token stored env db ≡ (ok new, db')
      → IsRevoked db'.refresh_tokens
  unfolding rotate issue_tokens stamp_last_used
  rotate-IsRevoked stored env db db' f e =
      let rows = update_where (is_token stored.id) (set_revoked env.now) db.refresh_tokens in
      elim (Bool-cases (any (has_hash (hash_token env.new_token)) rows)) [
        | inl t ↦ ground arith
        | inr t ↦
            let written : update_where (has_hash (hash_token env.new_token)) (set_last_used env.now)
                  (new_row_of hash_token stored.user_id env ∷ rows)
                ≡ db'.refresh_tokens =
              ground arith in
            subst IsRevoked written (
              issued-IsRevoked rows (new_row_of hash_token stored.user_id env) env.now t
                (set_revoked-IsRevoked db.refresh_tokens stored env.now f))
      ]

-- After a refresh token has been exchanged for a new one, every later exchange of it is refused and
-- changes nothing, whatever the hash.
pub refresh_once :
    (hash_token : ℕ → ℕ) (token : ℕ) (env later : TokenSurroundings) (db db' : AuthDb) {new : ℕ}
    → refresh hash_token token env db ≡ (ok new, db')
    → refresh hash_token token later db' ≡ (err invalid_refresh_token, db')
unfolding refresh refresh_stored
refresh_once hash_token token env later db db' {new} e =
    elim (Option-cases (find? (has_hash (hash_token token)) db.refresh_tokens)) [
      | inl n ↦ ground arith
      | inr (stored, f) ↦ elim (Bool-cases (is_refused hash_token stored env.now db)) [
        | inl t ↦ ground arith
        | inr t ↦
            let (row, g, r) =
              rotate-IsRevoked hash_token token stored env db db' {new = new} f (ground arith) in
            rw (g, r) refl
      ]
    ]
