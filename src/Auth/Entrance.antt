-- ===== src/Auth/Entrance.antt =====
-- Who gets in.
use nfs_most_wanted_online.Prelude.{
  ℕ, true, false, ◌||◌, Option, none, some, List, [], ◌∷◌, ◌≡◌, refl, ◌∙◌, arith, Bool-cases,
  Option-cases, inl, inr,
}
use nfs_most_wanted_online.Prelude.Eq.{text_eq}
use nfs_most_wanted_online.Prelude.Dict.{Dict}
use nfs_most_wanted_online.Prelude.Text.{Text, truthy}
use nfs_most_wanted_online.Auth.Limits.{auth_is_rate_limited}
use nfs_most_wanted_online.Auth.Rejects.{auth_norm, auth_pop_forced_reject}
use nfs_most_wanted_online.Auth.Accounts.{
  Account, auth_kv_value, auth_account_reject_reason, auth_account_key_reject_reason,
}
use nfs_most_wanted_online.Auth.Login.{
  Digests, LoginSettings, LoginState, Outcome, auth_password_matches, account_for, refusal, entry,
  login_account, login_unknown, login_found, login_first, login_among, login_checked,
  authenticate_login, identifier_keys, password_keys, auth_request_identities,
}

same_account :
    {a b : Outcome × LoginState} {account : Account}
    → a ≡ b
    → b.0.account ≡ some account
    → a.0.account ≡ some account
same_account e h = rw e h

module _ (digests : Digests) (settings : LoginSettings) (enrolled : Option Account) (now : ℕ) where
  account_enters :
      (account : Account) (kv : Dict Text Text) (identifier password : Text) (s : LoginState)
      → (login_account digests settings enrolled now account kv identifier password s).0.success
        ≡ true
      → (truthy (auth_account_reject_reason account) ≡ false)
        × (truthy (auth_account_key_reject_reason account kv) ≡ false)
        × ((settings.account_mode || auth_password_matches digests settings account kv password)
            ≡ true)
        × ((login_account digests settings enrolled now account kv identifier password s).0.account
            ≡ some account)
  unfolding login_account refusal entry
  account_enters account kv identifier password s h = ground arith

  checked_among :
      (accounts : List Account) (kv : Dict Text Text) (identifier password : Text) (s : LoginState)
      → settings.verify_enabled ≡ true
      → (login_checked digests settings enrolled now accounts kv identifier password s).0.success
        ≡ true
      → let limited = auth_is_rate_limited settings.fail_settings identifier now s.limits in
        (limited.0 ≡ false)
        × (login_checked digests settings enrolled now accounts kv identifier password s
            ≡ login_among digests settings enrolled now accounts kv identifier password
                (record s { limits = limited.1 }))
  unfolding login_checked refusal entry
  checked_among accounts kv identifier password s verified h = ground arith

  unknown_refused :
      (identifier : Text) (o : Option Account) (s : LoginState)
      → settings.auto_enroll ≡ false
      → (login_unknown digests settings enrolled now identifier o s).0.success ≡ false
  unfolding login_unknown refusal entry
  unknown_refused identifier none s closed = refl
  unknown_refused identifier (some account) s closed = rw closed refl

  first_refused :
      (identifier : Text) (o : Option Account) (s : LoginState)
      → settings.auto_enroll ≡ false
      → (login_first digests settings enrolled now o identifier s).0.success ≡ false
  unfolding login_first refusal entry
  first_refused identifier none s closed = refl
  first_refused identifier (some account) s closed = rw closed refl

  among_found :
      (accounts : List Account) (kv : Dict Text Text) (identifier password : Text) (s : LoginState)
      → settings.auto_enroll ≡ false
      → (login_among digests settings enrolled now accounts kv identifier password s).0.success
        ≡ true
      → (account : Account) × (account_for (auth_norm identifier) accounts ≡ some account)
        × (login_among digests settings enrolled now accounts kv identifier password s
            ≡ login_account digests settings enrolled now account kv identifier password s)
  unfolding login_among login_found
  among_found [] kv identifier password s closed h =
      absurd (cc (h, first_refused identifier enrolled s closed))
  among_found (account ∷ accounts) kv identifier password s closed h =
      elim (Option-cases (account_for (auth_norm identifier) (account ∷ accounts))) [
        | inl e ↦ absurd (cc (rw e at h, unknown_refused identifier enrolled s closed))
        | inr (found, e) ↦ (found, e, rw e refl)
      ]

  -- Where logins are verified and nobody is enrolled by logging in, whoever gets in is named by no
  -- forced reject and not locked out, and the account that is entered is the first that the identifier
  -- names: one that is not refused, whose key was given if it has one, and whose password was given
  -- unless accounts alone are asked for.
  pub authenticate_login-safe :
      (accounts : List Account) (kv : Dict Text Text) (s : LoginState)
      → settings.verify_enabled ≡ true
      → settings.auto_enroll ≡ false
      → (authenticate_login digests settings enrolled now accounts kv s).0.success ≡ true
      → let identifier = auth_kv_value kv identifier_keys in
        let password = auth_kv_value kv password_keys in
        (truthy
            (auth_pop_forced_reject (auth_request_identities kv identifier) now s.forced_rejects).0
          ≡ false)
        × ((auth_is_rate_limited settings.fail_settings identifier now s.limits).0 ≡ false)
        × ((account : Account) × (account_for (auth_norm identifier) accounts ≡ some account)
            × (truthy (auth_account_reject_reason account) ≡ false)
            × (truthy (auth_account_key_reject_reason account kv) ≡ false)
            × ((settings.account_mode || auth_password_matches digests settings account kv password)
                ≡ true)
            × ((authenticate_login digests settings enrolled now accounts kv s).0.account
                ≡ some account))
  unfolding authenticate_login
  authenticate_login-safe accounts kv s verified closed h =
      let identifier = auth_kv_value kv identifier_keys in
      let password = auth_kv_value kv password_keys in
      let forced =
        auth_pop_forced_reject (auth_request_identities kv identifier) now s.forced_rejects in
      elim (Bool-cases (truthy forced.0)) [
        | inl e ↦ absurd (unfold refusal in cc (rw e at h))
        | inr e ↦
            let popped = record s { forced_rejects = forced.1 } in
            let h1 : (login_checked digests settings enrolled now accounts kv identifier password
                  popped).0.success
                ≡ true =
              rw e at h in
            let c = checked_among accounts kv identifier password popped verified h1 in
            let seen = record popped {
              limits = (auth_is_rate_limited settings.fail_settings identifier now s.limits).1;
            } in
            let h2 : (login_among digests settings enrolled now accounts kv identifier password
                  seen).0.success
                ≡ true =
              rw c.1 at h1 in
            let f = among_found accounts kv identifier password seen closed h2 in
            let g = account_enters f.0 kv identifier password seen (rw f.2 at h2) in
            (e, c.0, (f.0, f.1, g.0, g.1, g.2, rw e (same_account (c.1 ∙ f.2) g.3)))
      ]
