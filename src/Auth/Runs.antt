-- ===== src/Auth/Runs.antt =====
-- Runs of a login on two small accounts, with stand-ins for the digests.
use nfs_most_wanted_online.Prelude.{◌≡◌, refl, true, false, ◌||◌, none, some, [], ◌∷◌}
use nfs_most_wanted_online.Prelude.Eq.{◌==◌, text_eq, text_beq}
use nfs_most_wanted_online.Prelude.Sets.{contains, add}
use nfs_most_wanted_online.Prelude.Dict.{Dict, get, put}
use nfs_most_wanted_online.Prelude.Text.{Text, codes, truthy, strip, lower, upper, is_space}
use nfs_most_wanted_online.Policy.{replaced, split_commas, starts_with}
use nfs_most_wanted_online.Auth.Limits.{
  auth_is_rate_limited, auth_rate_key, recent_failures, times_of,
}
use nfs_most_wanted_online.Auth.Rejects.{auth_norm, auth_pop_forced_reject, popped}
use nfs_most_wanted_online.Auth.Accounts.{
  Account, text, flag, as_text, nonempty_texts, auth_list, lists_of, upper_fields, first_value,
  auth_kv_value, word_bool, auth_bool, before_colon, auth_reason_alias, first_reason,
  auth_account_reject_reason, auth_account_key_reject_reason, norms_of, auth_account_identities,
  field_names, auth_required_fields, auth_missing_required_fields,
}
use nfs_most_wanted_online.Auth.Login.{
  Digests, LoginSettings, LoginState, Outcome, auth_password_matches, account_for, refusal, entry,
  login_account, login_found, login_among, login_checked, authenticate_login, identifier_keys,
  password_keys, auth_request_identities, noted, noted_each, values_each, auth_mask_candidates,
  with_masks, auth_password_candidates, texts_at, is_plain, has_digest,
  auth_password_matches_candidate, some_missing,
}
use nfs_most_wanted_online.Auth.Entrance.{authenticate_login-safe}

abbrev plain : Digests
plain = record {
  pbkdf2_verify = λ supplied encoded. supplied == encoded;
  sha256 = λ t. t;
  md5 = λ t. t;
}

abbrev verifying : LoginSettings
verifying = record {
  verify_enabled = true;
  account_mode = false;
  require_tos = false;
  require_share = false;
  auto_enroll = false;
  required_fields = [];
  dir_mask = [];
  legacy_masks = [];
  fail_settings = record { rate_window = 60; fail_limit = 3; lockout_seconds = 120 };
}

abbrev ana : Account
ana = (codes "name", text (codes "Ana")) ∷ (codes "password", text (codes "pw")) ∷ []

abbrev bob : Account
bob =
    (codes "name", text (codes "bob"))
    ∷ (codes "password", text (codes "pw"))
    ∷ (codes "banned", flag true)
    ∷ []

abbrev fresh : LoginState
fresh = record {
  limits = record {
    connection_rate_attempts = [];
    connection_rate_blocked_until = [];
    lobby_active_connections = 0;
    auth_failures = [];
    lobby_dir_challenges = [];
  };
  forced_rejects = [];
}

abbrev request_of : Text → Dict Text Text
request_of name = (codes "NAME", name) ∷ (codes "PASS", codes "pw") ∷ []

ana_enters :
    (authenticate_login plain verifying none 1000
      (bob ∷ ana ∷ [])
      (request_of (codes "ANA"))
      fresh).0.success
    ≡ true
unfolding authenticate_login login_checked login_among login_found login_account
    auth_pop_forced_reject popped some_missing auth_missing_required_fields auth_required_fields
    field_names split_commas replaced auth_kv_value upper_fields first_value auth_is_rate_limited
    recent_failures times_of auth_rate_key account_for auth_account_identities norms_of lists_of
    auth_list nonempty_texts as_text auth_norm auth_account_reject_reason first_reason
    auth_reason_alias auth_bool auth_account_key_reject_reason auth_password_matches
    auth_password_candidates noted noted_each values_each with_masks auth_mask_candidates
    auth_password_matches_candidate texts_at is_plain has_digest refusal entry get put contains add
    strip lower upper is_space starts_with before_colon text_beq word_bool
ana_enters = refl

abbrev entered : Outcome
entered =
    (authenticate_login plain verifying none 1000 (bob ∷ ana ∷ []) (request_of (codes "ANA"))
      fresh).0

authenticate_login_example :
    let kv = request_of (codes "ANA") in
    let identifier = auth_kv_value kv identifier_keys in
    let password = auth_kv_value kv password_keys in
    (truthy (auth_pop_forced_reject (auth_request_identities kv identifier) 1000 []).0 ≡ false)
    × ((auth_is_rate_limited verifying.fail_settings identifier 1000 fresh.limits).0 ≡ false)
    × ((account : Account) × (account_for (auth_norm identifier) (bob ∷ ana ∷ []) ≡ some account)
        × (truthy (auth_account_reject_reason account) ≡ false)
        × (truthy (auth_account_key_reject_reason account kv) ≡ false)
        × ((false || auth_password_matches plain verifying account kv password) ≡ true)
        × (entered.account ≡ some account))
authenticate_login_example =
    authenticate_login-safe plain verifying none 1000 (bob ∷ ana ∷ []) (request_of (codes "ANA"))
      fresh refl refl ana_enters
