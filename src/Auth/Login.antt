-- ===== src/Auth/Login.antt =====
-- `authenticate_login` of server/server.py. `Digests` are the functions of Python's hashlib that it uses
-- (`pbkdf2_verify` with the decoding of the stored text around it); what saving a new account gives is
-- an argument.
use nfs_most_wanted_online.Prelude.{
  ℕ, Bool, true, false, not, ◌&&◌, ◌||◌, Option, none, some, List, [], ◌∷◌, ◌++◌, map, any,
  if◌then◌else◌,
}
use nfs_most_wanted_online.Prelude.Eq.{◌==◌, nat_eq, text_eq}
use nfs_most_wanted_online.Prelude.Sets.{contains}
use nfs_most_wanted_online.Prelude.Dict.{Dict, get}
use nfs_most_wanted_online.Prelude.Text.{Text, codes, truthy, strip, lower}
use nfs_most_wanted_online.Policy.{replaced, split_commas}
use nfs_most_wanted_online.Auth.Token.{auth_make_pass_token, auth_decode_pass_token}
use nfs_most_wanted_online.Auth.Limits.{
  Limits, FailSettings, auth_is_rate_limited, auth_note_failure, auth_note_success,
}
use nfs_most_wanted_online.Auth.Rejects.{Reject, auth_norm, auth_pop_forced_reject}
use nfs_most_wanted_online.Auth.Accounts.{
  Value, Account, as_text, lists_of, auth_kv_value, word_bool, auth_account_reject_reason,
  auth_account_key_reject_reason, auth_account_identities, auth_missing_required_fields,
}

pub record Digests : Type 0 where
  pub pbkdf2_verify : Text → Text → Bool
  pub sha256 : Text → Text
  pub md5 : Text → Text

pub record LoginSettings : Type 0 where
  pub verify_enabled : Bool
  pub account_mode : Bool
  pub require_tos : Bool
  pub require_share : Bool
  pub auto_enroll : Bool
  pub required_fields : Text
  pub dir_mask : Text
  pub legacy_masks : Text
  pub fail_settings : FailSettings

pub record LoginState : Type 0 where
  pub limits : Limits
  pub forced_rejects : List Reject

pub record Outcome : Type 0 where
  pub success : Bool
  pub reason : Text
  pub account : Option Account
  pub identifier : Text

-- `if value and value not in values: values.append(value)`
unfoldable pub noted : Text → List Text → List Text
noted value values =
    if truthy value && not (contains value values) then values ++ value ∷ [] else values

unfoldable pub noted_each : List Text → List Text → List Text
unfolding noted
noted_each [] values = values
noted_each (value ∷ more) values = noted_each more (noted value values)

unfoldable pub values_each : Dict Text Text → List Text → List Text
values_each kv [] = []
values_each kv (key ∷ keys) = auth_kv_value kv (key ∷ []) ∷ values_each kv keys

abbrev pub mask_keys : List Text
mask_keys = codes "MASK" ∷ codes "PSES" ∷ codes "SESS" ∷ codes "CHAL" ∷ codes "CHALLENGE" ∷ []

unfoldable pub auth_mask_candidates : Dict Text Text → List Text
auth_mask_candidates kv = noted_each (values_each kv mask_keys) []

decoded_text : Option Text → Text
decoded_text none = []
decoded_text (some decoded) = decoded

-- The tokens of a decoded password under the legacy masks.
unfoldable pub legacy_tokens : Text → List Text → List Text → List Text
legacy_tokens decoded [] candidates = candidates
legacy_tokens decoded (mask ∷ masks) candidates =
    legacy_tokens decoded masks (noted (auth_make_pass_token decoded mask) candidates)

unfoldable pub with_masks : Text → List Text → List Text → List Text → List Text
unfolding decoded_text
with_masks supplied legacy_masks [] candidates = candidates
with_masks supplied legacy_masks (mask ∷ masks) candidates =
    let decoded = decoded_text (auth_decode_pass_token supplied mask) in
    let grown = noted decoded candidates in
    with_masks supplied legacy_masks masks
      (if truthy decoded then legacy_tokens decoded legacy_masks grown else grown)

unfoldable pub auth_password_candidates : LoginSettings → Dict Text Text → Text → List Text
auth_password_candidates settings kv supplied =
    let masks = noted (strip settings.dir_mask) (auth_mask_candidates kv) in
    let legacy_masks =
      noted_each (map strip (split_commas (replaced b';' b',' settings.legacy_masks))) [] in
    with_masks supplied legacy_masks masks (noted supplied [])

unfoldable pub texts_at : Account → List Text → List Text
texts_at account [] = []
texts_at account (key ∷ keys) = strip (as_text (get account key)) ∷ texts_at account keys

-- `str(expected) == supplied` of a value that is there.
unfoldable pub is_plain : Account → Text → List Text → Bool
is_plain account supplied [] = false
is_plain account supplied (key ∷ keys) =
    plain_value (get account key) supplied || is_plain account supplied keys
  where
    plain_value : Option Value → Text → Bool
    plain_value none supplied = false
    plain_value (some Value.null) supplied = false
    plain_value (some (Value.number b shown)) supplied = shown == supplied
    plain_value (some (Value.flag true)) supplied = supplied == codes "True"
    plain_value (some (Value.flag false)) supplied = supplied == codes "False"
    plain_value (some (Value.text t)) supplied = t == supplied
    plain_value (some (Value.listed shown ts)) supplied = shown == supplied

abbrev pub hash_keys : List Text
hash_keys =
    codes "password_pbkdf2"
    ∷ codes "pass_pbkdf2"
    ∷ codes "pass_wire_pbkdf2"
    ∷ codes "password_hash"
    ∷ codes "pass_hash"
    ∷ []

abbrev pub hash_lists : List Text
hash_lists = codes "password_hashes" ∷ codes "pass_hashes" ∷ codes "pass_wire_hashes" ∷ []

abbrev pub plain_keys : List Text
plain_keys =
    codes "password"
    ∷ codes "pass"
    ∷ codes "pass_wire"
    ∷ codes "password_wire"
    ∷ codes "wire_password"
    ∷ codes "password_raw"
    ∷ codes "pass_raw"
    ∷ []

abbrev pub plain_lists : List Text
plain_lists = codes "passwords" ∷ codes "passes" ∷ codes "pass_wires" ∷ codes "password_wires" ∷ []

abbrev pub sha256_keys : List Text
sha256_keys = codes "password_sha256" ∷ codes "pass_sha256" ∷ codes "pass_wire_sha256" ∷ []

abbrev pub md5_keys : List Text
md5_keys = codes "password_md5" ∷ codes "pass_md5" ∷ codes "pass_wire_md5" ∷ []

-- One of the stored digests, in lower case, is the digest.
unfoldable pub has_digest : Account → List Text → Text → Bool
has_digest account keys digest =
    any (λ expected. truthy expected && expected == digest) (map lower (texts_at account keys))

unfoldable pub auth_password_matches_candidate : Digests → Account → Text → Bool
unfolding has_digest texts_at is_plain
auth_password_matches_candidate digests account supplied =
    any (λ encoded. truthy encoded && digests.pbkdf2_verify supplied encoded)
      (texts_at account hash_keys)
    || (any (λ encoded. digests.pbkdf2_verify supplied encoded) (lists_of account hash_lists)
        || (is_plain account supplied plain_keys
            || (contains supplied (lists_of account plain_lists)
                || (has_digest account sha256_keys (digests.sha256 supplied)
                    || has_digest account md5_keys (digests.md5 supplied)))))

unfoldable pub auth_password_matches :
    Digests → LoginSettings → Account → Dict Text Text → Text → Bool
auth_password_matches digests settings account kv supplied =
    any (auth_password_matches_candidate digests account)
      (auth_password_candidates settings kv supplied)

-- The first account that the identifier names.
unfoldable pub account_for : Text → List Account → Option Account
account_for ident_norm [] = none
account_for ident_norm (account ∷ accounts) =
    let rest = account_for ident_norm accounts in
    if contains ident_norm (auth_account_identities account) then some account else rest

unfoldable pub refusal : Text → Text → Outcome
refusal reason identifier = record {
  success = false;
  reason = reason;
  account = none;
  identifier = identifier;
}

unfoldable pub entry : Text → Option Account → Text → Outcome
entry reason account identifier = record {
  success = true;
  reason = reason;
  account = account;
  identifier = identifier;
}

abbrev pub identifier_keys : List Text
identifier_keys =
    codes "EMAIL"
    ∷ codes "MAIL"
    ∷ codes "PMAIL"
    ∷ codes "U2_OLX_MAIL"
    ∷ codes "USER"
    ∷ codes "USERNAME"
    ∷ codes "LOGIN"
    ∷ codes "NAME"
    ∷ []

abbrev pub password_keys : List Text
password_keys = codes "PASSWORD" ∷ codes "PASS" ∷ codes "PWORD" ∷ codes "PWD" ∷ []

-- `_auth_request_identities`
unfoldable pub auth_request_identities : Dict Text Text → Text → List Text
auth_request_identities kv identifier =
    noted_each
      (map auth_norm (
        identifier
        ∷ auth_kv_value kv (codes "EMAIL" ∷ codes "MAIL" ∷ codes "PMAIL" ∷ codes "U2_OLX_MAIL" ∷ [])
        ∷ auth_kv_value kv (codes "USER" ∷ codes "USERNAME" ∷ codes "LOGIN" ∷ [])
        ∷ auth_kv_value kv (codes "NAME" ∷ [])
        ∷ auth_kv_value kv (codes "PERS" ∷ codes "PERSO" ∷ codes "PERSONA" ∷ [])
        ∷ []))
      []

unfoldable pub some_missing : List Text → Bool
some_missing [] = false
some_missing (field ∷ fields) = true

module _ (digests : Digests) (settings : LoginSettings) (enrolled : Option Account) (now : ℕ) where
  abbrev noted_failure : Text → LoginState → LoginState
  noted_failure identifier s = record s {
    limits = auth_note_failure settings.fail_settings identifier now s.limits;
  }

  abbrev noted_success : Text → LoginState → LoginState
  noted_success identifier s = record s { limits = auth_note_success identifier s.limits }

  -- The account is there.
  unfoldable pub login_account :
      Account → Dict Text Text → Text → Text → LoginState → Outcome × LoginState
  login_account account kv identifier password s =
      let reject_reason = auth_account_reject_reason account in
      let key_reason = auth_account_key_reject_reason account kv in
      if truthy reject_reason
      then (refusal reject_reason identifier, noted_failure identifier s)
      else if truthy key_reason
      then (refusal key_reason identifier, noted_failure identifier s)
      else if settings.account_mode || auth_password_matches digests settings account kv password
      then (entry (codes "ok") (some account) identifier, noted_success identifier s)
      else (refusal (codes "bad_password") identifier, noted_failure identifier s)

  unfoldable pub login_unknown : Text → Option Account → LoginState → Outcome × LoginState
  login_unknown identifier (some account) s =
      if settings.auto_enroll
      then (entry (codes "enrolled") (some account) identifier, noted_success identifier s)
      else (refusal (codes "unknown_account") identifier, noted_failure identifier s)
  login_unknown identifier none s =
      (refusal (codes "unknown_account") identifier, noted_failure identifier s)

  unfoldable pub login_found :
      Option Account → Dict Text Text → Text → Text → LoginState → Outcome × LoginState
  unfolding login_unknown
  login_found (some account) kv identifier password s =
      login_account account kv identifier password s
  login_found none kv identifier password s = login_unknown identifier enrolled s

  -- Without any account, an enrolled one enters, and nothing is noted.
  unfoldable pub login_first : Option Account → Text → LoginState → Outcome × LoginState
  login_first (some account) identifier s =
      if settings.auto_enroll
      then (entry (codes "enrolled") (some account) identifier, s)
      else (refusal (codes "no_accounts") identifier, s)
  login_first none identifier s = (refusal (codes "no_accounts") identifier, s)

  unfoldable pub login_among :
      List Account → Dict Text Text → Text → Text → LoginState → Outcome × LoginState
  unfolding login_first
  login_among [] kv identifier password s = login_first enrolled identifier s
  login_among (account ∷ accounts) kv identifier password s =
      login_found (account_for (auth_norm identifier) (account ∷ accounts)) kv identifier password s

  -- The checks behind the forced rejects.
  unfoldable pub login_checked :
      List Account → Dict Text Text → Text → Text → LoginState → Outcome × LoginState
  login_checked accounts kv identifier password s =
      let limited = auth_is_rate_limited settings.fail_settings identifier now s.limits in
      let seen = record s { limits = limited.1 } in
      if not settings.verify_enabled
      then (entry (codes "disabled") none identifier, s)
      else if some_missing (auth_missing_required_fields settings.required_fields kv)
      then (refusal (codes "missing_fields") identifier, s)
      else if settings.require_tos
          && not (
              word_bool
                (lower
                  (auth_kv_value kv (codes "TOS" ∷ codes "TERMS" ∷ codes "TERMS_ACCEPTED" ∷ [])))
                false)
      then (refusal (codes "tos_not_accepted") identifier, s)
      else if settings.require_share
          && not (
              word_bool (lower (auth_kv_value kv (codes "SHARE" ∷ codes "SHARE_ACCEPTED" ∷ [])))
                false)
      then (refusal (codes "share_not_accepted") identifier, s)
      else if not (truthy identifier)
      then (refusal (codes "missing_identifier") [], s)
      else if limited.0
      then (refusal (codes "rate_limited") identifier, seen)
      else if not settings.account_mode && not (truthy password)
      then (refusal (codes "missing_password") identifier, seen)
      else login_among accounts kv identifier password seen

  unfoldable pub authenticate_login :
      List Account → Dict Text Text → LoginState → Outcome × LoginState
  authenticate_login accounts kv s =
      let identifier = auth_kv_value kv identifier_keys in
      let password = auth_kv_value kv password_keys in
      let forced =
        auth_pop_forced_reject (auth_request_identities kv identifier) now s.forced_rejects in
      let popped = record s { forced_rejects = forced.1 } in
      if truthy forced.0
      then (refusal forced.0 identifier, popped)
      else login_checked accounts kv identifier password popped
