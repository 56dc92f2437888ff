-- ===== src/Auth/Accounts.antt =====
-- What server/server.py looks up in an account and in the fields of a request.
use Prim.Native.String.{String}
use nfs_most_wanted_online.Prelude.{
  ℕ, Bool, true, false, not, ◌&&◌, ◌||◌, Option, none, some, List, [], ◌∷◌, ◌++◌, map, keep, length,
  drop, if◌then◌else◌,
}
use nfs_most_wanted_online.Prelude.Eq.{◌==◌, nat_eq, text_eq}
use nfs_most_wanted_online.Prelude.Sets.{contains, add}
use nfs_most_wanted_online.Prelude.Dict.{Dict, get, put}
use nfs_most_wanted_online.Prelude.Text.{Text, codes, truthy, strip, lower, upper}
use nfs_most_wanted_online.Prelude.ParseInt.{read_digits}
use nfs_most_wanted_online.Policy.{replaced, split_commas, starts_with}
use nfs_most_wanted_online.Auth.Rejects.{auth_norm}

-- A value of the accounts file: null, a flag, a number as whether it is other than 0 and what `str`
-- makes of it, a text, or a list of texts with what `str` makes of the list.
pub data Value : Type 0 where
  null : Value
  flag : Bool → Value
  number : Bool → Text → Value
  text : Text → Value
  listed : Text → List Text → Value

abbrev pub Account : Type 0
Account = Dict Text Value

-- `str(value or "")`
unfoldable pub as_text : Option Value → Text
as_text none = []
as_text (some null) = []
as_text (some (number true shown)) = shown
as_text (some (number false shown)) = []
as_text (some (flag true)) = codes "True"
as_text (some (flag false)) = []
as_text (some (text t)) = t
as_text (some (listed shown [])) = []
as_text (some (listed shown (t ∷ ts))) = shown

unfoldable pub nonempty_texts : List Text → List Text
nonempty_texts ts = keep truthy (map strip ts)

unfoldable pub auth_list : Option Value → List Text
unfolding nonempty_texts as_text
auth_list none = []
auth_list (some null) = []
auth_list (some (number b shown)) = nonempty_texts (as_text (some (number b shown)) ∷ [])
auth_list (some (listed shown ts)) = nonempty_texts ts
auth_list (some (flag b)) = nonempty_texts (as_text (some (flag b)) ∷ [])
auth_list (some (text t)) = nonempty_texts (t ∷ [])

unfoldable pub lists_of : Account → List Text → List Text
unfolding auth_list
lists_of account [] = []
lists_of account (key ∷ keys) = auth_list (get account key) ++ lists_of account keys

-- The fields with their names in upper case; of two that agree the later one counts.
unfoldable pub upper_fields : Dict Text Text → Dict Text Text → Dict Text Text
upper_fields [] done = done
upper_fields ((k, v) ∷ kv) done = upper_fields kv (put done (upper (strip k)) (strip v))

value_or_next : Option Text → Text → Text
value_or_next none next = next
value_or_next (some value) next = if truthy value then value else next

unfoldable pub first_value : Dict Text Text → List Text → Text
unfolding value_or_next
first_value fields [] = []
first_value fields (key ∷ keys) =
    let next = first_value fields keys in value_or_next (get fields (upper (strip key))) next

unfoldable pub auth_kv_value : Dict Text Text → List Text → Text
unfolding upper_fields first_value
auth_kv_value kv keys = first_value (upper_fields kv []) keys

abbrev pub yes_words : List Text
yes_words =
    codes "1"
    ∷ codes "true"
    ∷ codes "yes"
    ∷ codes "on"
    ∷ codes "y"
    ∷ codes "accepted"
    ∷ codes "accept"
    ∷ codes "ok"
    ∷ codes "enabled"
    ∷ codes "active"
    ∷ []

abbrev pub no_words : List Text
no_words =
    codes "0"
    ∷ codes "false"
    ∷ codes "no"
    ∷ codes "off"
    ∷ codes "n"
    ∷ codes "rejected"
    ∷ codes "deny"
    ∷ codes "denied"
    ∷ codes "disabled"
    ∷ codes "locked"
    ∷ codes "banned"
    ∷ codes ""
    ∷ []

nonzero_or : Bool → Option ℕ → Bool
nonzero_or default none = default
nonzero_or default (some n) = not (n == 0)

without_sign : Text → Text
without_sign [] = []
without_sign (c ∷ s) = if c == b'-' || c == b'+' then s else c ∷ s

unfoldable pub word_bool : Text → Bool → Bool
unfolding nonzero_or without_sign
word_bool word default =
    if contains word yes_words
    then true
    else if contains word no_words
    then false
    else nonzero_or default (read_digits 10 0 true (without_sign word))

unfoldable pub auth_bool : Option Value → Bool → Bool
unfolding word_bool
auth_bool none default = default
auth_bool (some null) default = default
auth_bool (some (number b shown)) default = word_bool (lower (strip shown)) default
auth_bool (some (flag b)) default = b
auth_bool (some (text t)) default = word_bool (lower (strip t)) default
auth_bool (some (listed shown ts)) default = word_bool (lower (strip shown)) default

abbrev pub reason_aliases : Dict Text Text
reason_aliases =
    (codes "imst", codes "invalid_auth")
    ∷ (codes "invalid", codes "invalid_auth")
    ∷ (codes "invalid_auth", codes "invalid_auth")
    ∷ (codes "unknown_account", codes "invalid_auth")
    ∷ (codes "logn", codes "account_in_use")
    ∷ (codes "already_logged_in", codes "account_in_use")
    ∷ (codes "already_online", codes "account_in_use")
    ∷ (codes "account_in_use", codes "account_in_use")
    ∷ (codes "lock", codes "account_locked")
    ∷ (codes "locked", codes "account_locked")
    ∷ (codes "account_locked", codes "account_locked")
    ∷ (codes "disabled", codes "account_disabled")
    ∷ (codes "account_disabled", codes "account_disabled")
    ∷ (codes "banned", codes "admin_ban")
    ∷ (codes "admin_ban", codes "admin_ban")
    ∷ (codes "pass", codes "bad_password")
    ∷ (codes "bad_password", codes "bad_password")
    ∷ (codes "password_error", codes "bad_password")
    ∷ (codes "ikey", codes "invalid_key")
    ∷ (codes "invalid_key", codes "invalid_key")
    ∷ (codes "bad_key", codes "invalid_key")
    ∷ (codes "invalid_cdkey", codes "invalid_key")
    ∷ (codes "invalid_cd_key", codes "invalid_key")
    ∷ (codes "tosa", codes "tos_not_accepted")
    ∷ (codes "tos", codes "tos_not_accepted")
    ∷ (codes "tos_not_accepted", codes "tos_not_accepted")
    ∷ (codes "terms_not_accepted", codes "tos_not_accepted")
    ∷ (codes "dber", codes "database_error")
    ∷ (codes "database_error", codes "database_error")
    ∷ (codes "backend_error", codes "database_error")
    ∷ (codes "blak", codes "blacklisted")
    ∷ (codes "blacklist", codes "blacklisted")
    ∷ (codes "blacklisted", codes "blacklisted")
    ∷ (codes "blocked", codes "blacklisted")
    ∷ (codes "shar", codes "share_not_accepted")
    ∷ (codes "share", codes "share_not_accepted")
    ∷ (codes "share_required", codes "share_not_accepted")
    ∷ (codes "share_not_accepted", codes "share_not_accepted")
    ∷ (codes "miss", codes "missing_fields")
    ∷ (codes "missing_fields", codes "missing_fields")
    ∷ (codes "missing_required_fields", codes "missing_fields")
    ∷ (codes "filt", codes "filtered")
    ∷ (codes "filter", codes "filtered")
    ∷ (codes "filtered", codes "filtered")
    ∷ (codes "filter_failed", codes "filtered")
    ∷ (codes "profane", codes "filtered")
    ∷ (codes "time", codes "auth_timeout")
    ∷ (codes "timeout", codes "auth_timeout")
    ∷ (codes "auth_timeout", codes "auth_timeout")
    ∷ (codes "backend_timeout", codes "auth_timeout")
    ∷ (codes "over", codes "invalid_state")
    ∷ (codes "invalid_state", codes "invalid_state")
    ∷ (codes "backend_over", codes "invalid_state")
    ∷ []

unfoldable pub before_colon : Text → Text
before_colon [] = []
before_colon (c ∷ s) = let rest = before_colon s in if c == b':' then [] else c ∷ rest

alias_found : Option Text → Text
alias_found none = []
alias_found (some reason) = reason

unfoldable pub auth_reason_alias : Text → Text
unfolding before_colon alias_found
auth_reason_alias value =
    let word = lower (strip value) in
    let name = if starts_with (codes "auth") word && length word == 8 then drop 4 word else word in
    alias_found (get reason_aliases (before_colon (replaced b' ' b'_' (replaced b'-' b'_' name))))

unfoldable pub first_reason : Account → List Text → Text
unfolding auth_reason_alias as_text
first_reason account [] = []
first_reason account (key ∷ keys) =
    let rest = first_reason account keys in
    let reason = auth_reason_alias (as_text (get account key)) in
    if truthy reason then reason else rest

abbrev pub status_keys : List Text
status_keys =
    codes "auth_reason"
    ∷ codes "auth_status"
    ∷ codes "auth_code"
    ∷ codes "login_reason"
    ∷ codes "login_status"
    ∷ codes "status"
    ∷ []

-- The account has the key, and its value is not accepted.
declined : Option Value → Bool
declined none = false
declined (some v) = not (auth_bool (some v) false)

abbrev is_set : Account → String → Bool
is_set account key = auth_bool (get account (codes key)) false

unfoldable pub auth_account_reject_reason : Account → Text
unfolding first_reason declined
auth_account_reject_reason account =
    let reason = first_reason account status_keys in
    if truthy reason
    then reason
    else if is_set account "locked" || is_set account "account_locked"
    then codes "account_locked"
    else if is_set account "disabled" || not (auth_bool (get account (codes "enabled")) true)
    then codes "account_disabled"
    else if is_set account "banned"
    then codes "admin_ban"
    else if is_set account "blacklisted" || is_set account "blocked"
    then codes "blacklisted"
    else if declined (get account (codes "tos_accepted"))
    then codes "tos_not_accepted"
    else if declined (get account (codes "share_accepted"))
    then codes "share_not_accepted"
    else []

abbrev pub key_names : List Text
key_names =
    codes "cdkey"
    ∷ codes "cd_key"
    ∷ codes "key"
    ∷ codes "lkey"
    ∷ codes "product_key"
    ∷ codes "serial"
    ∷ codes "cdkeys"
    ∷ codes "cd_keys"
    ∷ codes "keys"
    ∷ codes "lkeys"
    ∷ codes "product_keys"
    ∷ codes "serials"
    ∷ []

abbrev pub key_fields : List Text
key_fields =
    codes "CDKEY"
    ∷ codes "CD_KEY"
    ∷ codes "KEY"
    ∷ codes "LKEY"
    ∷ codes "PRODUCT_KEY"
    ∷ codes "SERIAL"
    ∷ codes "REGKEY"
    ∷ []

none_expected : List Text → Bool
none_expected [] = true
none_expected (t ∷ ts) = false

unfoldable pub auth_account_key_reject_reason : Account → Dict Text Text → Text
unfolding lists_of none_expected
auth_account_key_reject_reason account kv =
    let expected = lists_of account key_names in
    let supplied = auth_kv_value kv key_fields in
    if none_expected expected
    then []
    else if not (truthy supplied)
    then codes "invalid_key"
    else if contains (auth_norm supplied) (map auth_norm expected)
    then []
    else codes "invalid_key"

unfoldable pub norms_of : Account → List Text → List Text
norms_of account [] = []
norms_of account (key ∷ keys) = auth_norm (as_text (get account key)) ∷ norms_of account keys

abbrev pub identity_keys : List Text
identity_keys =
    codes "__key"
    ∷ codes "email"
    ∷ codes "mail"
    ∷ codes "name"
    ∷ codes "username"
    ∷ codes "user"
    ∷ codes "login"
    ∷ codes "id"
    ∷ []

abbrev pub identity_lists : List Text
identity_lists =
    codes "aliases" ∷ codes "emails" ∷ codes "names" ∷ codes "usernames" ∷ codes "logins" ∷ []

unfoldable pub auth_account_identities : Account → List Text
unfolding norms_of lists_of
auth_account_identities account =
    keep truthy (norms_of account identity_keys ++ map auth_norm (lists_of account identity_lists))

-- `_auth_required_fields` of the setting, without repetitions.
unfoldable pub field_names : List Text → List Text → List Text
field_names [] done = done
field_names (item ∷ items) done =
    let field = upper (strip item) in
    field_names items (if truthy field then add field done else done)

unfoldable pub auth_required_fields : Text → List Text
unfolding field_names
auth_required_fields setting =
    field_names (split_commas (replaced b' ' b',' (replaced b';' b',' (strip setting)))) []

unfoldable pub auth_missing_required_fields : Text → Dict Text Text → List Text
unfolding auth_required_fields
auth_missing_required_fields setting kv =
    keep (λ field. not (truthy (auth_kv_value kv (field ∷ [])))) (auth_required_fields setting)
