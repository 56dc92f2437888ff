-- ===== src/Social.antt =====
-- The social state of server/ea_messenger.py: who is connected, and buddies, requests and blocks.
-- Each operation changes the state under one lock, `_social_lock`, and is one step. A handler is an object that is compared by its
-- identity, so a number; `send` of a handler and the file are not part of the state.
pub mod Relations
pub mod Related
pub mod Invariant
pub mod Watch
pub mod Handlers
pub mod Registry
pub mod Arrival
pub mod Departure
pub mod Kept
pub mod Reach
pub mod Promise
pub mod Roster
mod Tests
use nfs_most_wanted_online.Prelude.{
  ℕ, zero, suc, Bool, true, false, not, ◌&&◌, ◌||◌, Option, none, some, List, [], ◌∷◌, ◌++◌, map,
  if◌then◌else◌,
}
use nfs_most_wanted_online.Prelude.Eq.{◌==◌, nat_eq, text_eq}
use nfs_most_wanted_online.Prelude.Sets.{contains}
use nfs_most_wanted_online.Prelude.Dict.{Dict, get}
use nfs_most_wanted_online.Prelude.Text.{Text, codes, truthy, strip, lower}

-- A relation: whom each key relates to.
abbrev pub Relation : Type 0
Relation = Dict Text (List Text)

pub record Presence : Type 0 where
  pub user : Text
  pub addr : Text
  pub show : Text
  pub stat : Text
  pub prod : Text
  pub title : Text
  pub updated : ℕ

pub record Report : Type 0 where
  pub time : ℕ
  pub reporter : Text
  pub target : Text
  pub reason : Text

pub record Social : Type 0 where
  pub handlers : Dict Text (List ℕ)
  pub handler_user : Dict ℕ Text
  pub display : Dict Text Text
  pub presence : Dict Text Presence
  pub buddies : Relation
  pub pending : Relation
  pub blocks : Relation
  pub reports : List Report
  pub control_active_connections : ℕ

abbrev pub initial : Social
initial = record {
  handlers = [];
  handler_user = [];
  display = [];
  presence = [];
  buddies = [];
  pending = [];
  blocks = [];
  reports = [];
  control_active_connections = 0;
}

-- An active user, and an account as `account.get(key)` and `_auth_list(account.get(key))` give it.
pub record ActiveUser : Type 0 where
  pub name : Text
  pub pers : Text

pub record Account : Type 0 where
  pub value : Text → Text
  pub listed : Text → List Text

pub record Directory : Type 0 where
  pub active_users : List ActiveUser
  pub accounts : List Account

-- `text.split("/", 1)[0]`
unfoldable pub before_slash : Text → Text
before_slash [] = []
before_slash (c ∷ s) = let rest = before_slash s in if c == b'/' then [] else c ∷ rest

unfoldable pub starts_with_slash : Text → Bool
starts_with_slash [] = false
starts_with_slash (c ∷ s) = c == b'/'

unfoldable pub social_raw_text : Text → Text
unfolding starts_with_slash
social_raw_text value =
    let text = strip value in
    if contains b'/' text && not (starts_with_slash text) then strip (before_slash text) else text

-- The raw texts that are not empty.
unfoldable pub raw_texts : List Text → List Text
unfolding social_raw_text
raw_texts [] = []
raw_texts (candidate ∷ more) =
    let rest = raw_texts more in
    let text = social_raw_text candidate in if truthy text then text ∷ rest else rest

unfoldable pub first_text : List Text → Text → Text
first_text [] otherwise = otherwise
first_text (text ∷ more) otherwise = text

-- The first active user whom the name means; a user without a name has no aliases, and does not match.
unfoldable pub user_named : List ActiveUser → Text → Option Text
unfolding raw_texts
user_named [] norm = none
user_named (user ∷ users) norm =
    let rest = user_named users norm in
    let aliases = raw_texts (user.pers ∷ user.name ∷ []) in
    if contains norm (map lower aliases) then some (first_text aliases []) else rest

unfoldable pub listed_under : Account → List Text → List Text
listed_under account [] = []
listed_under account (key ∷ keys) = account.listed key ++ listed_under account keys

abbrev pub alias_keys : List Text
alias_keys =
    codes "personas"
    ∷ codes "persona"
    ∷ codes "pers"
    ∷ codes "aliases"
    ∷ codes "names"
    ∷ codes "emails"
    ∷ codes "usernames"
    ∷ codes "logins"
    ∷ []

abbrev pub preferred_keys : List Text
preferred_keys =
    codes "personas"
    ∷ codes "persona"
    ∷ codes "pers"
    ∷ codes "display_name"
    ∷ codes "name"
    ∷ codes "email"
    ∷ []

unfoldable pub account_aliases : Account → List Text
unfolding raw_texts listed_under
account_aliases account = raw_texts (
    account.value (codes "display_name")
    ∷ account.value (codes "name")
    ∷ account.value (codes "email")
    ∷ listed_under account alias_keys)

unfoldable pub account_named : List Account → Text → Text → Text
unfolding account_aliases
account_named [] norm text = text
account_named (account ∷ accounts) norm text =
    let rest = account_named accounts norm text in
    if contains norm (map lower (account_aliases account))
    then first_text (raw_texts (listed_under account preferred_keys)) text
    else rest

canonical_found : Option Text → Text → Text
canonical_found (some preferred) otherwise = preferred
canonical_found none otherwise = otherwise

unfoldable pub social_canonical_name : Directory → Text → Text
unfolding canonical_found user_named account_named
social_canonical_name dir value =
    let text = social_raw_text value in
    let norm = lower text in
    if truthy norm
    then canonical_found (user_named dir.active_users norm) (account_named dir.accounts norm text)
    else []

unfoldable pub social_key : Directory → Text → Text
unfolding social_canonical_name
social_key dir value = lower (social_canonical_name dir value)

unfoldable pub social_display_name : Directory → Text → Text
unfolding social_canonical_name
social_display_name dir value =
    let canonical = social_canonical_name dir value in
    if truthy canonical then canonical else social_raw_text value

unfoldable pub control_social_same_identity : Directory → Text → Text → Bool
unfolding social_key
control_social_same_identity dir lhs rhs =
    let left_key = social_key dir lhs in
    let right_key = social_key dir rhs in
    truthy left_key && truthy right_key && left_key == right_key
