-- ===== src/Social/Tests.antt =====
-- Runs of the social operations on a few names.
use nfs_most_wanted_online.Prelude.{
  ◌≡◌, refl, true, false, not, List, some, is_some, ◌&&◌, ◌||◌, none, [], ◌∷◌, length, ◌≤◌,
  if◌then◌else◌,
}
use nfs_most_wanted_online.Prelude.Eq.{◌==◌, text_eq, nat_eq, text_beq}
use nfs_most_wanted_online.Prelude.Sets.{contains, add, discard, Distinct}
use nfs_most_wanted_online.Prelude.Dict.{get, put, keys}
use nfs_most_wanted_online.Prelude.Text.{Text, codes, truthy, strip, lower}
use nfs_most_wanted_online.Social.{
  Social, Directory, initial, social_key, social_raw_text, social_canonical_name, user_named,
  raw_texts, starts_with_slash, before_slash, account_named, canonical_found, first_text,
}
use nfs_most_wanted_online.Social.Relations.{
  related, targets_of, found_or, relate, unrelate, discarded, blocked_keys, add_keys, block, accept,
  request, control_social_add_relation,
}
use nfs_most_wanted_online.Social.Handlers.{control_social_register, handlers_of}
use nfs_most_wanted_online.Social.Watch.{
  social_presence_row, social_visible_row, block_cuts, request_then_accept,
}
use nfs_most_wanted_online.Social.Registry.{IsRegistered}
use nfs_most_wanted_online.Social.Promise.{
  Call, perform_all, promised, promised_all, speaks_for, perform_all-promised_all,
}
use nfs_most_wanted_online.Social.Roster.{all_tags, snapshot_keys, snapshot_keys_lem}
use nfs_most_wanted_online.Social.Invariant.{IsSocial}
use nfs_most_wanted_online.Social.Reach.{starts, registers, adds, social_reach}

abbrev nobody : Directory
nobody = record { active_users = []; accounts = [] }

abbrev ana : Text
ana = codes "ana"

abbrev bob : Text
bob = codes "bob"

-- A key follows the persona of the active user that the name means.
key_of_user :
    social_key
      (record {
        active_users = record { name = codes "anna@x"; pers = codes "Ana" } ∷ [];
        accounts = [];
      })
      (codes " ANNA@x/pc")
    ≡ ana
unfolding social_key social_canonical_name user_named raw_texts social_raw_text starts_with_slash
    before_slash account_named canonical_found first_text contains text_beq lower strip
key_of_user = refl

abbrev met : Social
met = (control_social_register true true nobody 1 (codes "Ana") (codes "10.0.0.1") 5 initial).2

abbrev asked : Social
asked = (control_social_add_relation nobody ana bob [] met).1

social_reach_example : IsRegistered asked × IsSocial asked × (length asked.reports ≤ 128)
social_reach_example = social_reach asked (
    adds nobody ana bob [] (registers true true nobody 1 (codes "Ana") (codes "10.0.0.1") 5 starts))

block_cuts_example :
    let after = (add_keys true ana bob initial).1 in
    (blocked_keys ana bob after ≡ true)
    × (blocked_keys bob ana after ≡ true)
    × (social_presence_row ana bob after ≡ none)
    × (social_presence_row bob ana after ≡ none)
    × (social_visible_row true ana bob after ≡ none)
    × (social_visible_row true bob ana after ≡ none)
    × (related after.buddies ana bob ≡ false)
    × (related after.buddies bob ana ≡ false)
    × (related after.pending ana bob ≡ false)
    × (related after.pending bob ana ≡ false)
block_cuts_example = block_cuts true ana bob initial

strangers : related initial.buddies ana bob ≡ false
unfolding targets_of found_or get contains
strangers = refl

request_then_accept_example :
    let asking = add_keys false ana bob initial in
    let answered = add_keys false bob ana asking.1 in
    (asking.0 ≡ codes "R")
    × (answered.0 ≡ codes "")
    × (related answered.1.buddies ana bob ≡ true)
    × (related answered.1.buddies bob ana ≡ true)
    × (related answered.1.pending ana bob ≡ false)
    × (related answered.1.pending bob ana ≡ false)
unfolding text_beq targets_of found_or get contains
request_then_accept_example = request_then_accept ana bob initial refl refl refl

-- A block does not keep the two from becoming buddies afterwards: both still count as blocked.
abbrev blocked_friends : Social
blocked_friends =
    (add_keys false ana bob (add_keys false bob ana (add_keys true ana bob initial).1).1).1

blocked_then_friends :
    (related blocked_friends.buddies ana bob && blocked_keys ana bob blocked_friends) ≡ true
unfolding add_keys block accept request relate unrelate discarded targets_of found_or blocked_keys
    get put add discard contains text_beq
blocked_then_friends = refl

-- A handler that registers for a second persona speaks for that one only.
abbrev two_names : List Call
two_names =
    Call.registers true true nobody 1 (codes "Bob") (codes "10.0.0.1") 6
    ∷ Call.registers true true nobody 1 (codes "Ana") (codes "10.0.0.1") 5
    ∷ []

promise_example :
    (get (perform_all two_names).handler_user 1 ≡ promised_all two_names 1)
    × (contains 1 (handlers_of (perform_all two_names) bob)
        ≡ speaks_for bob (promised_all two_names 1))
promise_example = perform_all-promised_all two_names 1 bob

moved_on : promised_all two_names 1 ≡ some bob
unfolding promised social_key social_canonical_name social_raw_text user_named account_named
    canonical_found text_beq contains lower strip first_text
moved_on = refl

-- Bob asked Ana.
abbrev wooed : Social
wooed = (add_keys false bob ana initial).1

wooed-Distinct : Distinct (keys wooed.pending)
unfolding add_keys request relate targets_of found_or get put contains text_beq
wooed-Distinct = (refl, tt)

roster_example : contains bob (snapshot_keys ana (codes "B") wooed) ≡ (
    if codes "B" == codes "I"
    then related wooed.blocks ana bob && (truthy bob && not (bob == ana))
    else if contains (codes "B") all_tags
    then (related wooed.buddies ana bob || is_some (get wooed.handlers bob))
      && ((truthy bob && not (bob == ana)) && not (related wooed.blocks ana bob))
    else (related wooed.buddies ana bob || related wooed.pending bob ana)
      && ((truthy bob && not (bob == ana)) && not (related wooed.blocks ana bob)))
roster_example = snapshot_keys_lem ana (codes "B") bob wooed wooed-Distinct
