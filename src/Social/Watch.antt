-- ===== src/Social/Watch.antt =====
-- Who sees whose presence.
use nfs_most_wanted_online.Prelude.{
  ◌≡◌, refl, Bool, true, false, not, ◌&&◌, ◌||◌, Option, none, some, List, [], ◌∷◌, ◌++◌, arith, ℕ,
  if◌then◌else◌, is_some,
}
use nfs_most_wanted_online.Prelude.Eq.{◌==◌, text_eq, text_beq_iff, nat_eq}
use nfs_most_wanted_online.Prelude.Dict.{Dict, get}
use nfs_most_wanted_online.Prelude.Text.{Text, codes, truthy, or_text}
use nfs_most_wanted_online.Social.{Relation, Presence, Social, Directory, social_key}
use nfs_most_wanted_online.Social.Relations.{
  related, blocked_keys, block, accept, request, add_keys, remove_keys, relate, withdraw, refused,
  control_social_remove_relation, tag_of,
}
use nfs_most_wanted_online.Social.Related.{relation_laws, related-relate}

pub record Row : Type 0 where
  pub user : Text
  pub attr : Text
  pub online : Bool
  pub presence : Option Presence
  pub friend : Bool

unfoldable pub presence_user : Option Presence → Text → Text
presence_user none key = key
presence_user (some presence) key = presence.user

unfoldable pub display_or : Option Text → Text → Text
display_or none name = name
display_or (some display) name = display

unfoldable pub row_of : Text → Text → Social → Row
unfolding presence_user display_or
row_of owner_key user_key s =
    let is_buddy = related s.buddies owner_key user_key in
    let presence = get s.presence user_key in
    record {
      user = display_or (get s.display user_key) (presence_user presence user_key);
      attr = if is_buddy then codes "" else codes "D";
      online = is_some (get s.handlers user_key);
      presence = presence;
      friend = is_buddy;
    }

-- `_social_presence_row_locked`, and `_social_visible_row_locked` with the flag
-- CONTROL_SOCIAL_ALL_ONLINE_ENABLE.
unfoldable pub social_presence_row : Text → Text → Social → Option Row
social_presence_row owner_key user_key s =
    if refused owner_key user_key
    then none
    else if blocked_keys owner_key user_key s
    then none
    else some (row_of owner_key user_key s)

unfoldable pub social_visible_row : Bool → Text → Text → Social → Option Row
social_visible_row all_online owner_key user_key s =
    if refused owner_key user_key
    then none
    else if blocked_keys owner_key user_key s
    then none
    else if not (related s.buddies owner_key user_key) && not all_online
    then none
    else some (row_of owner_key user_key s)

unfoldable pub control_social_presence_row : Directory → Text → Text → Social → Option Row
control_social_presence_row dir owner target s =
    let owner_key = social_key dir owner in
    let target_key = social_key dir target in
    if not (truthy owner_key) || not (truthy target_key)
    then none
    else social_presence_row owner_key target_key s

-- The handlers of one owner, each with the row.
unfoldable pub for_handlers : List ℕ → Row → List (ℕ × Row)
for_handlers [] row = []
for_handlers (handler ∷ handlers) row = (handler, row) ∷ for_handlers handlers row

targets_for : List ℕ → Option Row → List (ℕ × Row)
unfolding for_handlers
targets_for handlers none = []
targets_for handlers (some row) = for_handlers handlers row

unfoldable pub notify_each : Bool → Text → Social → Dict Text (List ℕ) → List (ℕ × Row)
unfolding targets_for
notify_each all_online user_key s [] = []
notify_each all_online user_key s ((owner_key, handlers) ∷ more) =
    targets_for handlers (social_visible_row all_online owner_key user_key s)
    ++ notify_each all_online user_key s more

unfoldable pub social_notify_targets : Bool → Text → Social → List (ℕ × Row)
social_notify_targets all_online user_key s = notify_each all_online user_key s s.handlers

-- `presence.get(name) or default`
field_or : Option Presence → (Presence → Text) → Text → Text
field_or none field otherwise = otherwise
field_or (some presence) field otherwise = or_text (field presence) otherwise

unfoldable pub attr_lines : Row → List Text
attr_lines row =
    if truthy row.attr
    then (codes "ATTR=" ++ row.attr) ∷ []
    else if row.friend
    then []
    else codes "ATTR=D" ∷ []

unfoldable pub social_presence_lines : Row → List Text
unfolding field_or attr_lines
social_presence_lines row =
    codes "EXTR=NFS-CONSOLE-2005"
    ∷ (codes "STAT=" ++ field_or row.presence (λ p. p.stat) (codes "EX%3d0%0aP%3dnfs5%0a"))
    ∷ (codes "PROD=" ++ field_or row.presence (λ p. p.prod) (codes "is playing Underground 2"))
    ∷ (codes "TITL="
        ++ field_or row.presence (λ p. p.title) (codes "Need for Speed Underground 2 [PC]"))
    ∷ (codes "SHOW="
        ++ (if not row.online
            then codes "AWAY"
            else field_or row.presence (λ p. p.show) (codes "PASS")))
    ∷ (codes "USER=" ++ row.user)
    ∷ attr_lines row

-- The messages that one handler is sent; `suppressed` is `_social_same_game_presence_suppressed`.
unfoldable pub notification : Bool → Bool → Row → List (Text × List Text)
unfolding attr_lines
notification online suppressed row =
    if online && suppressed
    then []
    else if not online && row.friend
    then (codes "RNOT", codes "CHNG=D" ∷ (codes "USER=" ++ row.user) ∷ [])
      ∷ (codes "PGET", social_presence_lines (record row { online = false }))
      ∷ []
    else let roster =
        if online
        then (codes "ROST", codes "ID=-1" ∷ (codes "USER=" ++ row.user) ∷ attr_lines row) ∷ []
        else [] in
      (
        codes "RNOT",
        (if online then codes "CHNG=A" else codes "CHNG=D")
            ∷ (codes "USER=" ++ row.user)
            ∷ attr_lines row,
      )
      ∷ (roster ++ (codes "PGET", social_presence_lines (record row { online = online })) ∷ [])

-- Blocking takes effect at once and both ways: in the state right after it the two count as blocked,
-- neither sees the other's presence, and they are no buddies and wait for no answer of each other.
pub block_cuts :
    (all_online : Bool) (owner target : Text) (s : Social)
    → let after = (add_keys true owner target s).1 in
      (blocked_keys owner target after ≡ true)
      × (blocked_keys target owner after ≡ true)
      × (social_presence_row owner target after ≡ none)
      × (social_presence_row target owner after ≡ none)
      × (social_visible_row all_online owner target after ≡ none)
      × (social_visible_row all_online target owner after ≡ none)
      × (related after.buddies owner target ≡ false)
      × (related after.buddies target owner ≡ false)
      × (related after.pending owner target ≡ false)
      × (related after.pending target owner ≡ false)
unfolding add_keys block social_presence_row social_visible_row blocked_keys
block_cuts all_online owner target s =
    simp relation_laws (ground (arith, text_beq_iff owner owner, text_beq_iff target target))

waiting : (rel : Relation) (a b : Text) → related (relate rel a b) a b ≡ true
waiting rel a b = ground (arith, related-relate rel a b a b, text_beq_iff a a, text_beq_iff b b)

-- A request that is answered by the opposite request makes the two buddies of each other and leaves
-- no request between them, whatever stood between other keys.
pub request_then_accept :
    (owner target : Text) (s : Social)
    → (owner == target) ≡ false
    → related s.pending target owner ≡ false
    → related s.buddies owner target ≡ false
    → let asked = add_keys false owner target s in
      let answered = add_keys false target owner asked.1 in
      (asked.0 ≡ codes "R")
      × (answered.0 ≡ codes "")
      × (related answered.1.buddies owner target ≡ true)
      × (related answered.1.buddies target owner ≡ true)
      × (related answered.1.pending owner target ≡ false)
      × (related answered.1.pending target owner ≡ false)
unfolding add_keys accept request
request_then_accept owner target s apart none_back strangers =
    rw (none_back, strangers, waiting s.pending owner target)
      (simp relation_laws (ground (arith, text_beq_iff owner owner, text_beq_iff target target)))

withdraw_unrelated :
    (rel : Relation) (a b : Text) → related rel a b ≡ false → withdraw rel a b ≡ rel
unfolding withdraw
withdraw_unrelated rel a b h = rw h refl

-- What is removed is gone, and nothing was removed exactly when the state is as it was.
remove_keys_unchanged :
    (to_block : Bool) (owner target : Text) (s : Social)
    → (remove_keys to_block owner target s).0 ≡ false
    → (remove_keys to_block owner target s).1 ≡ s
unfolding remove_keys
remove_keys_unchanged true owner target s h = rw (withdraw_unrelated s.blocks owner target h) refl
remove_keys_unchanged false owner target s h =
    let b1 : related s.buddies owner target ≡ false = ground arith in
    let b2 : related s.buddies target owner ≡ false = ground arith in
    let p1 : related s.pending owner target ≡ false = ground arith in
    let p2 : related s.pending target owner ≡ false = ground arith in
    rw
      (
        withdraw_unrelated s.buddies owner target b1,
        withdraw_unrelated s.buddies target owner b2,
        withdraw_unrelated s.pending owner target p1,
        withdraw_unrelated s.pending target owner p2,
      )
      refl

-- A removal that answers `N` has changed nothing.
pub remove_relation_refused :
    (dir : Directory) (owner target list_tag : Text) (s : Social)
    → (control_social_remove_relation dir owner target list_tag s).0 ≡ codes "N"
    → (control_social_remove_relation dir owner target list_tag s).1 ≡ s
unfolding control_social_remove_relation
remove_relation_refused dir owner target list_tag s h = ground (
  arith,
  remove_keys_unchanged (tag_of list_tag == codes "I") (social_key dir owner)
      (social_key dir target) s,
)

-- Between two keys nothing is left of what a removal was called for, and between any other two
-- everything stands as before.
pub remove_keys_lem :
    (owner target a b : Text) (s : Social)
    → let after = (remove_keys false owner target s).1 in
      let between = owner == a && target == b || target == a && owner == b in
      (related after.buddies a b ≡ (if between then false else related s.buddies a b))
      × (related after.pending a b ≡ (if between then false else related s.pending a b))
      × (related (remove_keys true owner target s).1.blocks a b
          ≡ (if owner == a && target == b then false else related s.blocks a b))
unfolding remove_keys
remove_keys_lem owner target a b s = simp relation_laws (ground arith)
