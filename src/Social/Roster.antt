-- ===== src/Social/Roster.antt =====
-- The lists that a client is sent: `control_social_snapshot`.
use nfs_most_wanted_online.Prelude.{
  Bool, true, false, not, ◌&&◌, ◌||◌, Option, none, List, [], ◌∷◌, ◌++◌, map, keep, ◌≡◌, refl,
  arith, if◌then◌else◌, is_some, inl, inr, Bool-cases,
}
use nfs_most_wanted_online.Prelude.Eq.{◌==◌, text_eq, text_beq_iff}
use nfs_most_wanted_online.Prelude.Sets.{contains, Distinct, contains-append}
use nfs_most_wanted_online.Prelude.Dict.{get, keys, contains-keys}
use nfs_most_wanted_online.Prelude.Sorting.{sorted_texts, contains-sorted_texts, contains-keep}
use nfs_most_wanted_online.Prelude.Text.{Text, codes, truthy}
use nfs_most_wanted_online.Social.{Relation, Presence, Social, Directory, social_key}
use nfs_most_wanted_online.Social.Relations.{related, targets_of, found_or, tag_of}
use nfs_most_wanted_online.Social.Watch.{display_or, presence_user}

pub record RosterRow : Type 0 where
  pub user : Text
  pub attr : Text
  pub online : Bool
  pub presence : Option Presence
  pub friend : Bool
  pub request : Bool

-- Who asked the owner to be buddies.
unfoldable pub incoming_of : Text → Relation → List Text
incoming_of owner [] = []
incoming_of owner ((sender, targets) ∷ pending) =
    let rest = incoming_of owner pending in
    if contains owner targets && (truthy sender && not (sender == owner))
    then sender ∷ rest
    else rest

abbrev pub all_tags : List Text
all_tags = codes "A" ∷ codes "ALL" ∷ codes "O" ∷ codes "ONLINE" ∷ codes "U" ∷ codes "USERS" ∷ []

-- The keys that the list of a tag other than I shows; a set may name a key twice, and is shown once.
unfoldable pub wanted_keys : Text → Text → Social → List Text
unfolding incoming_of
wanted_keys owner tag s =
    let buddies = targets_of s.buddies owner in
    let wanted =
      if contains tag all_tags
      then buddies ++ keys s.handlers
      else buddies ++ incoming_of owner s.pending in
    keep (λ k. truthy k && (not (k == owner) && not (contains k (targets_of s.blocks owner))))
      wanted

unfoldable pub once : List Text → List Text
once [] = []
once (k ∷ ks) = let rest = once ks in if contains k ks then rest else k ∷ rest

unfoldable pub roster_row : Text → Social → Text → RosterRow
roster_row owner s key =
    let presence = get s.presence key in
    let is_buddy = related s.buddies owner key in
    let is_request = contains key (incoming_of owner s.pending) && not is_buddy in
    record {
      user = display_or (get s.display key) (presence_user presence key);
      attr = if is_request then codes "R" else if is_buddy then codes "" else codes "D";
      online = is_some (get s.handlers key);
      presence = presence;
      friend = is_buddy;
      request = is_request;
    }

-- A row of the list of blocks, which has a name, an attribute and whether the user is online.
unfoldable pub block_row : Social → Text → RosterRow
block_row s key = record {
  user = display_or (get s.display key) key;
  attr = codes "B";
  online = is_some (get s.handlers key);
  presence = none;
  friend = false;
  request = false;
}

unfoldable pub snapshot_keys : Text → Text → Social → List Text
unfolding once
snapshot_keys owner tag s =
    if tag == codes "I"
    then sorted_texts (once (keep (λ k. truthy k && not (k == owner)) (targets_of s.blocks owner)))
    else sorted_texts (once (wanted_keys owner tag s))

unfoldable pub control_social_snapshot : Directory → Text → Text → Social → List RosterRow
control_social_snapshot dir owner list_tag s =
    let owner_key = social_key dir owner in
    let tag = tag_of list_tag in
    map (if tag == codes "I" then block_row s else roster_row owner_key s)
      (snapshot_keys owner_key tag s)

contains-once : (k : Text) (ks : List Text) → contains k (once ks) ≡ contains k ks
unfolding once contains
contains-once k [] = refl
contains-once k (a ∷ ks) = ground (arith, contains-once k ks, same)
  where
    same : (a == k) ≡ true → contains a ks ≡ contains k ks
    same e = rw ((text_beq_iff a k).0 e) refl

absent :
    (owner k : Text) (d : Relation)
    → contains k (incoming_of owner d) ≡ true
    → contains k (keys d) ≡ true
unfolding incoming_of contains
absent owner k [] h = cc
absent owner k ((sender, targets) ∷ d) h = ground (arith, absent owner k d)

contains-incoming_of :
    (owner k : Text) (d : Relation)
    → Distinct (keys d)
    → contains k (incoming_of owner d) ≡ (related d k owner && (truthy k && not (k == owner)))
unfolding incoming_of contains targets_of found_or get
contains-incoming_of owner k [] distinct = ground arith
contains-incoming_of owner k ((sender, targets) ∷ d) distinct = elim (Bool-cases (sender == k)) [
  | inl e ↦ rw e (ground (arith, absent owner k d, gone e, head e))
  | inr e ↦ rw e (ground (arith, e, contains-incoming_of owner k d distinct.1))
]
  where
    gone : (sender == k) ≡ true → contains k (keys d) ≡ false
    gone e = rw (← (text_beq_iff sender k).0 e) distinct.0

    head :
        (sender == k) ≡ true
        → (truthy sender && not (sender == owner)) ≡ (truthy k && not (k == owner))
    head e = rw ((text_beq_iff sender k).0 e) refl

ruleset listing_laws =
    (contains-sorted_texts, contains-once, contains-keep, contains-append, contains-keys)

-- The buddy list of a user shows exactly the buddies and those who asked to become one, without the
-- user and without whom the user blocks; a list of those who are online shows buddies and everybody
-- who is connected instead of the requests, and the list of blocks exactly whom the user blocks.
pub snapshot_keys_lem :
    (owner tag k : Text) (s : Social)
    → Distinct (keys s.pending)
    → let shown = truthy k && not (k == owner) in
      contains k (snapshot_keys owner tag s) ≡ (
        if tag == codes "I"
        then related s.blocks owner k && shown
        else if contains tag all_tags
        then (related s.buddies owner k || is_some (get s.handlers k))
          && (shown && not (related s.blocks owner k))
        else (related s.buddies owner k || related s.pending k owner)
          && (shown && not (related s.blocks owner k)))
unfolding snapshot_keys wanted_keys
snapshot_keys_lem owner tag k s distinct = elim (Bool-cases (tag == codes "I")) [
  | inl e ↦ rw e (simp listing_laws refl)
  | inr e ↦ elim (Bool-cases (contains tag all_tags)) [
    | inl f ↦ rw (e, f) (simp listing_laws (ground arith))
    | inr f ↦
        rw (e, f)
          (simp listing_laws (ground (arith, contains-incoming_of owner k s.pending distinct)))
  ]
]
