-- ===== src/Social/Relations.antt =====
-- Buddies, requests and blocks.
use nfs_most_wanted_online.Prelude.{
  ℕ, Bool, true, false, not, ◌||◌, Option, none, some, List, [], ◌∷◌, ◌++◌, length, drop, ◌-◌,
  if◌then◌else◌, leb, ◌+◌, is_some,
}
use nfs_most_wanted_online.Prelude.Eq.{◌==◌, nat_eq, text_eq}
use nfs_most_wanted_online.Prelude.Sets.{contains, add, discard}
use nfs_most_wanted_online.Prelude.Dict.{Dict, get, put, erase}
use nfs_most_wanted_online.Prelude.Text.{Text, codes, truthy, or_text, strip, upper}
use nfs_most_wanted_online.Social.{Relation, Social, Directory, social_key, social_display_name}

unfoldable pub found_or : Option (List Text) → List Text
found_or none = []
found_or (some targets) = targets

-- `rel.get(owner, set())`
unfoldable pub targets_of : Relation → Text → List Text
unfolding found_or
targets_of rel owner = found_or (get rel owner)

-- `target in rel.get(owner, set())`
abbrev pub related : Relation → Text → Text → Bool
related rel owner target = contains target (targets_of rel owner)

-- `rel.setdefault(owner, set()).add(target)`
unfoldable pub relate : Relation → Text → Text → Relation
relate rel owner target = put rel owner (add target (targets_of rel owner))

-- `rel.get(owner, set()).discard(target)`, which writes to the set in its place.
unfoldable pub discarded : Relation → Text → Text → Option (List Text) → Relation
discarded rel owner target none = rel
discarded rel owner target (some targets) = put rel owner (discard target targets)

unfoldable pub unrelate : Relation → Text → Text → Relation
unfolding discarded
unrelate rel owner target = discarded rel owner target (get rel owner)

-- The blocks of `control_social_remove_relation`: a set that is left empty is dropped.
unfoldable pub withdrawn : Relation → Text → List Text → Relation
withdrawn rel owner [] = erase rel owner
withdrawn rel owner (target ∷ targets) = put rel owner (target ∷ targets)

unfoldable pub withdraw : Relation → Text → Text → Relation
unfolding withdrawn
withdraw rel owner target =
    if related rel owner target
    then withdrawn rel owner (discard target (targets_of rel owner))
    else rel

-- `(list_tag or "B").strip().upper()`
unfoldable pub tag_of : Text → Text
tag_of list_tag = upper (strip (or_text list_tag (codes "B")))

unfoldable pub set_default : Dict Text Text → Text → Text → Dict Text Text
set_default d k v = if is_some (get d k) then d else put d k v

-- The keys that no relation is made of.
unfoldable pub refused : Text → Text → Bool
refused owner target = not (truthy owner) || (not (truthy target) || owner == target)

unfoldable pub block : Text → Text → Social → Social
block owner target s = record s {
  blocks = relate s.blocks owner target;
  buddies = unrelate (unrelate s.buddies owner target) target owner;
  pending = unrelate (unrelate s.pending owner target) target owner;
}

unfoldable pub accept : Text → Text → Social → Social
accept owner target s = record s {
  pending = unrelate (unrelate s.pending target owner) owner target;
  buddies = relate (relate s.buddies owner target) target owner;
}

unfoldable pub request : Text → Text → Social → Social
request owner target s = record s { pending = relate s.pending owner target }

-- The answer, and the state with the relation.
unfoldable pub add_keys : Bool → Text → Text → Social → Text × Social
add_keys to_block owner target s =
    if to_block
    then (codes "B", block owner target s)
    else if related s.pending target owner
    then (codes "", accept owner target s)
    else if related s.buddies owner target
    then (codes "", s)
    else (codes "R", request owner target s)

unfoldable pub control_social_add_relation : Directory → Text → Text → Text → Social → Text × Social
control_social_add_relation dir owner target list_tag s =
    let owner_key = social_key dir owner in
    let target_display = social_display_name dir target in
    let target_key = social_key dir target_display in
    if refused owner_key target_key
    then (codes "N", s)
    else add_keys (tag_of list_tag == codes "I") owner_key target_key
        record s { display = set_default s.display target_key target_display }

-- Whether anything changed, and the state without the relation.
unfoldable pub remove_keys : Bool → Text → Text → Social → Bool × Social
remove_keys to_block owner target s =
    if to_block
    then (related s.blocks owner target, record s { blocks = withdraw s.blocks owner target })
    else (
      related s.buddies owner target
          || (related s.buddies target owner
              || (related s.pending owner target || related s.pending target owner)),
      record s {
        buddies = withdraw (withdraw s.buddies owner target) target owner;
        pending = withdraw (withdraw s.pending owner target) target owner;
      },
    )

unfoldable pub control_social_remove_relation :
    Directory → Text → Text → Text → Social → Text × Social
control_social_remove_relation dir owner target list_tag s =
    let owner_key = social_key dir owner in
    let target_key = social_key dir target in
    let to_block = tag_of list_tag == codes "I" in
    let removed = remove_keys to_block owner_key target_key s in
    if refused owner_key target_key
    then (codes "N", s)
    else (if removed.0 then (if to_block then codes "B" else codes "") else codes "N", removed.1)

unfoldable pub blocked_keys : Text → Text → Social → Bool
blocked_keys sender target s = related s.blocks sender target || related s.blocks target sender

unfoldable pub control_social_is_blocked : Directory → Text → Text → Social → Bool
control_social_is_blocked dir sender target s =
    let sender_key = social_key dir sender in
    let target_key = social_key dir target in
    if not (truthy sender_key) || not (truthy target_key)
    then false
    else blocked_keys sender_key target_key s

-- The last 128 reports are kept.
unfoldable pub control_social_report : Text → Text → Text → ℕ → Social → Social
control_social_report reporter target reason now s =
    let reports =
      s.reports
      ++ record { time = now; reporter = reporter; target = target; reason = reason } ∷ [] in
    record s { reports = drop (length reports - 128) reports }

-- `_control_open_slot` and `_control_close_slot`
unfoldable pub control_open_slot : ℕ → Social → Bool × Social
control_open_slot max_connections s =
    if max_connections == 0
    then (true, s)
    else if leb max_connections s.control_active_connections
    then (false, s)
    else (true, record s { control_active_connections = s.control_active_connections + 1 })

unfoldable pub control_close_slot : Social → Social
control_close_slot s = record s { control_active_connections = s.control_active_connections - 1 }
