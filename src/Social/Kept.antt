-- ===== src/Social/Kept.antt =====
-- What each operation on the social state leaves as it was.
use nfs_most_wanted_online.Prelude.{
  ℕ, Bool, true, false, not, ◌&&◌, ◌||◌, ◌≡◌, refl, ap, inl, inr, Option, none, some, List, [], ◌∷◌,
  Bool-cases,
}
use nfs_most_wanted_online.Prelude.Eq.{◌==◌, text_eq, nat_eq}
use nfs_most_wanted_online.Prelude.Sets.{discard}
use nfs_most_wanted_online.Prelude.Dict.{Dict, get, erase}
use nfs_most_wanted_online.Prelude.Text.{Text, codes, truthy, strip}
use nfs_most_wanted_online.Social.{
  Relation, Presence, Social, Report, Directory, social_key, social_display_name,
}
use nfs_most_wanted_online.Social.Relations.{
  related, refused, tag_of, block, accept, request, add_keys, remove_keys,
  control_social_add_relation, control_social_remove_relation,
}
use nfs_most_wanted_online.Social.Handlers.{
  handlers_of, emptied, dropped, moved_from, registered, unregistered, updated_for,
  control_social_register, control_social_unregister_persona,
}
use nfs_most_wanted_online.Social.Invariant.{IsSocial}
use nfs_most_wanted_online.Social.Registry.{IsRegistered}

-- The relations of a state, and its tables of handlers, each with the reports.
abbrev pub relations : Social → Relation × Relation × Relation × List Report
relations s = (s.buddies, s.pending, s.blocks, s.reports)

abbrev pub tables : Social → Dict Text (List ℕ) × Dict ℕ Text × Dict Text Presence × List Report
tables s = (s.handlers, s.handler_user, s.presence, s.reports)

pub carry_IsSocial : (s t : Social) → relations s ≡ relations t → IsSocial s → IsSocial t
carry_IsSocial s t e inv = record {
  both_ways = λ a b. rw (← ap (λ r. r.0) e) (inv.both_ways a b);
  unanswered = λ a b. rw (← ap (λ r. r.0) e, ← ap (λ r. r.1) e) (inv.unanswered a b);
  no_self_buddy = λ a. rw (← ap (λ r. r.0) e) (inv.no_self_buddy a);
  no_self_request = λ a. rw (← ap (λ r. r.1) e) (inv.no_self_request a);
  no_self_block = λ a. rw (← ap (λ r. r.2) e) (inv.no_self_block a);
}

relations-emptied :
    (key : Text) (hs : List ℕ) (s : Social) → relations (emptied key hs s) ≡ relations s
unfolding emptied
relations-emptied key [] s = refl
relations-emptied key (h ∷ hs) s = refl

relations-dropped :
    (handler : ℕ) (key : Text) (s : Social) (o : Option (List ℕ))
    → relations (dropped handler key s o) ≡ relations s
unfolding dropped
relations-dropped handler key s none = refl
relations-dropped handler key s (some hs) = relations-emptied key (discard handler hs) s

relations-moved_from :
    (handler : ℕ) (key : Text) (s : Social) (o : Option Text)
    → relations (moved_from handler key s o) ≡ relations s
unfolding moved_from
relations-moved_from handler key s none = refl
relations-moved_from handler key s (some old_key) =
    elim (Bool-cases (truthy old_key && not (old_key == key))) [
      | inl e ↦ rw e (relations-dropped handler old_key s (get s.handlers old_key))
      | inr e ↦ rw e refl
    ]

pub relations-control_social_register :
    (enabled all_online : Bool) (dir : Directory) (handler : ℕ) (persona addr : Text) (now : ℕ)
    (s : Social)
    → relations (control_social_register enabled all_online dir handler persona addr now s).2
      ≡ relations s
unfolding control_social_register registered
relations-control_social_register enabled all_online dir handler persona addr now s =
    elim (Bool-cases (not enabled || not (truthy (social_key dir (strip persona))))) [
      | inl e ↦ rw e refl
      | inr e ↦ rw e (
          relations-moved_from handler (social_key dir (strip persona)) s
            (get s.handler_user handler))
    ]

pub relations-unregistered :
    (all_online : Bool) (handler : ℕ) (s : Social) (o : Option Text)
    → relations (unregistered all_online handler s o).1 ≡ relations s
unfolding unregistered
relations-unregistered all_online handler s none = refl
relations-unregistered all_online handler s (some key) = elim (Bool-cases (truthy key)) [
  | inl e ↦ rw e (
      relations-dropped handler key (record s { handler_user = erase s.handler_user handler })
        (get s.handlers key))
  | inr e ↦ rw e refl
]

pub persona_relations :
    (all_online : Bool) (dir : Directory) (persona : Text) (s : Social)
    → relations (control_social_unregister_persona all_online dir persona s).1 ≡ relations s
unfolding control_social_unregister_persona
persona_relations all_online dir persona s = elim (Bool-cases (truthy (social_key dir persona))) [
  | inl e ↦ rw e refl
  | inr e ↦ rw e refl
]

pub update_relations :
    (all_online : Bool) (show stat prod title : Text) (now : ℕ) (s : Social) (o : Option Text)
    → relations (updated_for all_online show stat prod title now s o).1 ≡ relations s
unfolding updated_for
update_relations all_online show stat prod title now s none = refl
update_relations all_online show stat prod title now s (some key) = elim (Bool-cases (truthy key)) [
  | inl e ↦ rw e refl
  | inr e ↦ rw e refl
]

pub carry_IsRegistered : (s t : Social) → tables s ≡ tables t → IsRegistered s → IsRegistered t
unfolding handlers_of
carry_IsRegistered s t e inv = record {
  present = λ k. rw (← ap (λ r. r.0) e, ← ap (λ r. r.2) e) (inv.present k);
  manned = λ k. rw (← ap (λ r. r.0) e) (inv.manned k);
  served = λ h k. rw (← ap (λ r. r.0) e, ← ap (λ r. r.1) e) (inv.served h k);
  named = λ h k. rw (← ap (λ r. r.1) e) (inv.named h k);
  spoken = λ h k. rw (← ap (λ r. r.0) e, ← ap (λ r. r.1) e) (inv.spoken h k);
}

tables-add_keys :
    (to_block : Bool) (owner target : Text) (s : Social)
    → tables (add_keys to_block owner target s).1 ≡ tables s
unfolding add_keys block accept request
tables-add_keys true owner target s = refl
tables-add_keys false owner target s = elim (Bool-cases (related s.pending target owner)) [
  | inl e ↦ rw e refl
  | inr e ↦ elim (Bool-cases (related s.buddies owner target)) [
    | inl f ↦ rw (e, f) refl
    | inr f ↦ rw (e, f) refl
  ]
]

pub add_tables :
    (dir : Directory) (owner target list_tag : Text) (s : Social)
    → tables (control_social_add_relation dir owner target list_tag s).1 ≡ tables s
unfolding control_social_add_relation
add_tables dir owner target list_tag s =
    let target_key = social_key dir (social_display_name dir target) in
    elim (Bool-cases (refused (social_key dir owner) target_key)) [
      | inl e ↦ rw e refl
      | inr e ↦
          rw e (tables-add_keys (tag_of list_tag == codes "I") (social_key dir owner) target_key _)
    ]

tables-remove_keys :
    (to_block : Bool) (owner target : Text) (s : Social)
    → tables (remove_keys to_block owner target s).1 ≡ tables s
unfolding remove_keys
tables-remove_keys true owner target s = refl
tables-remove_keys false owner target s = refl

pub remove_tables :
    (dir : Directory) (owner target list_tag : Text) (s : Social)
    → tables (control_social_remove_relation dir owner target list_tag s).1 ≡ tables s
unfolding control_social_remove_relation
remove_tables dir owner target list_tag s =
    elim (Bool-cases (refused (social_key dir owner) (social_key dir target))) [
      | inl e ↦ rw e refl
      | inr e ↦ rw e (
          tables-remove_keys (tag_of list_tag == codes "I") (social_key dir owner)
            (social_key dir target) s)
    ]
