-- ===== src/Social/Invariant.antt =====
-- The relations that the operations keep.
use nfs_most_wanted_online.Prelude.{◌≡◌, refl, inl, inr, Bool, true, false, arith, Bool-cases}
use nfs_most_wanted_online.Prelude.Eq.{◌==◌, text_eq, text_beq_iff, nat_eq}
use nfs_most_wanted_online.Prelude.Sets.{contains}
use nfs_most_wanted_online.Prelude.Dict.{Dict, get}
use nfs_most_wanted_online.Prelude.Text.{Text, codes}
use nfs_most_wanted_online.Social.{Social, Directory, initial, social_key, social_display_name}
use nfs_most_wanted_online.Social.Relations.{
  targets_of, related, refused, block, accept, request, add_keys, remove_keys,
  control_social_add_relation, control_social_remove_relation, tag_of, found_or,
}
use nfs_most_wanted_online.Social.Related.{relation_laws}

-- Buddies are mutual, nobody waits for an answer of a buddy, and nobody relates to themselves.
pub record IsSocial (s : Social) : Type 0 where
  pub both_ways : (a b : Text) → related s.buddies a b ≡ related s.buddies b a
  pub unanswered : (a b : Text) → related s.pending a b ≡ true → related s.buddies a b ≡ false
  pub no_self_buddy : (a : Text) → related s.buddies a a ≡ false
  pub no_self_request : (a : Text) → related s.pending a a ≡ false
  pub no_self_block : (a : Text) → related s.blocks a a ≡ false

pub initial-IsSocial : IsSocial initial
unfolding contains targets_of found_or get
initial-IsSocial = record {
  both_ways = λ a b. refl;
  unanswered = λ a b h. refl;
  no_self_buddy = λ a. refl;
  no_self_request = λ a. refl;
  no_self_block = λ a. refl;
}

module _ (owner target : Text) (s : Social) (apart : (owner == target) ≡ false)
    (inv : IsSocial s) where
  block-IsSocial : IsSocial (block owner target s)
  unfolding block
  block-IsSocial = record {
    both_ways = λ a b. simp relation_laws (ground (arith, inv.both_ways a b));
    unanswered = λ a b. simp relation_laws (ground (arith, inv.unanswered a b));
    no_self_buddy = λ a. simp relation_laws (ground (arith, inv.no_self_buddy a));
    no_self_request = λ a. simp relation_laws (ground (arith, inv.no_self_request a));
    no_self_block = λ a. simp relation_laws (
        ground (
          arith,
          inv.no_self_block a,
          text_beq_iff owner a,
          text_beq_iff target a,
          text_beq_iff owner target,
        ));
  }

  accept-IsSocial : IsSocial (accept owner target s)
  unfolding accept
  accept-IsSocial = record {
    both_ways = λ a b. simp relation_laws (ground (arith, inv.both_ways a b));
    unanswered = λ a b. simp relation_laws (ground (arith, inv.unanswered a b));
    no_self_buddy = λ a. simp relation_laws (
        ground (
          arith,
          inv.no_self_buddy a,
          text_beq_iff owner a,
          text_beq_iff target a,
          text_beq_iff owner target,
        ));
    no_self_request = λ a. simp relation_laws (ground (arith, inv.no_self_request a));
    no_self_block = inv.no_self_block;
  }

  request-IsSocial : related s.buddies owner target ≡ false → IsSocial (request owner target s)
  unfolding request
  request-IsSocial strangers = record {
    both_ways = inv.both_ways;
    unanswered = λ a b.
        simp relation_laws
          (ground (arith, inv.unanswered a b, text_beq_iff owner a, text_beq_iff target b));
    no_self_buddy = inv.no_self_buddy;
    no_self_request = λ a. simp relation_laws (
        ground (
          arith,
          inv.no_self_request a,
          text_beq_iff owner a,
          text_beq_iff target a,
          text_beq_iff owner target,
        ));
    no_self_block = inv.no_self_block;
  }

  add_keys-IsSocial : (to_block : Bool) → IsSocial (add_keys to_block owner target s).1
  unfolding add_keys
  add_keys-IsSocial true = block-IsSocial
  add_keys-IsSocial false = elim (Bool-cases (related s.pending target owner)) [
    | inl e ↦ rw e accept-IsSocial
    | inr e ↦ elim (Bool-cases (related s.buddies owner target)) [
      | inl f ↦ rw (e, f) inv
      | inr f ↦ rw (e, f) (request-IsSocial f)
    ]
  ]

  remove_keys-IsSocial : (to_block : Bool) → IsSocial (remove_keys to_block owner target s).1
  unfolding remove_keys
  remove_keys-IsSocial true = record {
    both_ways = inv.both_ways;
    unanswered = inv.unanswered;
    no_self_buddy = inv.no_self_buddy;
    no_self_request = inv.no_self_request;
    no_self_block = λ a. simp relation_laws (ground (arith, inv.no_self_block a));
  }
  remove_keys-IsSocial false = record {
    both_ways = λ a b. simp relation_laws (ground (arith, inv.both_ways a b));
    unanswered = λ a b. simp relation_laws (ground (arith, inv.unanswered a b));
    no_self_buddy = λ a. simp relation_laws (ground (arith, inv.no_self_buddy a));
    no_self_request = λ a. simp relation_laws (ground (arith, inv.no_self_request a));
    no_self_block = inv.no_self_block;
  }

redisplayed-IsSocial :
    (s : Social) (display : Dict Text Text) → IsSocial s → IsSocial (record s { display = display })
redisplayed-IsSocial s display inv = record {
  both_ways = inv.both_ways;
  unanswered = inv.unanswered;
  no_self_buddy = inv.no_self_buddy;
  no_self_request = inv.no_self_request;
  no_self_block = inv.no_self_block;
}

pub refused_same : (owner target : Text) → refused owner target ≡ false → (owner == target) ≡ false
unfolding refused
refused_same owner target e = ground arith

-- Adding a relation, of any kind and between any two names, keeps the relations as they should be:
-- buddies are mutual, no request stands between buddies, and nobody relates to themselves.
pub control_social_add_relation-IsSocial :
    (dir : Directory) (owner target list_tag : Text) (s : Social)
    → IsSocial s
    → IsSocial (control_social_add_relation dir owner target list_tag s).1
unfolding control_social_add_relation
control_social_add_relation-IsSocial dir owner target list_tag s inv =
    let owner_key = social_key dir owner in
    let target_key = social_key dir (social_display_name dir target) in
    elim (Bool-cases (refused owner_key target_key)) [
      | inl e ↦ rw e inv
      | inr e ↦ rw e (
          add_keys-IsSocial owner_key target_key _ (refused_same owner_key target_key e)
            (redisplayed-IsSocial s _ inv) (tag_of list_tag == codes "I"))
    ]

-- Removing a relation keeps them so too.
pub control_social_remove_relation-IsSocial :
    (dir : Directory) (owner target list_tag : Text) (s : Social)
    → IsSocial s
    → IsSocial (control_social_remove_relation dir owner target list_tag s).1
unfolding control_social_remove_relation
control_social_remove_relation-IsSocial dir owner target list_tag s inv =
    let owner_key = social_key dir owner in
    let target_key = social_key dir target in
    let to_block = tag_of list_tag == codes "I" in
    elim (Bool-cases (refused owner_key target_key)) [
      | inl e ↦ rw e inv
      | inr e ↦ rw e (
          remove_keys-IsSocial owner_key target_key s (refused_same owner_key target_key e) inv
            to_block)
    ]
