-- ===== src/Social/Related.antt =====
-- What the writes to a relation do to its membership test.
use nfs_most_wanted_online.Prelude.{
  ◌≡◌, refl, inl, inr, false, ◌&&◌, ◌||◌, none, some, List, [], ◌∷◌, arith, if◌then◌else◌,
  Option-cases, Bool-cases,
}
use nfs_most_wanted_online.Prelude.Eq.{◌==◌, text_eq, text_beq_iff, nat_eq}
use nfs_most_wanted_online.Prelude.Sets.{contains, add, discard, contains-add, contains-discard}
use nfs_most_wanted_online.Prelude.Dict.{get, put, erase, get-put, get-erase}
use nfs_most_wanted_online.Prelude.Text.{Text}
use nfs_most_wanted_online.Social.{Relation}
use nfs_most_wanted_online.Social.Relations.{
  found_or, targets_of, related, relate, discarded, unrelate, withdrawn, withdraw,
}

targets_of-put :
    (rel : Relation) (owner a : Text) (targets : List Text)
    → targets_of (put rel owner targets) a ≡ (if owner == a then targets else targets_of rel a)
unfolding targets_of found_or
targets_of-put rel owner a targets = ground (arith, get-put rel owner a targets)

targets_of-erase :
    (rel : Relation) (owner a : Text)
    → targets_of (erase rel owner) a ≡ (if owner == a then [] else targets_of rel a)
unfolding targets_of found_or
targets_of-erase rel owner a = ground (arith, get-erase rel owner a)

pub related-relate :
    (rel : Relation) (owner target a b : Text)
    → related (relate rel owner target) a b ≡ (owner == a && target == b || related rel a b)
unfolding relate
related-relate rel owner target a b = elim (Bool-cases (owner == a)) [
  | inl e ↦
      (let same : owner ≡ a = (text_beq_iff owner a).0 e in
        rw (targets_of-put rel owner a (add target (targets_of rel owner)), e, same)
          (contains-add target b (targets_of rel a)))
  | inr e ↦ rw (targets_of-put rel owner a (add target (targets_of rel owner)), e) refl
]

-- An owner without a set relates to nobody.
targets_of-none : (rel : Relation) (owner : Text) → get rel owner ≡ none → targets_of rel owner ≡ []
unfolding targets_of found_or
targets_of-none rel owner e = rw e refl

targets_of-some :
    (rel : Relation) (owner : Text) (targets : List Text)
    → get rel owner ≡ some targets
    → targets_of rel owner ≡ targets
unfolding targets_of found_or
targets_of-some rel owner targets e = rw e refl

pub related-unrelate :
    (rel : Relation) (owner target a b : Text)
    → related (unrelate rel owner target) a b
      ≡ (if owner == a && target == b then false else related rel a b)
unfolding unrelate discarded contains
related-unrelate rel owner target a b = elim (Option-cases (get rel owner)) [
  | inl e ↦ rw e (ground (arith, text_beq_iff owner a, targets_of-none rel owner e))
  | inr (targets, e) ↦
      rw (e, targets_of-put rel owner a (discard target targets))
        (ground (
          arith,
          text_beq_iff owner a,
          targets_of-some rel owner targets e,
          contains-discard target b targets,
        ))
]

targets_of-withdrawn :
    (rel : Relation) (owner a : Text) (targets : List Text)
    → targets_of (withdrawn rel owner targets) a
      ≡ (if owner == a then targets else targets_of rel a)
unfolding withdrawn
targets_of-withdrawn rel owner a [] = targets_of-erase rel owner a
targets_of-withdrawn rel owner a (target ∷ targets) = targets_of-put rel owner a (target ∷ targets)

pub related-withdraw :
    (rel : Relation) (owner target a b : Text)
    → related (withdraw rel owner target) a b
      ≡ (if owner == a && target == b then false else related rel a b)
unfolding withdraw
related-withdraw rel owner target a b = elim (Bool-cases (related rel owner target)) [
  | inl e ↦
      rw (e, targets_of-withdrawn rel owner a (discard target (targets_of rel owner)))
        (ground (arith, text_beq_iff owner a, contains-discard target b (targets_of rel owner)))
  | inr e ↦ rw e (ground (arith, text_beq_iff owner a, text_beq_iff target b))
]

pub ruleset relation_laws = (related-relate, related-unrelate, related-withdraw)
