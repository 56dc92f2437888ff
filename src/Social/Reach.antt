-- ===== src/Social/Reach.antt =====
-- Every order in which clients call the operations.
use nfs_most_wanted_online.Prelude.{ℕ, Bool, ◌≡◌, sym, ap, length, ◌≤◌, arith, length-drop}
use nfs_most_wanted_online.Prelude.Eq.{text_eq, nat_eq}
use nfs_most_wanted_online.Prelude.Dict.{get}
use nfs_most_wanted_online.Prelude.Text.{Text}
use nfs_most_wanted_online.Social.{Social, Directory, initial}
use nfs_most_wanted_online.Social.Relations.{
  control_social_add_relation, control_social_remove_relation, control_social_report,
}
use nfs_most_wanted_online.Social.Handlers.{
  handlers_of, control_social_register, control_social_unregister,
  control_social_unregister_persona, control_social_update_presence,
}
use nfs_most_wanted_online.Social.Invariant.{
  IsSocial, initial-IsSocial, control_social_add_relation-IsSocial,
  control_social_remove_relation-IsSocial,
}
use nfs_most_wanted_online.Social.Registry.{IsRegistered, initial-IsRegistered}
use nfs_most_wanted_online.Social.Arrival.{control_social_register-IsRegistered}
use nfs_most_wanted_online.Social.Departure.{
  control_social_unregister-IsRegistered, control_social_unregister_persona-IsRegistered,
  control_social_update_presence-IsRegistered,
}
use nfs_most_wanted_online.Social.Kept.{
  relations, carry_IsSocial, carry_IsRegistered, relations-control_social_register,
  relations-unregistered, persona_relations, update_relations, add_tables, remove_tables,
}

-- The states that calls in any order lead to, with any directory and any settings at each call.
pub data Reachable : Social → Type 0 where
  starts : Reachable initial
  registers :
      {s : Social} (enabled all_online : Bool) (dir : Directory) (handler : ℕ) (persona addr : Text)
      (now : ℕ)
      → Reachable s
      → Reachable (control_social_register enabled all_online dir handler persona addr now s).2
  unregisters :
      {s : Social} (all_online : Bool) (handler : ℕ)
      → Reachable s
      → Reachable (control_social_unregister all_online handler s).1
  drops :
      {s : Social} (all_online : Bool) (dir : Directory) (persona : Text)
      → Reachable s
      → Reachable (control_social_unregister_persona all_online dir persona s).1
  updates :
      {s : Social} (all_online : Bool) (handler : ℕ) (show stat prod title : Text) (now : ℕ)
      → Reachable s
      → Reachable (control_social_update_presence all_online handler show stat prod title now s).1
  adds :
      {s : Social} (dir : Directory) (owner target list_tag : Text)
      → Reachable s
      → Reachable (control_social_add_relation dir owner target list_tag s).1
  removes :
      {s : Social} (dir : Directory) (owner target list_tag : Text)
      → Reachable s
      → Reachable (control_social_remove_relation dir owner target list_tag s).1
  reports :
      {s : Social} (reporter target reason : Text) (now : ℕ)
      → Reachable s
      → Reachable (control_social_report reporter target reason now s)

unregister_kept :
    (all_online : Bool) (handler : ℕ) (s : Social)
    → relations (control_social_unregister all_online handler s).1 ≡ relations s
unfolding control_social_unregister
unregister_kept all_online handler s =
    relations-unregistered all_online handler s (get s.handler_user handler)

update_kept :
    (all_online : Bool) (handler : ℕ) (show stat prod title : Text) (now : ℕ) (s : Social)
    → relations (control_social_update_presence all_online handler show stat prod title now s).1
      ≡ relations s
unfolding control_social_update_presence
update_kept all_online handler show stat prod title now s =
    update_relations all_online show stat prod title now s (get s.handler_user handler)

reported-IsRegistered :
    (reporter target reason : Text) (now : ℕ) (s : Social)
    → IsRegistered s
    → IsRegistered (control_social_report reporter target reason now s)
unfolding control_social_report handlers_of
reported-IsRegistered reporter target reason now s inv = record {
  present = inv.present;
  manned = inv.manned;
  served = inv.served;
  named = inv.named;
  spoken = inv.spoken;
}

reported-IsSocial :
    (reporter target reason : Text) (now : ℕ) (s : Social)
    → IsSocial s
    → IsSocial (control_social_report reporter target reason now s)
unfolding control_social_report
reported-IsSocial reporter target reason now s inv = record {
  both_ways = inv.both_ways;
  unanswered = inv.unanswered;
  no_self_buddy = inv.no_self_buddy;
  no_self_request = inv.no_self_request;
  no_self_block = inv.no_self_block;
}

reported_few :
    (reporter target reason : Text) (now : ℕ) (s : Social)
    → length (control_social_report reporter target reason now s).reports ≤ 128
unfolding control_social_report
reported_few reporter target reason now s = rw length-drop (omega arith)

-- After any sequence of calls from the start, with any settings and directory at each, the two tables
-- of handlers agree (a handler stands in the set of exactly the persona it speaks for, and a persona
-- has a presence exactly while it has a handler), buddies are mutual, no request stands between
-- buddies, nobody relates to themselves, and at most 128 reports are kept.
pub social_reach :
    (s : Social) → Reachable s → IsRegistered s × IsSocial s × (length s.reports ≤ 128)
social_reach _ starts = (initial-IsRegistered, initial-IsSocial, omega arith)
social_reach _ (registers {s} enabled all_online dir handler persona addr now r) =
    let inv = social_reach s r in
    let e = relations-control_social_register enabled all_online dir handler persona addr now s in
    (
      control_social_register-IsRegistered enabled all_online dir handler persona addr now s inv.0,
      carry_IsSocial s _ (sym e) inv.1,
      rw (ap (λ x. x.3) e) inv.2,
    )
social_reach _ (unregisters {s} all_online handler r) =
    let inv = social_reach s r in
    let e = unregister_kept all_online handler s in
    (
      control_social_unregister-IsRegistered all_online handler s inv.0,
      carry_IsSocial s _ (sym e) inv.1,
      rw (ap (λ x. x.3) e) inv.2,
    )
social_reach _ (drops {s} all_online dir persona r) =
    let inv = social_reach s r in
    let e = persona_relations all_online dir persona s in
    (
      control_social_unregister_persona-IsRegistered all_online dir persona s inv.0,
      carry_IsSocial s _ (sym e) inv.1,
      rw (ap (λ x. x.3) e) inv.2,
    )
social_reach _ (updates {s} all_online handler show stat prod title now r) =
    let inv = social_reach s r in
    let e = update_kept all_online handler show stat prod title now s in
    (
      control_social_update_presence-IsRegistered all_online handler show stat prod title now s
          inv.0,
      carry_IsSocial s _ (sym e) inv.1,
      rw (ap (λ x. x.3) e) inv.2,
    )
social_reach _ (adds {s} dir owner target list_tag r) =
    let inv = social_reach s r in
    let e = add_tables dir owner target list_tag s in
    (
      carry_IsRegistered s _ (sym e) inv.0,
      control_social_add_relation-IsSocial dir owner target list_tag s inv.1,
      rw (ap (λ x. x.3) e) inv.2,
    )
social_reach _ (removes {s} dir owner target list_tag r) =
    let inv = social_reach s r in
    let e = remove_tables dir owner target list_tag s in
    (
      carry_IsRegistered s _ (sym e) inv.0,
      control_social_remove_relation-IsSocial dir owner target list_tag s inv.1,
      rw (ap (λ x. x.3) e) inv.2,
    )
social_reach _ (reports {s} reporter target reason now r) =
    let inv = social_reach s r in
    (
      reported-IsRegistered reporter target reason now s inv.0,
      reported-IsSocial reporter target reason now s inv.1,
      reported_few reporter target reason now s,
    )
