-- ===== src/Social/Departure.antt =====
-- The other operations on the tables of the handlers keep them in agreement.
use nfs_most_wanted_online.Prelude.{
  ◌≡◌, refl, inl, inr, Bool, true, false, none, some, List, [], ◌∷◌, arith, ℕ, if◌then◌else◌,
  Option-cases, Bool-cases, is_some,
}
use nfs_most_wanted_online.Prelude.Eq.{◌==◌, text_eq, text_beq_iff, nat_eq}
use nfs_most_wanted_online.Prelude.Sets.{contains}
use nfs_most_wanted_online.Prelude.Dict.{Dict, get, put, erase, get-put, get-erase}
use nfs_most_wanted_online.Prelude.Text.{Text, truthy}
use nfs_most_wanted_online.Social.{Presence, Social, Directory, social_key}
use nfs_most_wanted_online.Social.Handlers.{
  handlers_found, handlers_of, forget, unregistered, control_social_unregister,
  control_social_unregister_persona, updated_for, control_social_update_presence,
}
use nfs_most_wanted_online.Social.Registry.{
  IsRegistered, after_drop, dropped_user, dropped_member, dropped-IsListed,
}

-- The handler's entry is gone, and it has left its set.
module _ (handler : ℕ) (key : Text) (s : Social) (inv : IsRegistered s)
    (speaks : get s.handler_user handler ≡ some key) where
  abbrev popped : Social
  popped = record s { handler_user = erase s.handler_user handler }

  pub gone_user :
      (j : ℕ)
      → get (after_drop handler key popped).handler_user j
        ≡ (if handler == j then none else get s.handler_user j)
  gone_user j = rw (dropped_user handler key popped) (get-erase s.handler_user handler j)

  gone_member :
      (j : ℕ) (k : Text)
      → contains j (handlers_of (after_drop handler key popped) k)
        ≡ (if handler == j then false else contains j (handlers_of s k))
  unfolding handlers_of
  gone_member j k = ground (
    arith,
    dropped_member handler key popped j k,
    inv.spoken j k,
    speaks,
    text_beq_iff key k,
    same_handler j,
  )
    where
      same_handler : (j : ℕ) → handler ≡ j → get s.handler_user j ≡ some key
      same_handler j q = rw (← q) speaks

  gone-IsRegistered : IsRegistered (after_drop handler key popped)
  gone-IsRegistered =
      let weak =
        dropped-IsListed handler key popped
          (record { present = inv.present; manned = inv.manned }) in
      record {
        present = weak.present;
        manned = weak.manned;
        served = λ j k h. ground (arith, gone_user j, gone_member j k, inv.served j k);
        named = λ j k h. ground (arith, gone_user j, inv.named j k);
        spoken = λ j k h. ground (arith, gone_user j, gone_member j k, inv.spoken j k);
      }

-- A handler that goes leaves the tables in agreement.
pub control_social_unregister-IsRegistered :
    (all_online : Bool) (handler : ℕ) (s : Social)
    → IsRegistered s
    → IsRegistered (control_social_unregister all_online handler s).1
unfolding control_social_unregister unregistered
control_social_unregister-IsRegistered all_online handler s inv =
    elim (Option-cases (get s.handler_user handler)) [
      | inl e ↦ rw e inv
      | inr (key, e) ↦ rw (e, inv.named handler key e) (gone-IsRegistered handler key s inv e)
    ]

forget_lookup :
    (handlers : List ℕ) (d : Dict ℕ Text) (j : ℕ)
    → get (forget handlers d) j ≡ (if contains j handlers then none else get d j)
unfolding forget contains
forget_lookup [] d j = refl
forget_lookup (h ∷ hs) d j = ground (arith, forget_lookup hs (erase d h) j, get-erase d h j)

module _ (key : Text) (s : Social) (inv : IsRegistered s) where
  abbrev cleared : Social
  cleared = record s {
    handlers = erase s.handlers key;
    handler_user = forget (handlers_of s key) s.handler_user;
    presence = erase s.presence key;
  }

  cleared_member :
      (j : ℕ) (k : Text)
      → contains j (handlers_of cleared k)
        ≡ (if key == k then false else contains j (handlers_of s k))
  unfolding handlers_of handlers_found contains
  cleared_member j k = ground (arith, get-erase s.handlers key k)

  pub cleared_user :
      (j : ℕ)
      → get cleared.handler_user j
        ≡ (if contains j (handlers_of s key) then none else get s.handler_user j)
  cleared_user j = forget_lookup (handlers_of s key) s.handler_user j

  cleared-IsRegistered : IsRegistered cleared
  cleared-IsRegistered = record {
    present =
        λ k. ground (arith, inv.present k, get-erase s.handlers key k, get-erase s.presence key k);
    manned = λ k h. inv.manned k (ground (arith, get-erase s.handlers key k));
    served = λ j k h.
        ground (arith, cleared_user j, cleared_member j k, inv.served j k, text_beq_iff key k);
    named = λ j k h. ground (arith, cleared_user j, inv.named j k);
    spoken = λ j k h. ground (
      arith,
      cleared_user j,
      cleared_member j k,
      inv.spoken j k,
      inv.spoken j key,
      text_beq_iff key k,
    );
  }

-- So does a persona that is dropped with all its handlers.
pub control_social_unregister_persona-IsRegistered :
    (all_online : Bool) (dir : Directory) (persona : Text) (s : Social)
    → IsRegistered s
    → IsRegistered (control_social_unregister_persona all_online dir persona s).1
unfolding control_social_unregister_persona
control_social_unregister_persona-IsRegistered all_online dir persona s inv =
    elim (Bool-cases (truthy (social_key dir persona))) [
      | inl e ↦ rw e (cleared-IsRegistered (social_key dir persona) s inv)
      | inr e ↦ rw e inv
    ]

repainted-IsRegistered :
    (key : Text) (p : Presence) (s : Social)
    → is_some (get s.handlers key) ≡ true
    → IsRegistered s
    → IsRegistered (record s { presence = put s.presence key p })
unfolding handlers_of
repainted-IsRegistered key p s there inv = record {
  present = λ k. ground (arith, inv.present k, get-put s.presence key k p, text_beq_iff key k);
  manned = inv.manned;
  served = inv.served;
  named = inv.named;
  spoken = inv.spoken;
}

listed_if_spoken :
    (handler : ℕ) (key : Text) (s : Social)
    → contains handler (handlers_of s key) ≡ true
    → is_some (get s.handlers key) ≡ true
unfolding handlers_of handlers_found contains
listed_if_spoken handler key s h = ground arith

-- And so does an update of a presence, which adds none.
pub control_social_update_presence-IsRegistered :
    (all_online : Bool) (handler : ℕ) (show stat prod title : Text) (now : ℕ) (s : Social)
    → IsRegistered s
    → IsRegistered (control_social_update_presence all_online handler show stat prod title now s).1
unfolding control_social_update_presence updated_for
control_social_update_presence-IsRegistered all_online handler show stat prod title now s inv =
    elim (Option-cases (get s.handler_user handler)) [
      | inl e ↦ rw e inv
      | inr (key, e) ↦
          rw (e, inv.named handler key e)
            (repainted-IsRegistered key _ s
              (listed_if_spoken handler key s (inv.served handler key e)) inv)
    ]
