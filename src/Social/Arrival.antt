-- ===== src/Social/Arrival.antt =====
-- `control_social_register` keeps the tables of the handlers in agreement.
use nfs_most_wanted_online.Prelude.{
  ◌≡◌, refl, ◌≢◌, inl, inr, Bool, true, false, not, ◌&&◌, ◌||◌, some, [], arith, ℕ, if◌then◌else◌,
  Option-cases, Bool-cases,
}
use nfs_most_wanted_online.Prelude.Eq.{◌==◌, text_eq, text_beq_iff, nat_eq}
use nfs_most_wanted_online.Prelude.Sets.{contains, add, contains-add}
use nfs_most_wanted_online.Prelude.Dict.{get, get-put}
use nfs_most_wanted_online.Prelude.Text.{Text, truthy, strip}
use nfs_most_wanted_online.Social.{Social, Directory, social_key}
use nfs_most_wanted_online.Social.Handlers.{
  handlers_found, handlers_of, moved_from, registered, found_presence, control_social_register,
}
use nfs_most_wanted_online.Social.Registry.{
  IsListed, IsRegistered, listed, dropped_user, dropped_member, dropped-IsListed, add_nonempty,
}

-- The state without what the handler was registered for before.
module _ (handler : ℕ) (key : Text) (s : Social) (inv : IsRegistered s) where
  abbrev left : Social
  left = moved_from handler key s (get s.handler_user handler)

  left_user : left.handler_user ≡ s.handler_user
  unfolding moved_from
  left_user = elim (Option-cases (get s.handler_user handler)) [
    | inl e ↦ rw e refl
    | inr (old_key, e) ↦ elim (Bool-cases (truthy old_key && not (old_key == key))) [
      | inl f ↦ rw (e, f) (dropped_user handler old_key s)
      | inr f ↦ rw (e, f) refl
    ]
  ]

  left-IsListed : IsListed left
  unfolding moved_from
  left-IsListed = elim (Option-cases (get s.handler_user handler)) [
    | inl e ↦ rw e (listed s inv)
    | inr (old_key, e) ↦ elim (Bool-cases (truthy old_key && not (old_key == key))) [
      | inl f ↦ rw (e, f) (dropped-IsListed handler old_key s (listed s inv))
      | inr f ↦ rw (e, f) (listed s inv)
    ]
  ]

  -- The other handlers keep their personas; the handler itself speaks at most for its new one.
  left_member :
      (j : ℕ) (k : Text)
      → contains j (handlers_of left k)
        ≡ (if handler == j && not (key == k) then false else contains j (handlers_of s k))
  unfolding moved_from
  left_member j k = elim (Option-cases (get s.handler_user handler)) [
    | inl e ↦ rw e (ground (arith, apart))
    | inr (old_key, e) ↦ elim (Bool-cases (truthy old_key && not (old_key == key))) [
      | inl f ↦
          rw (e, f, dropped_member handler old_key s j k)
            (ground (
              arith,
              apart,
              inv.spoken handler k,
              text_beq_iff old_key k,
              text_beq_iff old_key key,
              text_beq_iff key k,
            ))
      | inr f ↦
          rw (e, f)
            (ground (
              arith,
              apart,
              inv.named handler old_key e,
              inv.spoken handler k,
              text_beq_iff old_key k,
              text_beq_iff old_key key,
              text_beq_iff key k,
            ))
    ]
  ]
    where
      -- The handler is in no other set than that of its persona.
      apart :
          (handler ≡ j) → contains j (handlers_of s k) ≡ true → get s.handler_user handler ≡ some k
      apart q h = rw q (inv.spoken j k h)

  registered_member :
      (display addr : Text) (now : ℕ) (j : ℕ) (k : Text)
      → contains j (handlers_of (registered handler key display addr now left) k) ≡ (
          if key == k
          then handler == j || contains j (handlers_of left k)
          else contains j (handlers_of left k))
  unfolding registered handlers_of handlers_found
  registered_member display addr now j k = ground (
    arith,
    text_beq_iff key k,
    get-put left.handlers key k (add handler (handlers_of left key)),
    contains-add handler j (handlers_of left key),
  )

  pub registered_user :
      (display addr : Text) (now : ℕ) (j : ℕ)
      → get (registered handler key display addr now left).handler_user j
        ≡ (if handler == j then some key else get s.handler_user j)
  unfolding registered
  registered_user display addr now j = rw left_user (get-put s.handler_user handler j key)

  registered_manned :
      (display addr : Text) (now : ℕ) (k : Text)
      → get (registered handler key display addr now left).handlers k ≢ some []
  unfolding registered
  registered_manned display addr now k h = elim (Bool-cases (key == k)) [
    | inl e ↦
        add_nonempty handler (handlers_of left key)
          (ground (arith, get-put left.handlers key k (add handler (handlers_of left key))))
    | inr e ↦
        left-IsListed.manned k
          (ground (arith, get-put left.handlers key k (add handler (handlers_of left key))))
  ]

  registered-IsRegistered :
      (display addr : Text) (now : ℕ)
      → truthy key ≡ true
      → IsRegistered (registered handler key display addr now left)
  registered-IsRegistered display addr now nonempty = record {
    present = λ k.
        unfold registered in
        ground (
          arith,
          left-IsListed.present k,
          get-put left.handlers key k (add handler (handlers_of left key)),
          get-put left.presence key k (found_presence (get left.presence key) display addr now),
        );
    manned = λ k h. registered_manned display addr now k h;
    served = λ j k h. ground (
      arith,
      registered_user display addr now j,
      registered_member display addr now j k,
      left_member j k,
      inv.served j k,
      text_beq_iff key k,
    );
    named = λ j k h. ground (arith, registered_user display addr now j, inv.named j k);
    spoken = λ j k h. ground (
      arith,
      registered_user display addr now j,
      registered_member display addr now j k,
      left_member j k,
      inv.spoken j k,
      text_beq_iff key k,
    );
  }

-- Registering a handler, which may leave another persona first, keeps the tables in agreement: a
-- handler stands in the set of exactly the persona it speaks for, no set is empty, and a persona has a
-- presence exactly while it has a handler.
pub control_social_register-IsRegistered :
    (enabled all_online : Bool) (dir : Directory) (handler : ℕ) (persona addr : Text) (now : ℕ)
    (s : Social)
    → IsRegistered s
    → IsRegistered (control_social_register enabled all_online dir handler persona addr now s).2
unfolding control_social_register
control_social_register-IsRegistered enabled all_online dir handler persona addr now s inv =
    let key = social_key dir (strip persona) in
    elim (Bool-cases (not enabled || not (truthy key))) [
      | inl e ↦ rw e inv
      | inr e ↦
          rw e (registered-IsRegistered handler key s inv (strip persona) addr now (ground arith))
    ]
