-- ===== src/Social/Registry.antt =====
-- The two tables of the connected handlers agree.
use nfs_most_wanted_online.Prelude.{
  ◌≡◌, refl, ap, ◌≢◌, inl, inr, true, false, ◌&&◌, none, some, List, [], ◌∷◌, arith, ℕ,
  if◌then◌else◌, Option-cases, is_some,
}
use nfs_most_wanted_online.Prelude.Eq.{◌==◌, text_eq, text_beq_iff, nat_eq}
use nfs_most_wanted_online.Prelude.Sets.{contains, add, discard, contains-add, contains-discard}
use nfs_most_wanted_online.Prelude.Dict.{get, get-put, get-erase}
use nfs_most_wanted_online.Prelude.Text.{Text, truthy}
use nfs_most_wanted_online.Social.{Social, initial}
use nfs_most_wanted_online.Social.Handlers.{handlers_found, handlers_of, is_empty, emptied, dropped}

-- A persona is listed only with a handler, and its presence stands exactly as long.
pub record IsListed (s : Social) : Type 0 where
  pub present : (k : Text) → is_some (get s.presence k) ≡ is_some (get s.handlers k)
  pub manned : (k : Text) → get s.handlers k ≢ some []

-- A handler speaks for a persona exactly when it is in the persona's set.
pub record IsRegistered (s : Social) : Type 0 where
  pub present : (k : Text) → is_some (get s.presence k) ≡ is_some (get s.handlers k)
  pub manned : (k : Text) → get s.handlers k ≢ some []
  pub served :
      (h : ℕ) (k : Text) → get s.handler_user h ≡ some k → contains h (handlers_of s k) ≡ true
  pub named : (h : ℕ) (k : Text) → get s.handler_user h ≡ some k → truthy k ≡ true
  pub spoken :
      (h : ℕ) (k : Text) → contains h (handlers_of s k) ≡ true → get s.handler_user h ≡ some k

pub listed : (s : Social) → IsRegistered s → IsListed s
listed s inv = record { present = inv.present; manned = inv.manned }

pub add_nonempty : (h : ℕ) (hs : List ℕ) → add h hs ≢ []
unfolding contains
add_nonempty h hs e =
    let said : contains h (add h hs) ≡ contains h [] = ap (contains h) e in
    ground (arith, contains-add h h hs)

pub emptied_lookup :
    (key k : Text) (hs : List ℕ) (s : Social)
    → get (emptied key hs s).handlers k
      ≡ (if key == k then (if is_empty hs then none else some hs) else get s.handlers k)
unfolding emptied
emptied_lookup key k [] s = get-erase s.handlers key k
emptied_lookup key k (h ∷ hs) s = get-put s.handlers key k (h ∷ hs)

pub emptied_presence :
    (key k : Text) (hs : List ℕ) (s : Social)
    → get (emptied key hs s).presence k
      ≡ (if key == k && is_empty hs then none else get s.presence k)
unfolding emptied
emptied_presence key k [] s = ground (arith, get-erase s.presence key k)
emptied_presence key k (h ∷ hs) s = ground arith

emptied_user :
    (key : Text) (hs : List ℕ) (s : Social) → (emptied key hs s).handler_user ≡ s.handler_user
unfolding emptied
emptied_user key [] s = refl
emptied_user key (h ∷ hs) s = refl

emptied-IsListed :
    (key : Text) (hs : List ℕ) (s : Social)
    → is_some (get s.handlers key) ≡ true
    → IsListed s
    → IsListed (emptied key hs s)
unfolding emptied
emptied-IsListed key [] s there inv = record {
  present =
      λ k. ground (arith, inv.present k, get-erase s.presence key k, get-erase s.handlers key k);
  manned = λ k h. inv.manned k (ground (arith, get-erase s.handlers key k));
}
emptied-IsListed key (h ∷ hs) s there inv = record {
  present =
      λ k. ground (arith, inv.present k, text_beq_iff key k, get-put s.handlers key k (h ∷ hs));
  manned = λ k e. inv.manned k (ground (arith, get-put s.handlers key k (h ∷ hs)));
}

module _ (handler : ℕ) (key : Text) (s : Social) where
  abbrev pub after_drop : Social
  after_drop = dropped handler key s (get s.handlers key)

  pub dropped_user : after_drop.handler_user ≡ s.handler_user
  unfolding dropped
  dropped_user = elim (Option-cases (get s.handlers key)) [
    | inl e ↦ rw e refl
    | inr (hs, e) ↦ rw e (emptied_user key (discard handler hs) s)
  ]

  pub dropped_member :
      (j : ℕ) (k : Text)
      → contains j (handlers_of after_drop k)
        ≡ (if key == k && handler == j then false else contains j (handlers_of s k))
  unfolding dropped handlers_of handlers_found contains
  dropped_member j k = elim (Option-cases (get s.handlers key)) [
    | inl e ↦ rw e (ground (arith, text_beq_iff key k))
    | inr (hs, e) ↦
        rw (e, emptied_lookup key k (discard handler hs) s)
          (ground (arith, text_beq_iff key k, contains-discard handler j hs))
  ]

  pub dropped-IsListed : IsListed s → IsListed after_drop
  unfolding dropped
  dropped-IsListed inv = elim (Option-cases (get s.handlers key)) [
    | inl e ↦ rw e inv
    | inr (hs, e) ↦ rw e (emptied-IsListed key (discard handler hs) s (rw e refl) inv)
  ]

pub initial-IsRegistered : IsRegistered initial
unfolding get handlers_of handlers_found contains
initial-IsRegistered = record {
  present = λ k. refl;
  manned = λ k h. cc;
  served = λ h k e. cc;
  named = λ h k e. cc;
  spoken = λ h k e. cc;
}
