-- ===== src/Social/Promise.antt =====
-- What the connected handlers promise, seen from outside: each speaks for the persona it registered for
-- last, until it or the persona goes.
use nfs_most_wanted_online.Prelude.{
  ℕ, Bool, false, not, ◌&&◌, ◌||◌, Option, none, some, List, [], ◌∷◌, ◌≡◌, refl, sym, ap, ◌∙◌, inl,
  inr, arith, if◌then◌else◌, Bool-cases, Option-cases,
}
use nfs_most_wanted_online.Prelude.Eq.{◌==◌, nat_eq, text_eq, text_beq_iff}
use nfs_most_wanted_online.Prelude.Sets.{contains}
use nfs_most_wanted_online.Prelude.Dict.{get}
use nfs_most_wanted_online.Prelude.Text.{Text, truthy, strip}
use nfs_most_wanted_online.Social.{Social, Directory, initial, social_key}
use nfs_most_wanted_online.Social.Relations.{
  control_social_add_relation, control_social_remove_relation,
}
use nfs_most_wanted_online.Social.Handlers.{
  handlers_of, unregistered, updated_for, control_social_register, control_social_unregister,
  control_social_unregister_persona, control_social_update_presence,
}
use nfs_most_wanted_online.Social.Registry.{IsRegistered, initial-IsRegistered}
use nfs_most_wanted_online.Social.Kept.{carry_IsRegistered, add_tables, remove_tables}
use nfs_most_wanted_online.Social.Arrival.{registered_user, control_social_register-IsRegistered}
use nfs_most_wanted_online.Social.Departure.{
  gone_user, cleared_user, control_social_unregister-IsRegistered,
  control_social_unregister_persona-IsRegistered, control_social_update_presence-IsRegistered,
}

pub data Call : Type 0 where
  registers :
      (enabled all_online : Bool) (dir : Directory) (handler : ℕ) (persona addr : Text) (now : ℕ)
      → Call
  unregisters : (all_online : Bool) (handler : ℕ) → Call
  drops : (all_online : Bool) (dir : Directory) (persona : Text) → Call
  updates : (all_online : Bool) (handler : ℕ) (show stat prod title : Text) (now : ℕ) → Call
  adds : (dir : Directory) (owner target list_tag : Text) → Call
  removes : (dir : Directory) (owner target list_tag : Text) → Call

unfoldable pub perform : Call → Social → Social
perform (registers enabled all_online dir handler persona addr now) s =
    (control_social_register enabled all_online dir handler persona addr now s).2
perform (unregisters all_online handler) s = (control_social_unregister all_online handler s).1
perform (drops all_online dir persona) s =
    (control_social_unregister_persona all_online dir persona s).1
perform (updates all_online handler show stat prod title now) s =
    (control_social_update_presence all_online handler show stat prod title now s).1
perform (adds dir owner target list_tag) s =
    (control_social_add_relation dir owner target list_tag s).1
perform (removes dir owner target list_tag) s =
    (control_social_remove_relation dir owner target list_tag s).1

-- The abstract state: whom each handler speaks for.
abbrev pub Speakers : Type 0
Speakers = ℕ → Option Text

abbrev pub speaks_for : Text → Option Text → Bool
speaks_for key none = false
speaks_for key (some k) = k == key

unfoldable pub promised : Call → Speakers → Speakers
promised (registers enabled all_online dir handler persona addr now) m j =
    let key = social_key dir (strip persona) in
    if not enabled || not (truthy key) then m j else if handler == j then some key else m j
promised (unregisters all_online handler) m j = if handler == j then none else m j
promised (drops all_online dir persona) m j =
    let key = social_key dir persona in if truthy key && speaks_for key (m j) then none else m j
promised (updates all_online handler show stat prod title now) m j = m j
promised (adds dir owner target list_tag) m j = m j
promised (removes dir owner target list_tag) m j = m j

perform-IsRegistered : (c : Call) (s : Social) → IsRegistered s → IsRegistered (perform c s)
unfolding perform
perform-IsRegistered (registers enabled all_online dir handler persona addr now) s inv =
    control_social_register-IsRegistered enabled all_online dir handler persona addr now s inv
perform-IsRegistered (unregisters all_online handler) s inv =
    control_social_unregister-IsRegistered all_online handler s inv
perform-IsRegistered (drops all_online dir persona) s inv =
    control_social_unregister_persona-IsRegistered all_online dir persona s inv
perform-IsRegistered (updates all_online handler show stat prod title now) s inv =
    control_social_update_presence-IsRegistered all_online handler show stat prod title now s inv
perform-IsRegistered (adds dir owner target list_tag) s inv =
    carry_IsRegistered s _ (sym (add_tables dir owner target list_tag s)) inv
perform-IsRegistered (removes dir owner target list_tag) s inv =
    carry_IsRegistered s _ (sym (remove_tables dir owner target list_tag s)) inv

-- The set of a persona holds exactly the handlers that speak for it.
listed_as :
    (s : Social)
    → IsRegistered s
    → (j : ℕ) (k : Text) → contains j (handlers_of s k) ≡ speaks_for k (get s.handler_user j)
listed_as s inv j k = elim (Option-cases (get s.handler_user j)) [
  | inl e ↦ rw e (ground (arith, inv.spoken j k))
  | inr (key, e) ↦ rw e (ground (arith, inv.spoken j k, inv.served j k, text_beq_iff key k))
]

registers_kept :
    (enabled all_online : Bool) (dir : Directory) (handler : ℕ) (persona addr : Text) (now : ℕ)
    (s : Social)
    → IsRegistered s
    → (j : ℕ)
    → get
        (control_social_register enabled all_online dir handler persona addr now s).2.handler_user
        j
      ≡ promised
          (registers enabled all_online dir handler persona addr now)
          (λ h. get s.handler_user h)
          j
unfolding control_social_register promised
registers_kept enabled all_online dir handler persona addr now s inv j =
    let key = social_key dir (strip persona) in
    elim (Bool-cases (not enabled || not (truthy key))) [
      | inl e ↦ rw e refl
      | inr e ↦ rw e (registered_user handler key s inv (strip persona) addr now j)
    ]

unregisters_kept :
    (all_online : Bool) (handler : ℕ) (s : Social)
    → IsRegistered s
    → (j : ℕ)
    → get (control_social_unregister all_online handler s).1.handler_user j
      ≡ promised (unregisters all_online handler) (λ h. get s.handler_user h) j
unfolding control_social_unregister unregistered promised
unregisters_kept all_online handler s inv j = elim (Option-cases (get s.handler_user handler)) [
  | inl e ↦ rw e (ground (arith, none_at e))
  | inr (key, e) ↦ rw (e, inv.named handler key e) (gone_user handler key s inv e j)
]
  where
    none_at : get s.handler_user handler ≡ none → handler ≡ j → get s.handler_user j ≡ none
    none_at e q = rw (← q) e

drops_kept :
    (all_online : Bool) (dir : Directory) (persona : Text) (s : Social)
    → IsRegistered s
    → (j : ℕ)
    → get (control_social_unregister_persona all_online dir persona s).1.handler_user j
      ≡ promised (drops all_online dir persona) (λ h. get s.handler_user h) j
unfolding control_social_unregister_persona promised
drops_kept all_online dir persona s inv j =
    let key = social_key dir persona in
    elim (Bool-cases (truthy key)) [
      | inl e ↦ rw e (ground (arith, cleared_user key s inv j, listed_as s inv j key))
      | inr e ↦ rw e refl
    ]

updates_kept :
    (all_online : Bool) (handler : ℕ) (show stat prod title : Text) (now : ℕ) (s : Social)
    → (control_social_update_presence all_online handler show stat prod title now s).1.handler_user
      ≡ s.handler_user
unfolding control_social_update_presence updated_for
updates_kept all_online handler show stat prod title now s =
    elim (Option-cases (get s.handler_user handler)) [
      | inl e ↦ rw e refl
      | inr (key, e) ↦ elim (Bool-cases (truthy key)) [
        | inl f ↦ rw (e, f) refl
        | inr f ↦ rw (e, f) refl
      ]
    ]

perform-promised :
    (c : Call) (s : Social)
    → IsRegistered s
    → (j : ℕ) → get (perform c s).handler_user j ≡ promised c (λ h. get s.handler_user h) j
unfolding perform
perform-promised (registers enabled all_online dir handler persona addr now) s inv j =
    registers_kept enabled all_online dir handler persona addr now s inv j
perform-promised (unregisters all_online handler) s inv j =
    unregisters_kept all_online handler s inv j
perform-promised (drops all_online dir persona) s inv j = drops_kept all_online dir persona s inv j
perform-promised (updates all_online handler show stat prod title now) s inv j =
    unfold promised in rw (updates_kept all_online handler show stat prod title now s) refl
perform-promised (adds dir owner target list_tag) s inv j =
    unfold promised in rw (ap (λ t. t.1) (add_tables dir owner target list_tag s)) refl
perform-promised (removes dir owner target list_tag) s inv j =
    unfold promised in rw (ap (λ t. t.1) (remove_tables dir owner target list_tag s)) refl

-- A sequence of calls, the last one first, on the tables and on the abstract state.
abbrev pub perform_all : List Call → Social
perform_all [] = initial
perform_all (c ∷ calls) = perform c (perform_all calls)

abbrev pub promised_all : List Call → Speakers
promised_all [] j = none
promised_all (c ∷ calls) j = promised c (promised_all calls) j

perform_all-IsRegistered : (calls : List Call) → IsRegistered (perform_all calls)
perform_all-IsRegistered [] = initial-IsRegistered
perform_all-IsRegistered (c ∷ calls) =
    perform-IsRegistered c (perform_all calls) (perform_all-IsRegistered calls)

promised_same :
    (c : Call) (m n : Speakers) → ((j : ℕ) → m j ≡ n j) → (j : ℕ) → promised c m j ≡ promised c n j
unfolding promised
promised_same (registers enabled all_online dir handler persona addr now) m n e j = rw (e j) refl
promised_same (unregisters all_online handler) m n e j = rw (e j) refl
promised_same (drops all_online dir persona) m n e j = rw (e j) refl
promised_same (updates all_online handler show stat prod title now) m n e j = e j
promised_same (adds dir owner target list_tag) m n e j = e j
promised_same (removes dir owner target list_tag) m n e j = e j

users_promised :
    (calls : List Call) (j : ℕ) → get (perform_all calls).handler_user j ≡ promised_all calls j
unfolding get
users_promised [] j = refl
users_promised (c ∷ calls) j =
    perform-promised c (perform_all calls) (perform_all-IsRegistered calls) j
    ∙ promised_same c _ (promised_all calls) (users_promised calls) j

-- The two tables implement the abstract view: after any sequence of calls, a handler is recorded with
-- the persona that it registered for last, if neither of them has gone since, and the set of a persona
-- holds exactly the handlers that speak for it in this view.
pub perform_all-promised_all :
    (calls : List Call) (j : ℕ) (k : Text)
    → (get (perform_all calls).handler_user j ≡ promised_all calls j)
      × (contains j (handlers_of (perform_all calls) k) ≡ speaks_for k (promised_all calls j))
perform_all-promised_all calls j k =
    let e = users_promised calls j in
    (e, rw (← e) (listed_as (perform_all calls) (perform_all-IsRegistered calls) j k))
