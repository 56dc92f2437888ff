-- ===== src/Users/Effects.antt =====
-- What adding, removing and kicking users do.
use nfs_most_wanted_online.Prelude.{
  ℕ, ◌+◌, ◌≤◌, ◌<◌, ◌≡◌, refl, ◌≢◌, ◌⊎◌, inl, inr, true, false, Option, none, some, List, [], ◌∷◌,
  arith, length, count, leb, Bool-cases, Option-cases, In, In-keep, sym, ◌∙◌, ◌↔◌, if◌then◌else◌,
}
use nfs_most_wanted_online.Prelude.Eq.{nat_eq, ◌==◌, text_eq, text_beq_iff}
use nfs_most_wanted_online.Prelude.Sets.{Distinct}
use nfs_most_wanted_online.Prelude.Dict.{
  keys, contains-keys, Dict, values, get, erase, get-put, get-erase,
}
use nfs_most_wanted_online.Prelude.Text.{Text, lower}
use nfs_most_wanted_online.Users.{
  User, in_lobby, in_room, in_game, UserManager, add_user, drop_names, remove_user, get_user,
  get_by_name, all_users, is_idle, kick_user, kick_all, count_users, kick_inactive, or_default,
}
use nfs_most_wanted_online.Users.Table.{IsUserTable, add_user-IsUserTable}

-- A user who was let in is found by uid, and by name whatever the case of its ASCII letters; a full
-- table refuses and stays as it was.
pub add_user_effect :
    (m : UserManager) (u : User)
    → ((m.max_users ≤ length m.users) × (add_user m u ≡ (m, false)))
      ⊎ ((length m.users < m.max_users)
          × ((add_user m u).1 ≡ true)
          × (get_user (add_user m u).0 u.uid ≡ some u)
          × ((name : Text) → lower name ≡ lower u.name → get_by_name (add_user m u).0 name ≡ some u)
          × ((uid : ℕ) → uid ≢ u.uid → get_user (add_user m u).0 uid ≡ get_user m uid))
unfolding add_user get_user get_by_name
add_user_effect m u = elim (Bool-cases (leb m.max_users (length m.users))) [
  | inl crowded ↦ inl (ground arith, rw crowded refl)
  | inr room_left ↦ inr (
    ground arith,
    rw room_left refl,
    rw room_left (ground (arith, get-put m.users u.uid u.uid u)),
    (λ name e.
        rw (room_left, e)
          (ground (
            arith,
            get-put m.by_name (lower u.name) (lower u.name) u.uid,
            text_beq_iff (lower u.name) (lower u.name),
            get-put m.users u.uid u.uid u,
          ))),
    λ uid ne. rw room_left (ground (arith, get-put m.users u.uid uid u)),
  )
]

-- What dropping the names of a user leaves of a lookup.
abbrev other_than : ℕ → Option ℕ → Option ℕ
other_than uid none = none
other_than uid (some mapped) = if mapped == uid then none else some mapped

get-drop_names :
    (uid : ℕ) (key : Text) (names : Dict Text ℕ)
    → Distinct (keys names)
    → get (drop_names uid names) key ≡ other_than uid (get names key)
unfolding drop_names get
get-drop_names uid key [] d = refl
get-drop_names uid key ((k, mapped) ∷ names) d = ground (
  arith,
  get-drop_names uid key names d.1,
  text_beq_iff k key,
  contains-keys k names,
  contains-keys key names,
)

-- A name leads through the uid that is stored for it.
found_by_name :
    (m : UserManager) (name : Text) (v : User)
    → get_by_name m name ≡ some v
    → (w : ℕ) × (get m.by_name (lower name) ≡ some w) × (get m.users w ≡ some v)
unfolding get_by_name
found_by_name m name v h = elim (Option-cases (get m.by_name (lower name))) [
  | inl e ↦ absurd (ground arith)
  | inr (w, e) ↦ (w, e, ground arith)
]

abbrev without : UserManager → ℕ → UserManager
without m uid = record m { users = erase m.users uid; by_name = drop_names uid m.by_name }

remove_user_found :
    (m : UserManager) (uid : ℕ) (u : User)
    → get_user m uid ≡ some u
    → remove_user m uid ≡ (without m uid, some u)
unfolding remove_user get_user
remove_user_found m uid u e = rw (e, remove_user) refl

without-name :
    (m : UserManager) (uid : ℕ) (name : Text) (v : User)
    → IsUserTable m
    → get_by_name (without m uid) name ≡ some v
    → v.uid ≢ uid
without-name m uid name v t h q =
    let f = found_by_name (without m uid) name v h in
    ground (
      arith,
      f.1,
      f.2,
      get-drop_names uid (lower name) m.by_name t.distinct,
      get-erase m.users uid f.0,
      t.keyed f.0 v,
    )

keeps-name :
    (m : UserManager) (uid : ℕ) (name : Text) (v : User)
    → IsUserTable m
    → get_by_name m name ≡ some v
    → v.uid ≢ uid
    → get_by_name (without m uid) name ≡ some v
keeps-name m uid name v t h other =
    let (w, named, held) = found_by_name m name v h in
    let apart : w ≢ uid = λ e. other (t.keyed w v held ∙ e) in
    let e : get (without m uid).by_name (lower name) ≡ some w =
      ground (arith, get-drop_names uid (lower name) m.by_name t.distinct) in
    unfold get_by_name in rw e (ground (arith, get-erase m.users uid w))

-- A user who is removed from a valid table is found neither by uid nor by any name. Every other user is found by uid as before,
-- and by each name that led to that user before.
pub remove_user_effect :
    (m : UserManager) (uid : ℕ) (u : User)
    → IsUserTable m
    → get_user m uid ≡ some u
    → ((remove_user m uid).1 ≡ some u)
      × (get_user (remove_user m uid).0 uid ≡ none)
      × ((name : Text) (v : User) → get_by_name (remove_user m uid).0 name ≡ some v → v.uid ≢ uid)
      × ((k : ℕ) → k ≢ uid → get_user (remove_user m uid).0 k ≡ get_user m k)
      × ((name : Text) (v : User)
          → get_by_name m name ≡ some v
          → v.uid ≢ uid
          → get_by_name (remove_user m uid).0 name ≡ some v)
remove_user_effect m uid u t e = rw (remove_user_found m uid u e) (
  refl,
  unfold get_user in ground (arith, get-erase m.users uid uid),
  (λ name v. without-name m uid name v t),
  (λ k ne. unfold get_user in ground (arith, get-erase m.users uid k)),
  λ name v. keeps-name m uid name v t,
)

name_taken :
    (m : UserManager) (u : User)
    → length m.users < m.max_users
    → get (add_user m u).0.by_name (lower u.name) ≡ some u.uid
unfolding add_user
name_taken m u h = ground (
  arith,
  get-put m.by_name (lower u.name) (lower u.name) u.uid,
  text_beq_iff (lower u.name) (lower u.name),
)

-- Names are not kept apart: a user who comes in under the name of another, and leaves again, takes
-- the name along. The other is still in the table, and nobody finds that user by name any more.
pub name_lost :
    (m : UserManager) (u v : User)
    → IsUserTable m
    → length m.users < m.max_users
    → get_user m v.uid ≡ some v
    → u.uid ≢ v.uid
    → lower u.name ≡ lower v.name
    → let m' = (remove_user (add_user m u).0 u.uid).0 in
      (get_user m' v.uid ≡ some v) × (get_by_name m' v.name ≡ none)
name_lost m u v t room_left held ne same = elim (add_user_effect m u) [
  | inl full ↦ absurd (omega (arith, full.0))
  | inr added ↦
      let t' = add_user-IsUserTable m u t in
      let m' = (add_user m u).0 in
      let gone = remove_user_effect m' u.uid u t' added.2 in
      (
        gone.3 v.uid (λ e. ne (sym e)) ∙ added.4 v.uid (λ e. ne (sym e)) ∙ held,
        rw (remove_user_found m' u.uid u added.2) (
            unfold get_by_name in
            ground (
              arith,
              get-drop_names u.uid (lower v.name) m'.by_name t'.distinct,
              name_taken m u room_left,
              same,
            )),
      )
]

get-kick_all :
    (timeout now uid : ℕ) (users : Dict ℕ User) (u : User)
    → get users uid ≡ some u
    → get (kick_all timeout now users) uid ≡ some (kick_user timeout now u)
unfolding kick_all get
get-kick_all timeout now uid [] u h = cc
get-kick_all timeout now uid ((k, w) ∷ users) u h =
    ground (arith, get-kick_all timeout now uid users u)

-- A sweep for idle users reports exactly users who are idle for longer than the limit, and leaves a
-- user connected exactly if that user was connected and is not idle for so long.
pub kick_inactive_effect :
    (m : UserManager) (timeout : Option ℕ) (now uid : ℕ) (u : User)
    → get_user m uid ≡ some u
    → ((v : User)
        → In v (kick_inactive m timeout now).1
        → v.last_active + or_default timeout m.inactivity_timeout < now)
      × ((v : User)
          → get_user (kick_inactive m timeout now).0 uid ≡ some v
          → (v.connected ≡ true) ↔ (
              (u.connected ≡ true)
              × (now ≤ u.last_active + or_default timeout m.inactivity_timeout)))
unfolding kick_inactive get_user
kick_inactive_effect m timeout now uid u h =
    let limit = or_default timeout m.inactivity_timeout in
    (
      (λ v i.
          let listed = (In-keep (is_idle limit now) v (values (kick_all limit now m.users))).0 i in
          unfold is_idle in ground (arith, listed.1)),
      λ v q.
          let e : v ≡ kick_user limit now u =
            ground (arith, get-kick_all limit now uid m.users u h) in
          rw e (unfold kick_user is_idle in ground arith),
    )

-- Whatever their status, the users counted in the lobby, in rooms and in games are users of the table,
-- none of them counted twice.
pub count_users_bounded :
    (m : UserManager)
    → (count_users m).in_lobbies + (count_users m).in_rooms + (count_users m).in_games
      ≤ (count_users m).total
unfolding count_users
count_users_bounded m = counted (all_users m)
  where
    counted :
        (us : List User)
        → count (λ u. in_lobby u.stat) us
            + count (λ u. in_room u.stat) us
            + count (λ u. in_game u.stat) us
          ≤ length us
    counted [] = omega arith
    counted (u ∷ us) = ground (arith, counted us)
