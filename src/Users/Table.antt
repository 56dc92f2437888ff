-- ===== src/Users/Table.antt =====
-- The invariant of the user table of server/user_manager.py.
use nfs_most_wanted_online.Prelude.{
  ℕ, ◌≤◌, ◌≡◌, refl, inl, inr, true, false, List, [], ◌∷◌, arith, length, leb, Bool-cases,
  Option-cases, is_some, All,
}
use nfs_most_wanted_online.Prelude.Eq.{nat_eq, ◌==◌, text_eq}
use nfs_most_wanted_online.Prelude.Sets.{Distinct, contains}
use nfs_most_wanted_online.Prelude.Dict.{
  keys, put-Distinct, Dict, Every, put-Every, erase-Every, values, get, put, erase, get-put,
  get-erase, length-put-le, length-erase-le, put-All,
}
use nfs_most_wanted_online.Prelude.Text.{Text, lower}
use nfs_most_wanted_online.Users.{User, UserManager, init, add_user, drop_names, remove_user}

-- The name leads to a user of the table.
abbrev IsLive : Dict ℕ User → ℕ → Type 0
IsLive users uid = is_some (get users uid) ≡ true

pub record IsUserTable (m : UserManager) : Type 0 where
  pub bounded : length m.users ≤ m.max_users
  pub keyed : Every (λ uid u. u.uid ≡ uid) m.users
  pub named : All (IsLive m.users) (values m.by_name)
  pub distinct : Distinct (keys m.by_name)

init-IsUserTable : (limit : ℕ) → IsUserTable (init limit)
unfolding init get
init-IsUserTable limit = record {
  bounded = ground arith;
  keyed = λ k u h. cc;
  named = tt;
  distinct = tt;
}

-- A write to the table keeps every name alive.
put-IsLive :
    (users : Dict ℕ User) (u : User) (uids : List ℕ)
    → All (IsLive users) uids
    → All (IsLive (put users u.uid u)) uids
put-IsLive users u [] h = tt
put-IsLive users u (uid ∷ uids) h =
    (ground (arith, get-put users u.uid uid u), put-IsLive users u uids h.1)

drop-IsLive :
    (users : Dict ℕ User) (uid : ℕ) (names : Dict Text ℕ)
    → All (IsLive users) (values names)
    → All (IsLive (erase users uid)) (values (drop_names uid names))
unfolding drop_names
drop-IsLive users uid [] h = tt
drop-IsLive users uid ((key, mapped) ∷ names) h = elim (Bool-cases (mapped == uid)) [
  | inl same ↦ rw same (drop-IsLive users uid names h.1)
  | inr other ↦
      rw other (ground (arith, get-erase users uid mapped), drop-IsLive users uid names h.1)
]

contains-keys-drop_names :
    (uid : ℕ) (key : Text) (names : Dict Text ℕ)
    → contains key (keys names) ≡ false
    → contains key (keys (drop_names uid names)) ≡ false
unfolding drop_names contains
contains-keys-drop_names uid key [] h = refl
contains-keys-drop_names uid key ((k, mapped) ∷ names) h =
    ground (arith, contains-keys-drop_names uid key names)

drop_names-Distinct :
    (uid : ℕ) (names : Dict Text ℕ) → Distinct (keys names) → Distinct (keys (drop_names uid names))
unfolding drop_names
drop_names-Distinct uid [] d = tt
drop_names-Distinct uid ((k, mapped) ∷ names) d =
    ground (arith, drop_names-Distinct uid names d.1, contains-keys-drop_names uid k names d.0)

-- Adding a user keeps the table valid.
pub add_user-IsUserTable :
    (m : UserManager) (u : User) → IsUserTable m → IsUserTable (add_user m u).0
unfolding add_user
add_user-IsUserTable m u v = elim (Bool-cases (leb m.max_users (length m.users))) [
  | inl crowded ↦ rw crowded v
  | inr room_left ↦ rw room_left (record {
    bounded = grind (arith, length-put-le);
    keyed = put-Every (λ uid x. x.uid ≡ uid) m.users u.uid u v.keyed refl;
    named =
        put-All (IsLive (put m.users u.uid u)) m.by_name (lower u.name) u.uid
          (put-IsLive m.users u (values m.by_name) v.named)
          (ground (arith, get-put m.users u.uid u.uid u));
    distinct = put-Distinct m.by_name (lower u.name) u.uid v.distinct;
  })
]

remove_user-IsUserTable :
    (m : UserManager) (uid : ℕ) → IsUserTable m → IsUserTable (remove_user m uid).0
unfolding remove_user
remove_user-IsUserTable m uid v = elim (Option-cases (get m.users uid)) [
  | inl e ↦ rw (e, remove_user) v
  | inr (u, e) ↦
      rw (e, remove_user)
        (record {
          bounded = omega (arith, v.bounded, length-erase-le m.users uid);
          keyed = erase-Every (λ k x. x.uid ≡ k) m.users uid v.keyed;
          named = drop-IsLive m.users uid m.by_name v.named;
          distinct = drop_names-Distinct uid m.by_name v.distinct;
        })
]

pub data Op : Type 0 where
  adds : User → Op
  removes : ℕ → Op

unfoldable pub step : UserManager → Op → UserManager
step m (adds u) = (add_user m u).0
step m (removes uid) = (remove_user m uid).0

unfoldable pub run : UserManager → List Op → UserManager
unfolding step
run m [] = m
run m (o ∷ ops) = run (step m o) ops

step-IsUserTable : (m : UserManager) (o : Op) → IsUserTable m → IsUserTable (step m o)
unfolding step
step-IsUserTable m (adds u) v = add_user-IsUserTable m u v
step-IsUserTable m (removes uid) v = remove_user-IsUserTable m uid v

run-IsUserTable : (m : UserManager) (ops : List Op) → IsUserTable m → IsUserTable (run m ops)
unfolding run
run-IsUserTable m [] v = v
run-IsUserTable m (o ∷ ops) v = run-IsUserTable (step m o) ops (step-IsUserTable m o v)

-- Whatever users come and go, the table holds at most as many as are allowed (256 if the setting is
-- 0), each under its own uid, and every name in use leads to a user who is still there.
pub run-init-IsUserTable : (limit : ℕ) (ops : List Op) → IsUserTable (run (init limit) ops)
run-init-IsUserTable limit ops = run-IsUserTable _ ops (init-IsUserTable limit)
