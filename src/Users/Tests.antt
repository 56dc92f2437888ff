-- ===== src/Users/Tests.antt =====
-- Test data for server/user_manager.py, and the theorems applied to it.
use nfs_most_wanted_online.Prelude.{
  ℕ, ◌≤◌, ◌<◌, ◌≡◌, refl, ◌≢◌, ◌⊎◌, true, false, none, some, [], ◌∷◌, arith, length,
}
use nfs_most_wanted_online.Prelude.Eq.{nat_eq}
use nfs_most_wanted_online.Prelude.Dict.{get, put}
use nfs_most_wanted_online.Prelude.Text.{Text, codes, lower}
use nfs_most_wanted_online.Users.{
  User, UserManager, new_user, init, add_user, remove_user, get_user, get_by_name,
}
use nfs_most_wanted_online.Users.Table.{IsUserTable, adds, removes, run, run-init-IsUserTable}
use nfs_most_wanted_online.Users.Effects.{add_user_effect, remove_user_effect, name_lost}

abbrev ann : User
ann = new_user 1 1000 (codes "10.0.0.1") 4000 (codes "Ann")

abbrev ann_too : User
ann_too = new_user 2 1010 (codes "10.0.0.2") 4001 (codes "ANN")

abbrev with_ann : UserManager
with_ann = run (init 5) (adds ann ∷ [])

with_ann-IsUserTable : IsUserTable with_ann
with_ann-IsUserTable = run-init-IsUserTable 5 (adds ann ∷ [])

ann_there : get_user with_ann 1 ≡ some ann
unfolding get_user run init add_user get put new_user
ann_there = refl

run-init-IsUserTable_example : IsUserTable (run (init 5) (adds ann ∷ adds ann_too ∷ removes 1 ∷ []))
run-init-IsUserTable_example = run-init-IsUserTable 5 (adds ann ∷ adds ann_too ∷ removes 1 ∷ [])

add_user_effect_example :
    ((with_ann.max_users ≤ length with_ann.users) × (add_user with_ann ann_too ≡ (with_ann, false)))
    ⊎ ((length with_ann.users < with_ann.max_users)
        × ((add_user with_ann ann_too).1 ≡ true)
        × (get_user (add_user with_ann ann_too).0 ann_too.uid ≡ some ann_too)
        × ((name : Text)
            → lower name ≡ lower ann_too.name
            → get_by_name (add_user with_ann ann_too).0 name ≡ some ann_too)
        × ((uid : ℕ)
            → uid ≢ ann_too.uid
            → get_user (add_user with_ann ann_too).0 uid ≡ get_user with_ann uid))
add_user_effect_example = add_user_effect with_ann ann_too

remove_user_effect_example :
    ((remove_user with_ann 1).1 ≡ some ann)
    × (get_user (remove_user with_ann 1).0 1 ≡ none)
    × ((name : Text) (v : User) → get_by_name (remove_user with_ann 1).0 name ≡ some v → v.uid ≢ 1)
    × ((k : ℕ) → k ≢ 1 → get_user (remove_user with_ann 1).0 k ≡ get_user with_ann k)
    × ((name : Text) (v : User)
        → get_by_name with_ann name ≡ some v
        → v.uid ≢ 1
        → get_by_name (remove_user with_ann 1).0 name ≡ some v)
remove_user_effect_example = remove_user_effect with_ann 1 ann with_ann-IsUserTable ann_there

with_ann_free : length with_ann.users < with_ann.max_users
unfolding run init add_user put
with_ann_free = omega arith

other_uid : ann_too.uid ≢ ann.uid
unfolding new_user
other_uid = omega arith

same_name : lower ann_too.name ≡ lower ann.name
unfolding new_user lower
same_name = refl

name_lost_example :
    let m' = (remove_user (add_user with_ann ann_too).0 ann_too.uid).0 in
    (get_user m' ann.uid ≡ some ann) × (get_by_name m' ann.name ≡ none)
unfolding new_user
name_lost_example =
    name_lost with_ann ann_too ann with_ann-IsUserTable with_ann_free ann_there other_uid same_name
