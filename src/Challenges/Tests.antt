-- ===== src/Challenges/Tests.antt =====
-- Test data for the challenges of server/batch.py, and the theorems applied to it.
use nfs_most_wanted_online.Prelude.{
  ℕ, ◌+◌, ◌≤◌, ◌≡◌, ◌≢◌, ◌⊎◌, refl, true, false, ◌&&◌, leb, some, none, [], ◌∷◌, arith,
  if◌then◌else◌,
}
use nfs_most_wanted_online.Prelude.Eq.{◌==◌, nat_eq, text_eq}
use nfs_most_wanted_online.Prelude.Dict.{get}
use nfs_most_wanted_online.Prelude.Text.{codes}
use nfs_most_wanted_online.Users.{User, UserManager, new_user, get_user, get_by_name}
use nfs_most_wanted_online.Challenges.{
  Challenge, ChallengeManager, accepted, rejected, idle, new_challenge, in_state, challenge,
  respond,
}
use nfs_most_wanted_online.Challenges.Effects.{challenge_effect, respond_effect, respond_again}

abbrev racer : ℕ → User
racer uid = record (new_user uid 1000 (codes "10.0.0.1") 4000 (codes "Ann")) { room = 2 }

abbrev two_racers : UserManager
two_racers = record {
  users = (1, racer 1) ∷ (2, racer 2) ∷ [];
  by_name = (codes "bob", 2) ∷ [];
  hw_ids = [];
  cheat_log = [];
  max_users = 5;
  inactivity_timeout = 300;
}

abbrev open_challenge : Challenge
open_challenge = new_challenge 100 5 1 2 2

abbrev one_open : ChallengeManager
one_open = record { users = two_racers; chals = (5, open_challenge) ∷ []; counter = 6; outbox = [] }

open_there : get one_open.chals 5 ≡ some open_challenge
unfolding get
open_there = refl

challenge_effect_example :
    (((challenge one_open 100 1 (codes "Bob")).1 ≡ false)
      × ((challenge one_open 100 1 (codes "Bob")).0 ≡ one_open)
      × ((get_user one_open.users 1 ≡ none)
          ⊎ (get_by_name one_open.users (codes "Bob") ≡ none)
          ⊎ ((a b : User) × (get_user one_open.users 1 ≡ some a)
              × (get_by_name one_open.users (codes "Bob") ≡ some b)
              × ((a.room ≡ 0) ⊎ (a.room ≢ b.room)))))
    ⊎ ((a b : User) × ((challenge one_open 100 1 (codes "Bob")).1 ≡ true)
        × (get_user one_open.users 1 ≡ some a)
        × (get_by_name one_open.users (codes "Bob") ≡ some b)
        × (a.room ≢ 0)
        × (a.room ≡ b.room)
        × ((j : ℕ)
            → get (challenge one_open 100 1 (codes "Bob")).0.chals j ≡ (
                if 6 == j
                then some (new_challenge 100 6 1 b.uid a.room)
                else get one_open.chals j)))
challenge_effect_example = challenge_effect one_open 100 1 (codes "Bob")

respond_effect_example :
    let out = respond one_open 110 5 2 true in
    ((get one_open.chals 5 ≡ none) × (out ≡ (one_open, false)))
    ⊎ ((c : Challenge) × (get one_open.chals 5 ≡ some c) × (c.uid1 ≢ 2) × (out ≡ (one_open, false)))
    ⊎ ((c : Challenge) × (get one_open.chals 5 ≡ some c)
        × (c.uid1 ≡ 2)
        × (out.1 ≡ (true && leb 110 (c.created + 30)))
        × ((j : ℕ)
            → get out.0.chals j ≡ (
                if 5 == j
                then some (
                    in_state c (
                      if leb 110 (c.created + 30)
                      then if true then accepted else rejected
                      else idle))
                else get one_open.chals j)))
respond_effect_example = respond_effect one_open 110 5 2 true

in_time : 120 ≤ open_challenge.created + 30
in_time = omega arith

respond_again_example :
    let m' = (respond one_open 110 5 2 false).0 in
    (get m'.chals 5 ≡ some (in_state open_challenge rejected))
    × ((respond m' 120 5 2 true).1 ≡ true)
    × (get (respond m' 120 5 2 true).0.chals 5 ≡ some (in_state open_challenge accepted))
respond_again_example =
    respond_again one_open 110 120 5 2 open_challenge open_there refl (omega arith) in_time
