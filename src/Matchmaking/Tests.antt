-- ===== src/Matchmaking/Tests.antt =====
-- Test data for server/matchmaking.py, and the theorems applied to it.
use nfs_most_wanted_online.Prelude.{
  ℕ, ◌<◌, ◌≡◌, refl, ◌≢◌, ◌⊎◌, inl, inr, false, none, some, List, [], ◌∷◌, ◌++◌, if◌then◌else◌, In,
  arith, length,
}
use nfs_most_wanted_online.Prelude.Eq.{nat_eq, text_eq}
use nfs_most_wanted_online.Prelude.Sets.{contains, add, Distinct}
use nfs_most_wanted_online.Prelude.Dict.{get, values}
use nfs_most_wanted_online.Prelude.Text.{codes}
use nfs_most_wanted_online.Prelude.Int.{◌≤ℤ◌}
use nfs_most_wanted_online.Rooms
use nfs_most_wanted_online.Rooms.{Room, RoomManager}
use nfs_most_wanted_online.Games.Manager.{GameManager, get_game}
use nfs_most_wanted_online.Users.{User, UserManager, new_user, get_user}
use nfs_most_wanted_online.Matchmaking.{
  default_criteria, QueueEntry, PlayModule, compatible, find_partner, pair_up, match_message,
  notify_match, score_room, find_best_room,
}
use nfs_most_wanted_online.Matchmaking.Pairing.{uids, pair_uids, pair_up_maximal}
use nfs_most_wanted_online.Matchmaking.Queue.{
  is_queued, enqueues, dequeues, periodic, run, run-Distinct, match_game, notify_match_effect,
}
use nfs_most_wanted_online.Matchmaking.Choice.{IsChoice, find_best_room_optimal}

abbrev entry : ℕ → QueueEntry
entry uid = record { uid = uid; criteria = default_criteria; enqueued = 100; matched = false }

abbrev laggard : QueueEntry
laggard = record {
  uid = 3;
  criteria = record default_criteria { ping_max = 40 };
  enqueued = 100;
  matched = false;
}

abbrev three_waiting : List QueueEntry
three_waiting = entry 1 ∷ laggard ∷ entry 2 ∷ []

abbrev user : ℕ → User
user uid = new_user uid 1000 (codes "10.0.0.1") 4000 (codes "Ann")

abbrev two_users : UserManager
two_users = record {
  users = (1, user 1) ∷ (2, user 2) ∷ [];
  by_name = [];
  hw_ids = [];
  cheat_log = [];
  max_users = 5;
  inactivity_timeout = 300;
}

abbrev open_room : Room
open_room = Rooms.new_room 2 100 (Rooms.default_params (codes "Race") 7)

abbrev one_room : RoomManager
one_room = record { rooms = (2, open_room) ∷ []; max_rooms = 5; max_size = 8; counter = 3 }

abbrev no_games : GameManager
no_games = record {
  games = [];
  max_games = 4;
  expire_time = 60;
  games_created = 0;
  games_completed = 0;
  counter = 5;
}

abbrev waiting : PlayModule
waiting = record {
  users = two_users;
  rooms = one_room;
  games = no_games;
  queue = three_waiting;
  timeout = 30;
  outbox = [];
}

waiting-Distinct : Distinct (uids three_waiting)
unfolding contains
waiting-Distinct = (refl, (refl, (refl, tt)))

user_1_there : get_user two_users (entry 1).uid ≡ some (user 1)
unfolding get_user get
user_1_there = refl

user_2_there : get_user two_users (entry 2).uid ≡ some (user 2)
unfolding get_user get
user_2_there = refl

nobody_3 : get_user two_users laggard.uid ≡ none
unfolding get_user get
nobody_3 = refl

-- Two entries that accept a low ping only: neither is paired.
abbrev laggard_too : QueueEntry
laggard_too = record laggard { uid = 4 }

abbrev two_laggards : List QueueEntry
two_laggards = laggard ∷ entry 1 ∷ laggard_too ∷ entry 2 ∷ []

laggard_left : contains 3 (pair_uids (pair_up [] two_laggards)) ≡ false
unfolding contains pair_up compatible find_partner add
laggard_left = refl

laggard_too_left : contains 4 (pair_uids (pair_up [] two_laggards)) ≡ false
unfolding contains pair_up compatible find_partner add
laggard_too_left = refl

apart : laggard.uid ≢ laggard_too.uid
apart = omega arith

pair_up_maximal_example : compatible laggard laggard_too ≡ false
pair_up_maximal_example =
    pair_up_maximal two_laggards laggard laggard_too (inl refl) (inr (inr (inl refl))) apart
      laggard_left laggard_too_left

run-Distinct_example : Distinct (
    uids
      (run waiting (
        enqueues 110 4 default_criteria
        ∷ enqueues 111 1 default_criteria
        ∷ periodic 112
        ∷ dequeues 3
        ∷ periodic 200
        ∷ [])).queue)
run-Distinct_example =
    run-Distinct waiting
      (enqueues 110 4 default_criteria
        ∷ enqueues 111 1 default_criteria
        ∷ periodic 112
        ∷ dequeues 3
        ∷ periodic 200
        ∷ [])
      waiting-Distinct

room_for_a_game : length no_games.games < no_games.max_games
room_for_a_game = omega arith

uids_differ : (entry 1).uid ≢ (entry 2).uid
uids_differ = omega arith

notify_match_effect_example :
    let game = match_game waiting 120 1 2 in
    let msg = match_message game (user 1) (user 2) in
    (get_game (notify_match waiting 120 (entry 1) (entry 2)).games 5 ≡ some game)
    × ((notify_match waiting 120 (entry 1) (entry 2)).outbox
        ≡ []
          ++ (if (user 1).connected
              then if (user 2).connected then (1, msg) ∷ (2, msg) ∷ [] else (1, msg) ∷ []
              else if (user 2).connected
              then (2, msg) ∷ []
              else []))
    × (is_queued (notify_match waiting 120 (entry 1) (entry 2)) 1 ≡ false)
    × (is_queued (notify_match waiting 120 (entry 1) (entry 2)) 2 ≡ false)
    × ((u : ℕ)
        → u ≢ (entry 1).uid
        → u ≢ (entry 2).uid
        → is_queued (notify_match waiting 120 (entry 1) (entry 2)) u ≡ is_queued waiting u)
notify_match_effect_example =
    notify_match_effect waiting 120 (entry 1) (entry 2) (user 1) (user 2) user_1_there user_2_there
      room_for_a_game uids_differ

find_best_room_optimal_example :
    ((find_best_room waiting default_criteria ≡ none)
      × ((x : Room) → In x (values waiting.rooms.rooms) → ¬ IsChoice default_criteria x))
    ⊎ ((r : Room) × (find_best_room waiting default_criteria ≡ some r.id)
        × In r (values waiting.rooms.rooms)
        × IsChoice default_criteria r
        × ((x : Room)
            → In x (values waiting.rooms.rooms)
            → IsChoice default_criteria x
            → score_room x default_criteria ≤ℤ score_room r default_criteria))
find_best_room_optimal_example = find_best_room_optimal waiting default_criteria
