-- ===== src/Lobby/Tests.antt =====
-- Test data for server/lobby_core.py, and the theorems applied to it.
use nfs_most_wanted_online.Prelude.{ℕ, List, [], ◌∷◌, arith, false, In, length, ◌≤◌, ◌↔◌}
use nfs_most_wanted_online.Prelude.Eq.{nat_eq, text_eq}
use nfs_most_wanted_online.Prelude.Sets.{contains}
use nfs_most_wanted_online.Prelude.Text.{codes}
use nfs_most_wanted_online.Prelude.Dict.{values}
use nfs_most_wanted_online.Prelude.Int.{pos}
use nfs_most_wanted_online.Lobby.State.{LobbyCore, LobbyRoom, initial, initial_filter}
use nfs_most_wanted_online.Lobby.Replies.{listed_rooms}
use nfs_most_wanted_online.Lobby.Listing.{IsAscending, listed_rooms_effect}
use nfs_most_wanted_online.Lobby.Entry.{default_request}
use nfs_most_wanted_online.Lobby.Invariant.{IsLobby}
use nfs_most_wanted_online.Lobby.Leaving.{IsChooser}
use nfs_most_wanted_online.Lobby.Reach.{Op, joins, moves, leaves, run, run-initial-IsLobby}

-- The set yields the occupant that came first.
oldest : List ℕ → ℕ
oldest [] = 0
oldest (i ∷ is) = i

oldest-IsChooser : IsChooser oldest
unfolding oldest contains
oldest-IsChooser i is = ground arith

abbrev evening : List Op
evening =
    joins 100 (codes "a") (codes "Ann") [] (default_request (codes "Race"))
    ∷ joins 101 (codes "b") (codes "Bob") [] (default_request (codes " race "))
    ∷ joins 102 (codes "c") (codes "Cid") [] (default_request [])
    ∷ moves (codes "a") 2
    ∷ leaves (codes "b")
    ∷ []

run-initial-IsLobby_example : IsLobby (run oldest initial evening)
run-initial-IsLobby_example = run-initial-IsLobby oldest oldest-IsChooser evening

abbrev quiet_room : ℕ → LobbyRoom
quiet_room ident = record {
  ident = ident;
  name = codes "Race";
  host_persona = codes "Ann";
  host_user_ident = 50000;
  assistant_user_ident = 0;
  assistant_persona = [];
  game_name = codes "Race";
  params = [];
  limit = 4;
  flags = pos 8;
  min_size = 1;
  system_flags = pos 0;
  event_id = 0;
  event_group_id = 0;
  num_partitions = 1;
  sync_id = ident;
  persist = false;
  occupants = 50000 ∷ [];
  created_at = 100;
}

abbrev two_rooms : LobbyCore
two_rooms = record initial { rooms_by_id = (2, quiet_room 2) ∷ (1, quiet_room 1) ∷ [] }

listed_rooms_effect_example :
    IsAscending (λ (r : LobbyRoom). r.ident) (listed_rooms two_rooms initial_filter)
    × (length (listed_rooms two_rooms initial_filter) ≤ initial_filter.slots)
    × (length (values two_rooms.rooms_by_id) ≤ initial_filter.slots
        → (r : LobbyRoom)
        → In r (listed_rooms two_rooms initial_filter) ↔ In r (values two_rooms.rooms_by_id))
listed_rooms_effect_example = listed_rooms_effect two_rooms initial_filter

abbrev taken_name : LobbyRoom
taken_name = record (quiet_room 1) { name = codes "Room2" }

abbrev one_taken : LobbyCore
one_taken = record initial {
  rooms_by_id = (1, taken_name) ∷ [];
  rooms_by_name = (codes "room2", 1) ∷ [];
  next_room_ident = 2;
}
