-- ===== src/Rooms/Tests.antt =====
-- Test data for server/room_manager.py's rooms, and the theorems applied to it.
use nfs_most_wanted_online.Prelude.{
  ℕ, ◌≡◌, refl, ◌≢◌, ◌⊎◌, ◌↔◌, true, false, none, some, [], ◌∷◌, if◌then◌else◌,
}
use nfs_most_wanted_online.Prelude.Eq.{◌==◌, nat_eq}
use nfs_most_wanted_online.Prelude.Sets.{contains}
use nfs_most_wanted_online.Prelude.Dict.{get}
use nfs_most_wanted_online.Prelude.Text.{codes}
use nfs_most_wanted_online.Rooms.{
  Room, RoomParams, RoomManager, default_params, new_room, init, get_room, join, leave, creates,
  joins, leaves, destroys, run,
}
use nfs_most_wanted_online.Rooms.Invariant.{IsRoomTable, run-init-IsRoomTable}
use nfs_most_wanted_online.Rooms.Access.{MayJoin, IsLast, joined, join_effect, leave_effect}

abbrev race_params : RoomParams
race_params = record (default_params (codes "Race") 7) { secret = codes "pw"; private = true }

abbrev race_room : Room
race_room = record (new_room 2 100 race_params) { members = 7 ∷ 8 ∷ [] }

abbrev race_table : RoomManager
race_table = record { rooms = (2, race_room) ∷ []; max_rooms = 5; max_size = 8; counter = 3 }

run-init-IsRoomTable_example : IsRoomTable (
    run (init 1 100 2 8 true) (
      creates 101 race_params
      ∷ joins 2 7 []
      ∷ joins 2 8 (codes "pw")
      ∷ leaves 2 7
      ∷ destroys 1
      ∷ []))
run-init-IsRoomTable_example =
    run-init-IsRoomTable 1 100 2 8 true (
      creates 101 race_params
      ∷ joins 2 7 []
      ∷ joins 2 8 (codes "pw")
      ∷ leaves 2 7
      ∷ destroys 1
      ∷ [])

join_effect_example :
    (((join race_table 2 9 (codes "pw")).1 ≡ false)
      × ((join race_table 2 9 (codes "pw")).0 ≡ race_table))
    ⊎ ((r : Room) × ((join race_table 2 9 (codes "pw")).1 ≡ true)
        × (get_room race_table 2 ≡ some r)
        × MayJoin r 9 (codes "pw")
        × ((j : ℕ)
            → get_room (join race_table 2 9 (codes "pw")).0 j
              ≡ (if 2 == j then some (joined r 9) else get_room race_table j)))
join_effect_example = join_effect race_table 2 9 (codes "pw")

race_room_there : get_room race_table 2 ≡ some race_room
unfolding get_room get
race_room_there = refl

leave_effect_example :
    ((j : ℕ) → j ≢ 2 → get_room (leave race_table 2 7) j ≡ get_room race_table j)
    × ((get_room (leave race_table 2 7) 2 ≡ none) ↔ ((race_room.host_uid ≢ 0) × IsLast 7 race_room))
    × ((s : Room)
        → get_room (leave race_table 2 7) 2 ≡ some s
        → (v : ℕ) → contains v s.members ≡ (if 7 == v then false else contains v race_room.members))
leave_effect_example = leave_effect race_table 2 7 race_room race_room_there

abbrev lobby_table : RoomManager
lobby_table = run (init 1 100 2 8 true) []
