-- ===== src/Rooms/Invariant.antt =====
-- The well-formedness of the room table, kept by every operation of RoomManager.
use nfs_most_wanted_online.Prelude.{
  ℕ, suc, ◌≤◌, ◌<◌, ◌≡◌, refl, Bool, true, false, some, List, [], ◌∷◌, arith, max, length, leb,
  Bool-cases, Option-cases, inl, inr,
}
use nfs_most_wanted_online.Prelude.Eq.{nat_eq}
use nfs_most_wanted_online.Prelude.Sets.{
  add, Distinct, add-Distinct, discard-Distinct, length-add, length-discard-le,
}
use nfs_most_wanted_online.Prelude.Dict.{
  Dict, Every, put-Every, erase-Every, get, put, length-put, length-put-le, length-erase-le,
}
use nfs_most_wanted_online.Prelude.Text.{Text}
use nfs_most_wanted_online.Rooms.{
  Room, RoomParams, RoomManager, Op, creates, destroys, joins, leaves, new_room, full, can_join,
  init, auto_create_rooms, create, get_room, destroy, join, leave, step, run,
}

-- A room that is stored under `k` of a manager with room size limit `size` and counter `counter`.
pub record IsSound (size counter k : ℕ) (r : Room) : Type 0 where
  pub own_key : r.id ≡ k
  pub issued : k < counter
  pub distinct : Distinct r.members
  pub within : length r.members ≤ r.maxsize
  pub sized : r.maxsize ≤ size

abbrev AllSound : ℕ → ℕ → Dict ℕ Room → Type 0
AllSound size counter = Every (IsSound size counter)

pub record IsRoomTable (m : RoomManager) : Type 0 where
  pub bounded : length m.rooms ≤ max 1 m.max_rooms
  pub sound : AllSound m.max_size m.counter m.rooms

AllSound-later : (size c : ℕ) (d : Dict ℕ Room) → AllSound size c d → AllSound size (suc c) d
AllSound-later size c d all j q h = ground (arith, all j q h)

new_room-IsSound :
    (size k now : ℕ) (p : RoomParams) → p.maxsize ≤ size → IsSound size (suc k) k (new_room k now p)
unfolding new_room
new_room-IsSound size k now p h = record {
  own_key = refl;
  issued = omega arith;
  distinct = tt;
  within = omega arith;
  sized = h;
}

put_new-AllSound :
    (size c now : ℕ) (p : RoomParams) (d : Dict ℕ Room)
    → p.maxsize ≤ size
    → AllSound size c d
    → AllSound size (suc c) (put d c (new_room c now p))
put_new-AllSound size c now p d h all =
    put-Every (IsSound size (suc c)) d c _ (AllSound-later size c d all)
      (new_room-IsSound size c now p h)

init-IsRoomTable :
    (counter now max_rooms max_size : ℕ) (autoroom : Bool)
    → IsRoomTable (init counter now max_rooms max_size autoroom)
unfolding init auto_create_rooms
init-IsRoomTable counter now max_rooms max_size true = record {
  bounded = grind (arith, length-put-le);
  sound = put_new-AllSound max_size counter now _ [] (omega arith) (unfold get in λ k r h. cc);
}
init-IsRoomTable counter now max_rooms max_size false = record {
  bounded = omega arith;
  sound = unfold get in λ k r h. cc;
}

create-IsRoomTable :
    (m : RoomManager) (now : ℕ) (p : RoomParams) → IsRoomTable m → IsRoomTable (create m now p).0
unfolding create
create-IsRoomTable m now p v = elim (Bool-cases (leb m.max_rooms (length m.rooms))) [
  | inl crowded ↦ rw crowded v
  | inr room ↦ rw room (record {
    bounded = grind (arith, length-put-le);
    sound = put_new-AllSound m.max_size m.counter now _ m.rooms (omega arith) v.sound;
  })
]

destroy-IsRoomTable :
    (m : RoomManager) (room_id : ℕ) → IsRoomTable m → IsRoomTable (destroy m room_id).0
unfolding destroy
destroy-IsRoomTable m room_id v = record {
  bounded = omega (arith, v.bounded, length-erase-le m.rooms room_id);
  sound = erase-Every (IsSound m.max_size m.counter) m.rooms room_id v.sound;
}

-- A write back to a key that is there.
set_members-IsRoomTable :
    (m : RoomManager) (k : ℕ) (r : Room) (members : List ℕ)
    → IsRoomTable m
    → get m.rooms k ≡ some r
    → Distinct members
    → length members ≤ r.maxsize
    → IsRoomTable (record m { rooms = put m.rooms k (record r { members = members }) })
set_members-IsRoomTable m k r members v h d w = record {
  bounded = ground (arith, v.bounded, length-put m.rooms k (record r { members = members }));
  sound = put-Every (IsSound m.max_size m.counter) m.rooms k _ v.sound (
      let s = v.sound k r h in
      record { own_key = s.own_key; issued = s.issued; distinct = d; within = w; sized = s.sized });
}

-- Whoever is let in is a member already, or finds a free place.
can_join-room :
    (r : Room) (uid : ℕ) (secret : Text)
    → can_join r uid secret ≡ true
    → length r.members ≤ r.maxsize
    → length (add uid r.members) ≤ r.maxsize
unfolding can_join full
can_join-room r uid secret h w = ground (arith, length-add uid r.members)

join-IsRoomTable :
    (m : RoomManager) (room_id uid : ℕ) (secret : Text)
    → IsRoomTable m
    → IsRoomTable (join m room_id uid secret).0
unfolding join get_room
join-IsRoomTable m room_id uid secret v = elim (Option-cases (get m.rooms room_id)) [
  | inl e ↦ rw (e, join) v
  | inr (r, e) ↦
      rw (e, join)
        (elim (Bool-cases (can_join r uid secret)) [
          | inl ok ↦ rw ok (
              let s = v.sound room_id r e in
              set_members-IsRoomTable m room_id r _ v e (add-Distinct uid r.members s.distinct)
                (can_join-room r uid secret ok s.within))
          | inr refused ↦ rw refused v
        ])
]

leave-IsRoomTable :
    (m : RoomManager) (room_id uid : ℕ) → IsRoomTable m → IsRoomTable (leave m room_id uid)
unfolding leave get_room
leave-IsRoomTable m room_id uid v = elim (Option-cases (get m.rooms room_id)) [
  | inl e ↦ rw (e, leave) v
  | inr (r, e) ↦
      rw (e, leave)
        (let s = v.sound room_id r e in
          let kept =
            set_members-IsRoomTable m room_id r _ v e (discard-Distinct uid r.members s.distinct)
              (omega (arith, s.within, length-discard-le uid r.members)) in
          ground (arith, kept, destroy-IsRoomTable _ room_id kept))
]

step-IsRoomTable : (m : RoomManager) (o : Op) → IsRoomTable m → IsRoomTable (step m o)
unfolding step
step-IsRoomTable m (creates now p) v = create-IsRoomTable m now p v
step-IsRoomTable m (destroys room_id) v = destroy-IsRoomTable m room_id v
step-IsRoomTable m (joins room_id uid secret) v = join-IsRoomTable m room_id uid secret v
step-IsRoomTable m (leaves room_id uid) v = leave-IsRoomTable m room_id uid v

run-IsRoomTable : (m : RoomManager) (ops : List Op) → IsRoomTable m → IsRoomTable (run m ops)
unfolding run
run-IsRoomTable m [] v = v
run-IsRoomTable m (o ∷ ops) v = run-IsRoomTable (step m o) ops (step-IsRoomTable m o v)

-- From the start of the server, with or without the lobby room, every sequence of create, destroy,
-- join and leave keeps the room table valid: at most ROOMS rooms (one, if the lobby room is all that
-- ROOMS allows), each stored under its own identifier, which the counter has passed, with no member
-- twice, at most `maxsize` members, and `maxsize` at most ROOMMAX.
pub run-init-IsRoomTable :
    (counter now max_rooms max_size : ℕ) (autoroom : Bool) (ops : List Op)
    → IsRoomTable (run (init counter now max_rooms max_size autoroom) ops)
run-init-IsRoomTable counter now max_rooms max_size autoroom ops =
    run-IsRoomTable _ ops (init-IsRoomTable counter now max_rooms max_size autoroom)
