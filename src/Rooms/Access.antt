-- ===== src/Rooms/Access.antt =====
-- Who may enter and who may see a room, and what the operations do to the table.
use nfs_most_wanted_online.Prelude.{
  ℕ, ◌≤◌, ◌<◌, ◌≡◌, refl, ◌≢◌, ◌↔◌, ◌⊎◌, inl, inr, Bool, true, false, not, ◌&&◌, none, some, [],
  ◌∷◌, arith, min, length, leb, Bool-cases, Option-cases, In, In-keep, if◌then◌else◌,
}
use nfs_most_wanted_online.Prelude.Eq.{nat_eq, ◌==◌, text_beq_iff}
use nfs_most_wanted_online.Prelude.Sets.{contains, add, discard, contains-discard, discard_empty}
use nfs_most_wanted_online.Prelude.Dict.{values, get, put, get-put, get-erase}
use nfs_most_wanted_online.Prelude.Text.{Text}
use nfs_most_wanted_online.Rooms.{
  Room, RoomParams, RoomManager, new_room, full, visible_to, can_join, create, get_room, destroy,
  join, leave, visible_rooms_for,
}
use nfs_most_wanted_online.Rooms.Invariant.{IsRoomTable}

-- The ways into a room.
pub data MayJoin (r : Room) (uid : ℕ) (secret : Text) : Type 0 where
  member : contains uid r.members ≡ true → MayJoin r uid secret
  host : length r.members < r.maxsize → uid ≡ r.host_uid → MayJoin r uid secret
  password : length r.members < r.maxsize → r.secret ≢ [] → secret ≡ r.secret → MayJoin r uid secret
  public : length r.members < r.maxsize → r.secret ≡ [] → r.private ≡ false → MayJoin r uid secret

empty_cases : (s : Text) → (s ≡ []) ⊎ (s ≢ [])
empty_cases [] = inl refl
empty_cases (c ∷ s) = inr (λ h. cc)

-- A room lets a user in exactly when the user is a member already, or there is a free place and the
-- user is the host, or knows the password that is set, or no password is set and the room is not
-- private.
pub can_join_iff :
    (r : Room) (uid : ℕ) (secret : Text) → (can_join r uid secret ≡ true) ↔ MayJoin r uid secret
unfolding can_join full
can_join_iff r uid secret = (
  (λ h. elim (Bool-cases (contains uid r.members)) [
    | inl inside ↦ member inside
    | inr outside ↦ elim (Bool-cases (uid == r.host_uid)) [
      | inl hosting ↦ host (ground arith) (ground arith)
      | inr guest ↦ elim (empty_cases r.secret) [
        | inl open_door ↦ public (ground arith) open_door (ground arith)
        | inr locked ↦ password (ground arith) locked (ground (arith, text_beq_iff secret r.secret))
      ]
    ]
  ]),
  admitted,
)
  where
    admitted : MayJoin r uid secret → can_join r uid secret ≡ true
    admitted (member h) = ground arith
    admitted (host h e) = ground arith
    admitted (password h n e) = ground (arith, text_beq_iff secret r.secret)
    admitted (public h n e) = ground arith

-- Who sees a room in a listing.
pub data MaySee (r : Room) (uid : ℕ) (include_private : Bool) : Type 0 where
  listed_all : include_private ≡ true → MaySee r uid include_private
  listed_public : r.private ≡ false → MaySee r uid include_private
  listed_own : uid ≢ 0 → uid ≡ r.host_uid → MaySee r uid include_private
  listed_inside : uid ≢ 0 → contains uid r.members ≡ true → MaySee r uid include_private

visible_to_iff : (r : Room) (uid : ℕ) (p : Bool) → (visible_to r uid p ≡ true) ↔ MaySee r uid p
unfolding visible_to
visible_to_iff r uid p = (
  (λ h. elim (Bool-cases p) [
    | inl all ↦ listed_all all
    | inr some_only ↦ elim (Bool-cases r.private) [
      | inr shown ↦ listed_public shown
      | inl hidden ↦ elim (Bool-cases (contains uid r.members)) [
        | inl inside ↦ listed_inside (ground arith) inside
        | inr outside ↦ listed_own (ground arith) (ground arith)
      ]
    ]
  ]),
  seen,
)
  where
    seen : MaySee r uid p → visible_to r uid p ≡ true
    seen (listed_all h) = ground arith
    seen (listed_public h) = ground arith
    seen (listed_own n h) = ground arith
    seen (listed_inside n h) = ground arith

-- A listing for a user holds exactly the rooms of the table that are public, that the user hosts or
-- is in, or that are asked for with `include_private`.
pub visible_rooms_for_iff :
    (m : RoomManager) (uid : ℕ) (p : Bool) (r : Room)
    → In r (visible_rooms_for m uid p) ↔ (In r (values m.rooms) × MaySee r uid p)
unfolding visible_rooms_for
visible_rooms_for_iff m uid p r =
    let listed = In-keep (λ room. visible_to room uid p) r (values m.rooms) in
    let see = visible_to_iff r uid p in
    ((λ h. let k = listed.0 h in (k.0, see.0 k.1)), λ h. listed.1 (h.0, see.1 h.1))

-- The room that `join` leaves under the key, if it lets the user in.
abbrev pub joined : Room → ℕ → Room
joined r uid = record r { members = add uid r.members }

-- A join changes the table only if it succeeds. It then found a room that admits the user; under that
-- room's key the table holds the room with the user added, and under any other key what it held.
pub join_effect :
    (m : RoomManager) (room_id uid : ℕ) (secret : Text)
    → (((join m room_id uid secret).1 ≡ false) × ((join m room_id uid secret).0 ≡ m))
      ⊎ ((r : Room) × ((join m room_id uid secret).1 ≡ true)
          × (get_room m room_id ≡ some r)
          × MayJoin r uid secret
          × ((j : ℕ)
              → get_room (join m room_id uid secret).0 j
                ≡ (if room_id == j then some (joined r uid) else get_room m j)))
unfolding join get_room
join_effect m room_id uid secret = elim (Option-cases (get m.rooms room_id)) [
  | inl e ↦ inl (rw (e, join) refl, rw (e, join) refl)
  | inr (r, e) ↦ elim (Bool-cases (can_join r uid secret)) [
    | inr refused ↦ inl (ground arith, ground arith)
    | inl ok ↦ inr (
      r,
      ground arith,
      e,
      (can_join_iff r uid secret).0 ok,
      λ j. rw (e, join) (rw ok (get-put m.rooms room_id j (joined r uid))),
    )
  ]
]

-- The user is the only member, or the room has none.
abbrev pub IsLast : ℕ → Room → Type 0
IsLast uid r = (v : ℕ) → v ≢ uid → contains v r.members ≡ false

get_room-leave :
    (m : RoomManager) (room_id uid j : ℕ) (r : Room)
    → get_room m room_id ≡ some r
    → get_room (leave m room_id uid) j ≡ (
        if room_id == j
        then if length (discard uid r.members) == 0 && not (r.host_uid == 0)
          then none
          else some (record r { members = discard uid r.members })
        else get_room m j)
unfolding leave get_room destroy
get_room-leave m room_id uid j r e =
    let left : Room = record r { members = discard uid r.members } in
    rw (e, leave)
      (ground
        (arith, get-put m.rooms room_id j left, get-erase (put m.rooms room_id left) room_id j))

-- When a user leaves, the table under any other key is as it was, and the room is gone exactly when
-- nobody else was in it and it is no server room (host 0); otherwise it stays, without the user and
-- with all other members.
pub leave_effect :
    (m : RoomManager) (room_id uid : ℕ) (r : Room)
    → get_room m room_id ≡ some r
    → ((j : ℕ) → j ≢ room_id → get_room (leave m room_id uid) j ≡ get_room m j)
      × ((get_room (leave m room_id uid) room_id ≡ none) ↔ ((r.host_uid ≢ 0) × IsLast uid r))
      × ((s : Room)
          → get_room (leave m room_id uid) room_id ≡ some s
          → (v : ℕ) → contains v s.members ≡ (if uid == v then false else contains v r.members))
leave_effect m room_id uid r e = (
  (λ j ne. ground (arith, get_room-leave m room_id uid j r e)),
  (
    (λ h.
        let closes : (length (discard uid r.members) ≡ 0) × (r.host_uid ≢ 0) =
          ground (arith, get_room-leave m room_id uid room_id r e) in
        (closes.1, (discard_empty uid r.members).0 closes.0)),
    λ h.
        let empty = (discard_empty uid r.members).1 h.1 in
        ground (arith, get_room-leave m room_id uid room_id r e),
  ),
  λ s h v.
      ground (arith, get_room-leave m room_id uid room_id r e, contains-discard uid v r.members),
)

counter-unused : (m : RoomManager) → IsRoomTable m → get m.rooms m.counter ≡ none
counter-unused m v = elim (Option-cases (get m.rooms m.counter)) [
  | inl e ↦ e
  | inr (r, e) ↦ absurd (omega (arith, (v.sound m.counter r e).issued))
]

-- A new room is stored, empty and under an identifier that was free, exactly when there is a place
-- for it; no other room changes, and a refused call changes nothing.
pub create_effect :
    (m : RoomManager) (now : ℕ) (p : RoomParams)
    → IsRoomTable m
    → (((create m now p).1 ≡ none) × ((create m now p).0 ≡ m) × (m.max_rooms ≤ length m.rooms))
      ⊎ ((r : Room) × ((create m now p).1 ≡ some r)
          × (length m.rooms < m.max_rooms)
          × (get_room m r.id ≡ none)
          × (r.members ≡ [])
          × ((j : ℕ)
              → get_room (create m now p).0 j ≡ (if r.id == j then some r else get_room m j)))
unfolding create get_room new_room
create_effect m now p v = elim (Bool-cases (leb m.max_rooms (length m.rooms))) [
  | inl crowded ↦ inl (rw crowded refl, rw crowded refl, ground arith)
  | inr room ↦ inr (
    new_room m.counter now (record p { maxsize = min p.maxsize m.max_size }),
    rw room refl,
    ground arith,
    counter-unused m v,
    refl,
    λ j. rw room (get-put m.rooms m.counter j _),
  )
]
