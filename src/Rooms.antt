-- ===== src/Rooms.antt =====
-- Class Room and class RoomManager of server/room_manager.py.
pub mod Invariant
pub mod Access
mod Tests
use nfs_most_wanted_online.Prelude.{
  ℕ, suc, Bool, true, false, not, ◌&&◌, ◌||◌, Option, none, some, List, [], ◌∷◌, min, length, keep,
  leb, if◌then◌else◌,
}
use nfs_most_wanted_online.Prelude.Eq.{◌==◌, nat_eq, text_eq}
use nfs_most_wanted_online.Prelude.Sets.{contains, add, discard}
use nfs_most_wanted_online.Prelude.Dict.{Dict, values, get, put, erase}
use nfs_most_wanted_online.Prelude.Text.{Text, codes, truthy, or_text, upper}

pub record Room : Type 0 where
  pub id : ℕ
  pub name : Text
  pub host_uid : ℕ
  pub maxsize : ℕ
  pub minsize : ℕ
  pub custflags : ℕ
  pub sysflags : ℕ
  pub secret : Text
  pub private : Bool
  pub matched : Bool
  pub type : Text
  pub created_at : ℕ
  pub members : List ℕ
  pub door_msg : Text
  pub assistant_uid : ℕ
  pub persist : Bool

-- The arguments of `Room(...)` and of `RoomManager.create`.
pub record RoomParams : Type 0 where
  pub name : Text
  pub host_uid : ℕ
  pub maxsize : ℕ
  pub minsize : ℕ
  pub custflags : ℕ
  pub sysflags : ℕ
  pub secret : Text
  pub private : Bool
  pub matched : Bool
  pub room_type : Text

-- The arguments that `Room.__init__` defaults.
abbrev pub default_params : Text → ℕ → RoomParams
default_params name host_uid = record {
  name = name;
  host_uid = host_uid;
  maxsize = 8;
  minsize = 2;
  custflags = 0;
  sysflags = 0;
  secret = [];
  private = false;
  matched = false;
  room_type = codes "PUBLIC";
}

-- `Room.__init__`, with the value that the class counter had and the time.
unfoldable pub new_room : ℕ → ℕ → RoomParams → Room
new_room id now p = record {
  id = id;
  name = p.name;
  host_uid = p.host_uid;
  maxsize = p.maxsize;
  minsize = p.minsize;
  custflags = p.custflags;
  sysflags = p.sysflags;
  secret = p.secret;
  private = p.private;
  matched = p.matched;
  type = upper (or_text p.room_type (if p.private then codes "PRIVATE" else codes "PUBLIC"));
  created_at = now;
  members = [];
  door_msg = [];
  assistant_uid = 0;
  persist = false;
}

abbrev pub room_count : Room → ℕ
room_count r = length r.members

unfoldable pub full : Room → Bool
full r = leb r.maxsize (room_count r)

unfoldable pub visible_to : Room → ℕ → Bool → Bool
visible_to r uid include_private =
    if include_private
    then true
    else if not (uid == 0) && (uid == r.host_uid || contains uid r.members)
    then true
    else if r.private
    then false
    else true

unfoldable pub can_join : Room → ℕ → Text → Bool
unfolding full
can_join r uid secret =
    if full r && not (contains uid r.members)
    then false
    else if uid == r.host_uid || contains uid r.members
    then true
    else if truthy r.secret && not (secret == r.secret)
    then false
    else if r.private && not (truthy r.secret)
    then false
    else true

-- `counter` is the class attribute `Room._counter`.
pub record RoomManager : Type 0 where
  pub rooms : Dict ℕ Room
  pub max_rooms : ℕ
  pub max_size : ℕ
  pub counter : ℕ

abbrev pub lobby_params : ℕ → RoomParams
lobby_params max_size = record (default_params (codes "Lobby") 0) { maxsize = max_size }

unfoldable pub auto_create_rooms : ℕ → RoomManager → RoomManager
auto_create_rooms now m = record m {
  rooms = put m.rooms m.counter (new_room m.counter now (lobby_params m.max_size));
  counter = suc m.counter;
}

-- `RoomManager.__init__` with the settings ROOMS, ROOMMAX and AUTOROOM.
unfoldable pub init : ℕ → ℕ → ℕ → ℕ → Bool → RoomManager
unfolding auto_create_rooms
init counter now max_rooms max_size autoroom =
    let m : RoomManager = record {
      rooms = [];
      max_rooms = max_rooms;
      max_size = max_size;
      counter = counter;
    } in
    if autoroom then auto_create_rooms now m else m

unfoldable pub create : RoomManager → ℕ → RoomParams → RoomManager × Option Room
create m now p =
    if leb m.max_rooms (length m.rooms)
    then (m, none)
    else let room = new_room m.counter now (record p { maxsize = min p.maxsize m.max_size }) in
      (record m { rooms = put m.rooms m.counter room; counter = suc m.counter }, some room)

unfoldable pub get_room : RoomManager → ℕ → Option Room
get_room m room_id = get m.rooms room_id

unfoldable pub destroy : RoomManager → ℕ → RoomManager × Option Room
destroy m room_id = (record m { rooms = erase m.rooms room_id }, get_room m room_id)

-- A change of the room object that the dictionary holds under `room_id`.
abbrev set_members : RoomManager → ℕ → Room → List ℕ → RoomManager
set_members m room_id room members = record m {
  rooms = put m.rooms room_id (record room { members = members });
}

join_found : RoomManager → ℕ → ℕ → Text → Option Room → RoomManager × Bool
join_found m room_id uid secret none = (m, false)
join_found m room_id uid secret (some room) =
    if can_join room uid secret
    then (set_members m room_id room (add uid room.members), true)
    else (m, false)

unfoldable pub join : RoomManager → ℕ → ℕ → Text → RoomManager × Bool
unfolding join_found
join m room_id uid secret = join_found m room_id uid secret (get_room m room_id)

leave_found : RoomManager → ℕ → ℕ → Option Room → RoomManager
leave_found m room_id uid none = m
leave_found m room_id uid (some room) =
    let members = discard uid room.members in
    let left = set_members m room_id room members in
    if length members == 0 && not (room.host_uid == 0) then (destroy left room_id).0 else left

unfoldable pub leave : RoomManager → ℕ → ℕ → RoomManager
unfolding leave_found
leave m room_id uid = leave_found m room_id uid (get_room m room_id)

unfoldable pub visible_rooms_for : RoomManager → ℕ → Bool → List Room
visible_rooms_for m uid include_private =
    keep (λ room. visible_to room uid include_private) (values m.rooms)

pub data Op : Type 0 where
  creates : ℕ → RoomParams → Op
  destroys : ℕ → Op
  joins : ℕ → ℕ → Text → Op
  leaves : ℕ → ℕ → Op

unfoldable pub step : RoomManager → Op → RoomManager
step m (creates now p) = (create m now p).0
step m (destroys room_id) = (destroy m room_id).0
step m (joins room_id uid secret) = (join m room_id uid secret).0
step m (leaves room_id uid) = leave m room_id uid

unfoldable pub run : RoomManager → List Op → RoomManager
unfolding step
run m [] = m
run m (o ∷ ops) = run (step m o) ops
