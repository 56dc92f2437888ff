-- ===== src/Lobby/Entry.antt =====
-- `join_or_create_room`, `move_user_to_room`, `leave_room` and the messages of server/lobby_core.py.
use nfs_most_wanted_online.Prelude.{
  ℕ, suc, ◌-◌, Bool, true, false, Option, none, some, List, [], ◌∷◌, ◌++◌, length, drop, max,
}
use nfs_most_wanted_online.Prelude.Eq.{nat_eq, text_eq}
use nfs_most_wanted_online.Prelude.Dict.{get, put}
use nfs_most_wanted_online.Prelude.Text.{Text, codes, or_text, strip, show}
use nfs_most_wanted_online.Prelude.Int.{ℤ, pos}
use nfs_most_wanted_online.Lobby.State.{
  LobbyUser, LobbyRoom, LobbyCore, Message, room_name_key, clamp,
}
use nfs_most_wanted_online.Lobby.Occupancy.{
  ensure_user, get_room, find_room_by_name, detach_user_from_room, attach_user_to_room,
}

-- The arguments of `join_or_create_room` that concern the room.
pub record RoomRequest : Type 0 where
  pub room_name : Text
  pub limit : ℤ
  pub flags : ℤ
  pub params : Text
  pub min_size : ℤ
  pub system_flags : ℤ

abbrev pub default_request : Text → RoomRequest
default_request room_name = record {
  room_name = room_name;
  limit = pos 4;
  flags = pos 8;
  params = [];
  min_size = pos 1;
  system_flags = pos 0;
}

unfoldable pub new_room : LobbyCore → ℕ → LobbyUser → RoomRequest → LobbyRoom
new_room l now user q = record {
  ident = l.next_room_ident;
  name = or_text (strip q.room_name) (codes "Room" ++ show l.next_room_ident);
  host_persona = user.persona;
  host_user_ident = user.ident;
  assistant_user_ident = 0;
  assistant_persona = [];
  game_name = strip q.room_name;
  params = q.params;
  limit = clamp q.limit;
  flags = q.flags;
  min_size = clamp q.min_size;
  system_flags = q.system_flags;
  event_id = 0;
  event_group_id = 0;
  num_partitions = 1;
  sync_id = l.next_room_ident;
  persist = false;
  occupants = [];
  created_at = now;
}

unfoldable pub create_room : LobbyCore → LobbyRoom → LobbyCore
create_room l room = record l {
  next_room_ident = suc l.next_room_ident;
  rooms_by_id = put l.rooms_by_id room.ident room;
  rooms_by_name = put l.rooms_by_name (room_name_key room.name) room.ident;
}

unfoldable pub updated_room : LobbyRoom → RoomRequest → LobbyRoom
updated_room room q = record room {
  params = or_text q.params room.params;
  flags = q.flags;
  limit = clamp q.limit;
  min_size = clamp q.min_size;
  system_flags = q.system_flags;
  num_partitions = max 1 room.num_partitions;
}

unfoldable pub update_room : LobbyCore → LobbyRoom → LobbyCore
update_room l room = record l { rooms_by_id = put l.rooms_by_id room.ident room }

-- The room that the user is to enter, in the lobby that holds it, and whether it is new.
prepared : LobbyCore → ℕ → LobbyUser → RoomRequest → Option LobbyRoom → LobbyCore × LobbyRoom × Bool
prepared l now user q none = let room = new_room l now user q in (create_room l room, room, true)
prepared l now user q (some room) =
    let room' = updated_room room q in (update_room l room', room', false)

unfoldable pub prepare_room : LobbyCore → ℕ → LobbyUser → RoomRequest → LobbyCore × LobbyRoom × Bool
unfolding prepared
prepare_room l now user q = prepared l now user q (find_room_by_name l q.room_name)

-- The lobby, the identifier of the room, and whether the room is new.
unfoldable pub join_or_create_room :
    (List ℕ → ℕ) → LobbyCore → ℕ → Text → Text → Text → RoomRequest → LobbyCore × ℕ × Bool
join_or_create_room choose l now client_key persona display_name q =
    let (with_user, user) = ensure_user l now client_key persona display_name in
    let (with_room, room, created) = prepare_room with_user now user q in
    (attach_user_to_room choose with_room user room, room.ident, created)

moved : (List ℕ → ℕ) → LobbyCore → Option LobbyUser → Option LobbyRoom → LobbyCore
moved choose l (some user) (some room) = attach_user_to_room choose l user room
moved choose l _ _ = l

unfoldable pub move_user_to_room : (List ℕ → ℕ) → LobbyCore → Text → ℕ → LobbyCore
unfolding moved
move_user_to_room choose l client_key room_ident =
    moved choose l (get l.users client_key) (get_room l room_ident)

detached : (List ℕ → ℕ) → LobbyCore → Option LobbyUser → LobbyCore
detached choose l none = l
detached choose l (some user) = detach_user_from_room choose l user

unfoldable pub leave_room : (List ℕ → ℕ) → LobbyCore → Text → LobbyCore
unfolding detached
leave_room choose l client_key = detached choose l (get l.users client_key)

-- `del self.messages[:-64]` keeps the last 64 messages.
unfoldable pub record_message : LobbyCore → Message → LobbyCore
record_message l msg =
    let all = l.messages ++ msg ∷ [] in record l { messages = drop (length all - 64) all }

room_ident_or : Option LobbyRoom → ℕ
room_ident_or none = 0
room_ident_or (some room) = room.ident

unfoldable pub emit_room_event : LobbyCore → ℕ → Option LobbyRoom → Text → Text → ℤ → LobbyCore
unfolding room_ident_or
emit_room_event l now room persona text flags = record_message l (record {
  priv = 0;
  set_id = 0;
  room_ident = room_ident_or room;
  game = 0;
  flags = flags;
  name = persona;
  text = text;
  created_at = now;
})
