-- ===== src/Lobby/Occupancy.antt =====
-- Users and rooms of server/lobby_core.py: lookups, and how a user comes to a room and leaves it.
-- A user object is named by its client key and a room object by its identifier. `choose` gives the
-- first element of a set of integers in the order in which Python iterates over it.
use nfs_most_wanted_online.Prelude.{
  ℕ, suc, Bool, false, Option, none, some, List, [], ◌∷◌, length, if◌then◌else◌,
}
use nfs_most_wanted_online.Prelude.Eq.{◌==◌, nat_eq, text_eq}
use nfs_most_wanted_online.Prelude.Sets.{contains, add, discard}
use nfs_most_wanted_online.Prelude.Dict.{values, get, put, erase}
use nfs_most_wanted_online.Prelude.Text.{Text, codes, truthy, or_text, strip}
use nfs_most_wanted_online.Prelude.Int.{pos}
use nfs_most_wanted_online.Lobby.State.{LobbyUser, LobbyRoom, LobbyCore, room_name_key}

abbrev pub new_user : LobbyCore → ℕ → Text → Text → Text → LobbyUser
new_user l now client_key persona display_name = record {
  ident = l.next_user_ident;
  client_key = client_key;
  persona = or_text (strip persona) (or_text (strip display_name) (codes "Player"));
  display_name = or_text (strip display_name) (or_text (strip persona) (codes "Player"));
  room_ident = 0;
  ping = 100;
  flags = pos 0;
  privacy_enabled = false;
  created_at = now;
}

abbrev pub renamed : LobbyUser → Text → Text → LobbyUser
renamed user persona display_name = record user {
  persona = or_text (strip persona) user.persona;
  display_name = or_text (strip display_name) user.display_name;
}

ensured : LobbyCore → ℕ → Text → Text → Text → Option LobbyUser → LobbyCore × LobbyUser
ensured l now client_key persona display_name none =
    let user = new_user l now client_key persona display_name in
    (
      record l { next_user_ident = suc l.next_user_ident; users = put l.users client_key user },
      user,
    )
ensured l now client_key persona display_name (some user) =
    let user' = renamed user persona display_name in
    (record l { users = put l.users client_key user' }, user')

unfoldable pub ensure_user : LobbyCore → ℕ → Text → Text → Text → LobbyCore × LobbyUser
unfolding ensured
ensure_user l now client_key persona display_name =
    ensured l now client_key persona display_name (get l.users client_key)

unfoldable pub get_room : LobbyCore → ℕ → Option LobbyRoom
get_room l room_ident = if room_ident == 0 then none else get l.rooms_by_id room_ident

room_at : LobbyCore → Option ℕ → Option LobbyRoom
room_at l none = none
room_at l (some room_ident) = get l.rooms_by_id room_ident

unfoldable pub find_room_by_name : LobbyCore → Text → Option LobbyRoom
unfolding room_at
find_room_by_name l name = room_at l (get l.rooms_by_name (room_name_key name))

or_room : Option LobbyRoom → Option LobbyRoom → Option LobbyRoom
or_room none other = other
or_room (some room) other = some room

unfoldable pub find_room : LobbyCore → ℕ → Text → Option LobbyRoom
unfolding or_room
find_room l room_ident room_name =
    or_room (get_room l room_ident)
      (if truthy (strip room_name) then find_room_by_name l room_name else none)

-- `find_user_by_ident`: the first user in the table with the identifier.
first_ident : ℕ → List LobbyUser → Option LobbyUser
first_ident ident [] = none
first_ident ident (user ∷ users) =
    if user.ident == ident then some user else first_ident ident users

unfoldable pub find_user_by_ident : LobbyCore → ℕ → Option LobbyUser
unfolding first_ident
find_user_by_ident l ident = if ident == 0 then none else first_ident ident (values l.users)

persona_or : Option LobbyUser → Text → Text
persona_or none persona = persona
persona_or (some user) persona = user.persona

-- The room when its host has left: the first of the occupants becomes the host.
unfoldable pub rehosted : (List ℕ → ℕ) → LobbyCore → LobbyRoom → LobbyRoom
unfolding persona_or first_ident
rehosted choose l room =
    if contains room.host_user_ident room.occupants
    then room
    else let next = choose room.occupants in
      record room {
        host_user_ident = next;
        host_persona = persona_or (first_ident next (values l.users)) room.host_persona;
      }

abbrev pub is_vacant : LobbyRoom → Bool
is_vacant room = length room.occupants == 0

abbrev pub vacated : LobbyRoom → ℕ → LobbyRoom
vacated room ident = record room { occupants = discard ident room.occupants }

detach_found : (List ℕ → ℕ) → LobbyCore → LobbyUser → Option LobbyRoom → LobbyCore
detach_found choose l user none = record l {
  users = put l.users user.client_key (record user { room_ident = 0 });
}
detach_found choose l user (some room) =
    let out : LobbyCore = record l {
      users = put l.users user.client_key (record user { room_ident = 0 });
    } in
    let left = vacated room user.ident in
    if is_vacant left
    then record out {
      rooms_by_id = erase l.rooms_by_id room.ident;
      rooms_by_name = erase l.rooms_by_name (room_name_key room.name);
    }
    else record out { rooms_by_id = put l.rooms_by_id room.ident (rehosted choose out left) }

unfoldable pub detach_user_from_room : (List ℕ → ℕ) → LobbyCore → LobbyUser → LobbyCore
unfolding detach_found
detach_user_from_room choose l user = detach_found choose l user (get_room l user.room_ident)

-- The occupants are added to the object that the table holds after the user was detached.
unfoldable pub enter : LobbyCore → LobbyUser → ℕ → Option LobbyRoom → LobbyCore
enter l user room_ident none = record l {
  users = put l.users user.client_key (record user { room_ident = room_ident });
}
enter l user room_ident (some room) = record l {
  users = put l.users user.client_key (record user { room_ident = room_ident });
  rooms_by_id =
      put l.rooms_by_id room_ident (record room { occupants = add user.ident room.occupants });
}

unfoldable pub attach_user_to_room : (List ℕ → ℕ) → LobbyCore → LobbyUser → LobbyRoom → LobbyCore
unfolding enter
attach_user_to_room choose l user room =
    if user.room_ident == room.ident
    then l
    else let out = detach_user_from_room choose l user in
      enter out user room.ident (get out.rooms_by_id room.ident)
