-- ===== src/Users.antt =====
-- Classes User and UserManager of server/user_manager.py. A user object is named by its uid, which
-- the class counter makes unique; the two dictionaries of the manager share the objects.
pub mod Table
pub mod Effects
mod Tests
use nfs_most_wanted_online.Prelude.{
  ℕ, suc, ◌+◌, Bool, true, false, not, ◌&&◌, Option, none, some, List, [], ◌∷◌, ◌++◌, length, keep,
  count, ltb, leb, is_some, ◌%◌, if◌then◌else◌,
}
use nfs_most_wanted_online.Prelude.Eq.{◌==◌, nat_eq, text_eq}
use nfs_most_wanted_online.Prelude.Dict.{Dict, values, get, put, erase}
use nfs_most_wanted_online.Prelude.Text.{Text, codes, lower, or_text, show}
use nfs_most_wanted_online.Prelude.Int.{ℤ, pos}

-- STAT_IDLE, STAT_LOBBY, STAT_ROOM, STAT_GAME, STAT_AWAY
pub data Stat : Type 0 where
  idle lobby room game away : Stat

abbrev pub in_lobby : Stat → Bool
in_lobby lobby = true
in_lobby _ = false

abbrev pub in_room : Stat → Bool
in_room room = true
in_room _ = false

abbrev pub in_game : Stat → Bool
in_game game = true
in_game _ = false

pub record User : Type 0 where
  pub uid : ℕ
  pub port : ℕ
  pub ip : Text
  pub name : Text
  pub pers : Text
  pub lang : Text
  pub from_ : Text
  pub room : ℕ
  pub game : ℕ
  pub stat : Stat
  pub aux : Text
  pub rgb : ℕ
  pub ping : ℕ
  pub play : ℕ
  pub seed : ℕ
  pub flags : ℤ
  pub sync : ℕ
  pub addr : Text
  pub laddr : Text
  pub serv : Text
  pub sprt : ℕ
  pub maddr : Text
  pub level : ℕ
  pub medals : ℕ
  pub rep : ℕ
  pub hw_flag : ℕ
  pub hw_mask : ℕ
  pub hw_mid : Text
  pub mac : Text
  pub login_time : ℕ
  pub last_active : ℕ
  pub connected : Bool
  pub race_detached_at : ℕ
  pub muted : Bool
  pub mute_reason : Text
  pub muted_at : ℕ
  pub room_privacy : Text

-- `User.__init__`, with the value that the class counter had and the time in seconds.
unfoldable pub new_user : ℕ → ℕ → Text → ℕ → Text → User
new_user uid now ip port name = record {
  uid = uid;
  port = port;
  ip = ip;
  name = or_text name (codes "Player" ++ show uid);
  pers = [];
  lang = codes "en";
  from_ = [];
  room = 0;
  game = 0;
  stat = lobby;
  aux = [];
  rgb = 0xffffff;
  ping = 0;
  play = 0;
  seed = now % 65536;
  flags = pos 0;
  sync = 0;
  addr = ip;
  laddr = ip;
  serv = codes "0.0.0.0";
  sprt = 0;
  maddr = [];
  level = 1;
  medals = 0;
  rep = 0;
  hw_flag = 0;
  hw_mask = 0;
  hw_mid = [];
  mac = [];
  login_time = now;
  last_active = now;
  connected = true;
  race_detached_at = 0;
  muted = false;
  mute_reason = [];
  muted_at = 0;
  room_privacy = codes "OFF";
}

-- `User.send`: what goes to the socket, and the user after it; `works` says whether `sendall`
-- returned or raised.
unfoldable pub send : Bool → Text → User → User × List Text
send works msg u =
    if not u.connected
    then (u, [])
    else if works
    then (u, msg ∷ [])
    else (record u { connected = false }, [])

unfoldable pub touch : ℕ → User → User
touch now u = record u { last_active = now }

pub record Cheat : Type 0 where
  pub time : ℕ
  pub hw_mid : Text
  pub mac : Text
  pub uid_old : ℕ
  pub uid_new : ℕ
  pub ip : Text

pub record UserManager : Type 0 where
  pub users : Dict ℕ User
  pub by_name : Dict Text ℕ
  pub hw_ids : Dict Text ℕ
  pub cheat_log : List Cheat
  pub max_users : ℕ
  pub inactivity_timeout : ℕ

-- `int(... or 256)`: a limit of 0 is taken for 256.
unfoldable pub init : ℕ → UserManager
init limit = record {
  users = [];
  by_name = [];
  hw_ids = [];
  cheat_log = [];
  max_users = if limit == 0 then 256 else limit;
  inactivity_timeout = 300;
}

unfoldable pub add_user : UserManager → User → UserManager × Bool
add_user m u = if leb m.max_users (length m.users) then (m, false) else (
  record m { users = put m.users u.uid u; by_name = put m.by_name (lower u.name) u.uid },
  true,
)

-- The loop of `remove` over the names that map to the user.
unfoldable pub drop_names : ℕ → Dict Text ℕ → Dict Text ℕ
drop_names uid [] = []
drop_names uid ((key, mapped) ∷ names) =
    let rest = drop_names uid names in if mapped == uid then rest else (key, mapped) ∷ rest

remove_found : UserManager → ℕ → Option User → UserManager × Option User
remove_found m uid none = (m, none)
remove_found m uid (some u) =
    (record m { users = erase m.users uid; by_name = drop_names uid m.by_name }, some u)

unfoldable pub remove_user : UserManager → ℕ → UserManager × Option User
unfolding remove_found
remove_user m uid = remove_found m uid (get m.users uid)

unfoldable pub get_user : UserManager → ℕ → Option User
get_user m uid = get m.users uid

user_of : UserManager → Option ℕ → Option User
user_of m none = none
user_of m (some uid) = get m.users uid

unfoldable pub get_by_name : UserManager → Text → Option User
unfolding user_of
get_by_name m name = user_of m (get m.by_name (lower name))

unfoldable pub all_users : UserManager → List User
all_users m = values m.users

unfoldable pub users_in_lobby : UserManager → List User
users_in_lobby m = keep (λ u. in_lobby u.stat) (all_users m)

unfoldable pub users_in_rooms : UserManager → List User
users_in_rooms m = keep (λ u. in_room u.stat) (all_users m)

unfoldable pub users_in_games : UserManager → List User
users_in_games m = keep (λ u. in_game u.stat) (all_users m)

-- A uid of 0 is falsy, as no uid is.
flagged : UserManager → ℕ → Text → Text → User → Option ℕ → List Cheat
flagged m now hw_mid mac u none = m.cheat_log
flagged m now hw_mid mac u (some old) =
    if not (old == 0) && not (old == u.uid)
    then m.cheat_log
      ++ record {
        time = now;
        hw_mid = hw_mid;
        mac = mac;
        uid_old = old;
        uid_new = u.uid;
        ip = u.ip;
      }
        ∷ []
    else m.cheat_log

abbrev with_hw : User → Text → Text → User
with_hw u hw_mid mac = record u { hw_mid = hw_mid; mac = mac }

-- The user object keeps the identifiers too: if the table holds it, the table shows them.
unfoldable pub register_hw : UserManager → ℕ → User → Text → Text → UserManager
unfolding flagged
register_hw m now u hw_mid mac = record m {
  users = if is_some (get m.users u.uid) then put m.users u.uid (with_hw u hw_mid mac) else m.users;
  hw_ids = put m.hw_ids hw_mid u.uid;
  cheat_log = flagged m now hw_mid mac u (get m.hw_ids hw_mid);
}

-- `kick_inactive` over the users of the table: whoever is idle for too long is told and disconnected.
abbrev pub kick_message : Text
kick_message = codes "+KICK TEXT=\"Disconnected due to inactivity\"\n"

unfoldable pub is_idle : ℕ → ℕ → User → Bool
is_idle timeout now u = ltb (u.last_active + timeout) now

unfoldable pub kick_user : ℕ → ℕ → User → User
kick_user timeout now u = if is_idle timeout now u then record u { connected = false } else u

unfoldable pub kick_all : ℕ → ℕ → Dict ℕ User → Dict ℕ User
kick_all timeout now [] = []
kick_all timeout now ((uid, u) ∷ users) =
    (uid, kick_user timeout now u) ∷ kick_all timeout now users

abbrev pub or_default : Option ℕ → ℕ → ℕ
or_default none d = d
or_default (some t) d = t

unfoldable pub kick_inactive : UserManager → Option ℕ → ℕ → UserManager × List User
kick_inactive m timeout now =
    let limit = or_default timeout m.inactivity_timeout in
    let users = kick_all limit now m.users in
    (record m { users = users }, keep (is_idle limit now) (values users))

pub record Count : Type 0 where
  pub total : ℕ
  pub in_lobbies : ℕ
  pub in_rooms : ℕ
  pub in_games : ℕ

unfoldable pub count_users : UserManager → Count
count_users m = record {
  total = length (all_users m);
  in_lobbies = count (λ u. in_lobby u.stat) (all_users m);
  in_rooms = count (λ u. in_room u.stat) (all_users m);
  in_games = count (λ u. in_game u.stat) (all_users m);
}
