-- ===== src/Games.antt =====
-- Class Game of server/room_manager.py. Class GameManager is in the child Manager.
pub mod Manager
pub mod Invariant
pub mod Effects
pub mod Reach
mod Tests
use nfs_most_wanted_online.Prelude.{
  ℕ, ◌+◌, Bool, true, false, not, ◌&&◌, ◌||◌, Option, none, some, List, [], ◌∷◌, ◌++◌, length, ltb,
  leb, if◌then◌else◌,
}
use nfs_most_wanted_online.Prelude.Eq.{◌==◌, nat_eq, text_eq}
use nfs_most_wanted_online.Prelude.Sets.{contains, add, discard, remove}
use nfs_most_wanted_online.Prelude.Dict.{Dict}
use nfs_most_wanted_online.Prelude.Text.{Text, codes, truthy}

-- GAME_STATE_OPEN, GAME_STATE_ACTIVE, GAME_STATE_FINISHED, GAME_STATE_EXPIRED
pub data GameState : Type 0 where
  opened active finished expired : GameState

abbrev pub is_open : GameState → Bool
is_open opened = true
is_open _ = false

abbrev pub is_active : GameState → Bool
is_active active = true
is_active _ = false

abbrev pub is_finished : GameState → Bool
is_finished finished = true
is_finished _ = false

-- One player's result: a dictionary of named fields.
abbrev pub Fields : Type 0
Fields = Dict Text Text

pub record Game : Type 0 where
  pub id : ℕ
  pub room_id : ℕ
  pub host_uid : ℕ
  pub limit : ℕ
  pub type : Text
  pub flags : ℕ
  pub secret : Text
  pub custom : Text
  pub format : Text
  pub minsize : ℕ
  pub private : Bool
  pub matched : Bool
  pub state : GameState
  pub addr : Text
  pub port : ℕ
  pub participants : List ℕ
  pub ready_participants : List ℕ
  pub kicked_uids : List ℕ
  pub results : Dict ℕ Fields
  pub created_at : ℕ
  pub started_at : Option ℕ
  pub finished_at : Option ℕ
  pub evid : ℕ
  pub evgid : ℕ

-- The arguments of `Game(...)` and of `GameManager.create`.
pub record GameParams : Type 0 where
  pub room_id : ℕ
  pub host_uid : ℕ
  pub limit : ℕ
  pub game_type : Text
  pub flags : ℕ
  pub secret : Text
  pub custom : Text
  pub fmt : Text
  pub addr : Text
  pub port : ℕ
  pub minsize : ℕ
  pub private : Bool
  pub matched : Bool

abbrev pub default_params : ℕ → ℕ → GameParams
default_params room_id host_uid = record {
  room_id = room_id;
  host_uid = host_uid;
  limit = 8;
  game_type = codes "PUBLIC";
  flags = 0;
  secret = [];
  custom = [];
  fmt = [];
  addr = codes "0.0.0.0";
  port = 0;
  minsize = 2;
  private = false;
  matched = false;
}

-- `Game.__init__`, with the value that the class counter had and the time.
unfoldable pub new_game : ℕ → ℕ → GameParams → Game
new_game id now p = record {
  id = id;
  room_id = p.room_id;
  host_uid = p.host_uid;
  limit = p.limit;
  type = p.game_type;
  flags = p.flags;
  secret = p.secret;
  custom = p.custom;
  format = p.fmt;
  minsize = p.minsize;
  private = p.private;
  matched = p.matched;
  state = opened;
  addr = p.addr;
  port = p.port;
  participants = [];
  ready_participants = [];
  kicked_uids = [];
  results = [];
  created_at = now;
  started_at = none;
  finished_at = none;
  evid = id;
  evgid = 0;
}

abbrev pub game_count : Game → ℕ
game_count g = length g.participants

unfoldable pub can_join : Game → ℕ → Text → Bool
can_join g uid secret =
    if uid == g.host_uid || contains uid g.participants
    then true
    else if contains uid g.kicked_uids
    then false
    else if leb g.limit (game_count g)
    then false
    else if not (is_open g.state)
    then false
    else if truthy g.secret && not (secret == g.secret)
    then false
    else true

unfoldable pub add_player : Game → ℕ → Text → Game × Bool
add_player g uid secret =
    if not (can_join g uid secret)
    then (g, false)
    else if contains uid g.participants
    then (g, false)
    else (record g { participants = g.participants ++ uid ∷ [] }, true)

unfoldable pub remove_player : Game → ℕ → Game
remove_player g uid = record g {
  participants = if contains uid g.participants then remove uid g.participants else g.participants;
  ready_participants = discard uid g.ready_participants;
}

unfoldable pub mark_kicked : Game → ℕ → Game
mark_kicked g uid = record g { kicked_uids = add uid g.kicked_uids }

unfoldable pub set_ready : Game → ℕ → Bool → Game
set_ready g uid ready =
    if not (contains uid g.participants)
    then g
    else if ready
    then record g { ready_participants = add uid g.ready_participants }
    else record g { ready_participants = discard uid g.ready_participants }

unfoldable pub start : ℕ → Game → Game
start now g = record g { state = active; started_at = some now }

-- An empty dictionary of results is falsy, and leaves the results as they are.
abbrev or_results : Dict ℕ Fields → Dict ℕ Fields → Dict ℕ Fields
or_results [] old = old
or_results (x ∷ new) old = x ∷ new

unfoldable pub finish : ℕ → Dict ℕ Fields → Game → Game
finish now results g = record g {
  state = finished;
  finished_at = some now;
  results = or_results results g.results;
}

abbrev is_nil : List ℕ → Bool
is_nil [] = true
is_nil (x ∷ xs) = false

-- `finish` sets the time of the end, so a finished game has one.
abbrev elapsed : Option ℕ → ℕ → ℕ → Bool
elapsed none timeout now = false
elapsed (some since) timeout now = ltb (since + timeout) now

unfoldable pub is_expired : ℕ → ℕ → Game → Bool
is_expired timeout now g =
    if is_finished g.state
    then elapsed g.finished_at timeout now
    else if is_open g.state && is_nil g.participants
    then ltb (g.created_at + timeout) now
    else false
