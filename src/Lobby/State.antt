-- ===== src/Lobby/State.antt =====
-- The state of class TCP20922LobbyCore of server/lobby_core.py.
use nfs_most_wanted_online.Prelude.{ℕ, Bool, List, [], ◌∷◌, min, max}
use nfs_most_wanted_online.Prelude.Eq.{nat_eq, text_eq}
use nfs_most_wanted_online.Prelude.Dict.{Dict}
use nfs_most_wanted_online.Prelude.Text.{Text, strip, lower}
use nfs_most_wanted_online.Prelude.Int.{ℤ, pos, negsuc}

pub record FilterState : Type 0 where
  pub users : ℕ
  pub usersets : ℕ
  pub games : ℕ
  pub mygame : ℕ
  pub rooms : ℕ
  pub ranks : ℕ
  pub mesgs : ℕ
  pub async_flag : ℕ
  pub stats : ℕ
  pub slots : ℕ
  pub usersets_selected : List Text
  pub refresh_count : ℕ

abbrev pub initial_filter : FilterState
initial_filter = record {
  users = 0;
  usersets = 0;
  games = 0;
  mygame = 0;
  rooms = 0;
  ranks = 0;
  mesgs = 0;
  async_flag = 0;
  stats = 0;
  slots = 32;
  usersets_selected = [] ∷ [] ∷ [] ∷ [] ∷ [];
  refresh_count = 0;
}

pub record LobbyUser : Type 0 where
  pub ident : ℕ
  pub client_key : Text
  pub persona : Text
  pub display_name : Text
  pub room_ident : ℕ
  pub ping : ℕ
  pub flags : ℤ
  pub privacy_enabled : Bool
  pub created_at : ℕ

pub record LobbyRoom : Type 0 where
  pub ident : ℕ
  pub name : Text
  pub host_persona : Text
  pub host_user_ident : ℕ
  pub assistant_user_ident : ℕ
  pub assistant_persona : Text
  pub game_name : Text
  pub params : Text
  pub limit : ℕ
  pub flags : ℤ
  pub min_size : ℕ
  pub system_flags : ℤ
  pub event_id : ℕ
  pub event_group_id : ℕ
  pub num_partitions : ℕ
  pub sync_id : ℕ
  pub persist : Bool
  pub occupants : List ℕ
  pub created_at : ℕ

pub record Message : Type 0 where
  pub priv : ℕ
  pub set_id : ℕ
  pub room_ident : ℕ
  pub game : ℕ
  pub flags : ℤ
  pub name : Text
  pub text : Text
  pub created_at : ℕ

pub record LobbyCore : Type 0 where
  pub filters : Dict Text FilterState
  pub users : Dict Text LobbyUser
  pub rooms_by_id : Dict ℕ LobbyRoom
  pub rooms_by_name : Dict Text ℕ
  pub messages : List Message
  pub next_user_ident : ℕ
  pub next_room_ident : ℕ

abbrev pub initial : LobbyCore
initial = record {
  filters = [];
  users = [];
  rooms_by_id = [];
  rooms_by_name = [];
  messages = [];
  next_user_ident = 50000;
  next_room_ident = 1;
}

unfoldable pub room_name_key : Text → Text
room_name_key name = lower (strip name)

-- `max(1, min(1000, n))`
unfoldable pub clamp : ℤ → ℕ
clamp (pos n) = max 1 (min 1000 n)
clamp (negsuc n) = 1
