-- ===== src/Lobby/Invariant.antt =====
-- The well-formedness of the lobby.
use nfs_most_wanted_online.Prelude.{ℕ, ◌<◌, ◌≡◌, ◌≢◌, true, some, arith, is_some}
use nfs_most_wanted_online.Prelude.Eq.{nat_eq, text_eq, ◌==◌}
use nfs_most_wanted_online.Prelude.Sets.{contains, Distinct}
use nfs_most_wanted_online.Prelude.Dict.{Every, get}
use nfs_most_wanted_online.Prelude.Text.{Text}
use nfs_most_wanted_online.Lobby.State.{LobbyUser, LobbyRoom, LobbyCore, initial, room_name_key}

-- A room that is stored under `k`, and a user that is stored under `c`.
pub record IsRoomAt (next k : ℕ) (r : LobbyRoom) : Type 0 where
  pub own_key : r.ident ≡ k
  pub nonzero : 0 < k
  pub issued : k < next
  pub distinct : Distinct r.occupants

pub record IsUserAt (next : ℕ) (c : Text) (u : LobbyUser) : Type 0 where
  pub own_key : u.client_key ≡ c
  pub issued : u.ident < next

-- A name that leads to a room leads to a room of that name.
abbrev pub IsNamed : LobbyCore → Text → ℕ → Type 0
IsNamed l name k = (r : LobbyRoom) × (get l.rooms_by_id k ≡ some r) × (room_name_key r.name ≡ name)

-- The facts that hold also while a room has just been made and nobody is in it.
pub record IsConsistent (l : LobbyCore) : Type 0 where
  pub started : 0 < l.next_room_ident
  pub rooms : Every (IsRoomAt l.next_room_ident) l.rooms_by_id
  pub users : Every (IsUserAt l.next_user_ident) l.users
  pub apart :
      (c d : Text) (u v : LobbyUser)
      → get l.users c ≡ some u
      → get l.users d ≡ some v
      → u.ident ≡ v.ident
      → c ≡ d
  pub placed :
      (c : Text) (u : LobbyUser)
      → get l.users c ≡ some u
      → u.room_ident ≢ 0
      → is_some (get l.rooms_by_id u.room_ident) ≡ true
  pub agrees :
      (c : Text) (u : LobbyUser) (k : ℕ) (r : LobbyRoom)
      → get l.users c ≡ some u
      → get l.rooms_by_id k ≡ some r
      → contains u.ident r.occupants ≡ (u.room_ident == k)
  pub named : (name : Text) (k : ℕ) → get l.rooms_by_name name ≡ some k → IsNamed l name k
  pub known :
      (k : ℕ) (r : LobbyRoom) (i : ℕ)
      → get l.rooms_by_id k ≡ some r
      → contains i r.occupants ≡ true
      → i < l.next_user_ident

-- Every room but `x` has its host among the occupants.
abbrev pub IsHosted : LobbyRoom → Type 0
IsHosted r = contains r.host_user_ident r.occupants ≡ true

abbrev pub HostedBut : ℕ → LobbyCore → Type 0
HostedBut x l = (k : ℕ) (r : LobbyRoom) → k ≢ x → get l.rooms_by_id k ≡ some r → IsHosted r

pub record IsLobby (l : LobbyCore) : Type 0 where
  pub consistent : IsConsistent l
  pub hosted : (k : ℕ) (r : LobbyRoom) → get l.rooms_by_id k ≡ some r → IsHosted r

pub initial-IsLobby : IsLobby initial
unfolding get
initial-IsLobby = record {
  consistent = record {
    started = omega arith;
    rooms = λ k r h. cc;
    users = λ c u h. cc;
    apart = λ c d u v h. cc;
    placed = λ c u h. cc;
    agrees = λ c u k r h. cc;
    named = λ name k h. cc;
    known = λ k r i h. cc;
  };
  hosted = λ k r h. cc;
}
