-- ===== src/Lobby/Attached.antt =====
-- Moving a user into a room keeps the lobby as it should be.
use nfs_most_wanted_online.Prelude.{
  ℕ, ◌≡◌, refl, ◌≢◌, ◌⊎◌, inl, inr, true, false, some, List, [], ◌∷◌, arith, length, Bool-cases,
}
use nfs_most_wanted_online.Prelude.Eq.{nat_eq, text_eq, text_beq_iff, ◌==◌}
use nfs_most_wanted_online.Prelude.Sets.{contains, add}
use nfs_most_wanted_online.Prelude.Dict.{get, put, get-put, get-erase}
use nfs_most_wanted_online.Lobby.State.{LobbyUser, LobbyRoom, LobbyCore}
use nfs_most_wanted_online.Lobby.Occupancy.{
  rehosted, is_vacant, vacated, detach_user_from_room, attach_user_to_room, enter,
}
use nfs_most_wanted_online.Lobby.Invariant.{IsConsistent, IsHosted, HostedBut, IsLobby}
use nfs_most_wanted_online.Lobby.Leaving.{
  IsChooser, homeless, left_room, unplaced, detach_cases, detach_room, detach_users,
}
use nfs_most_wanted_online.Lobby.Detached.{detach-IsConsistent}
use nfs_most_wanted_online.Lobby.Entered.{entered-IsConsistent, entered-IsHosted}

module _ (choose : List ℕ → ℕ) (chosen : IsChooser choose) where
  rehosted-IsHosted :
      (l : LobbyCore) (r : LobbyRoom) → is_vacant r ≡ false → IsHosted (rehosted choose l r)
  unfolding rehosted
  rehosted-IsHosted l r busy = elim (Bool-cases (contains r.host_user_ident r.occupants)) [
    | inl there ↦ rw there there
    | inr gone ↦ rw gone (member r.occupants busy)
  ]
    where
      member : (is : List ℕ) → (length is == 0) ≡ false → contains (choose is) is ≡ true
      member [] h = cc
      member (i ∷ is) h = chosen i is

  -- Leaving a room leaves every other room hosted, and the room too, by a new host if need be.
  pub detach-HostedBut :
      (l : LobbyCore) (u : LobbyUser) (x : ℕ)
      → IsConsistent l
      → HostedBut x l
      → HostedBut x (detach_user_from_room choose l u)
  detach-HostedBut l u x w hosts k s ne h = elim (detach_room choose l u w k s h) [
    | inl (away, e) ↦ hosts k s ne e
    | inr (r, at, e, busy, q) ↦
        rw q (rehosted-IsHosted (unplaced choose l u) (vacated r u.ident) busy)
  ]

  -- The user's record, and the room that the user goes to, when the user has left the old room.
  user_out :
      (l : LobbyCore) (u : LobbyUser)
      → get (detach_user_from_room choose l u).users u.client_key ≡ some (homeless choose u)
  user_out l u = ground (
    arith,
    detach_users choose l u,
    get-put l.users u.client_key u.client_key (homeless choose u),
    text_beq_iff u.client_key u.client_key,
  )

  room_out :
      (l : LobbyCore) (u : LobbyUser) (k : ℕ) (r : LobbyRoom)
      → IsConsistent l
      → get l.rooms_by_id k ≡ some r
      → u.room_ident ≢ k
      → get (detach_user_from_room choose l u).rooms_by_id k ≡ some r
  room_out l u k r w e ne =
      detach_cases choose (λ m. get m.rooms_by_id k ≡ some r) l u (λ _. e)
        (λ s here vacant.
          ground
            (arith, get-erase l.rooms_by_id s.ident k, (w.rooms u.room_ident s here).own_key, e))
        (λ s here busy. ground (
          arith,
          get-put l.rooms_by_id s.ident k (left_room choose l u s),
          (w.rooms u.room_ident s here).own_key,
          e,
        ))

  abbrev attached : LobbyCore → LobbyUser → LobbyRoom → LobbyCore
  attached l u r = record (detach_user_from_room choose l u) {
    users =
        put (detach_user_from_room choose l u).users u.client_key
          (record u { room_ident = r.ident });
    rooms_by_id =
        put (detach_user_from_room choose l u).rooms_by_id r.ident
          (record r { occupants = add u.ident r.occupants });
  }

  -- The two cases of the call.
  pub attach_cases {κ} :
      (P : LobbyCore → Type κ) (l : LobbyCore) (u : LobbyUser) (r : LobbyRoom)
      → IsConsistent l
      → get l.rooms_by_id r.ident ≡ some r
      → (u.room_ident ≡ r.ident → P l)
      → (u.room_ident ≢ r.ident → P (attached l u r))
      → P (attach_user_to_room choose l u r)
  unfolding attach_user_to_room
  attach_cases P l u r w there same moved = elim (Bool-cases (u.room_ident == r.ident)) [
    | inl e ↦ rw e (same (ground arith))
    | inr ne ↦
        (let far : u.room_ident ≢ r.ident = ground arith in
          rw (ne, room_out l u r.ident r w there far, enter) (moved far))
  ]

  -- A user who is in the room already is an occupant.
  already :
      (l : LobbyCore) (u : LobbyUser) (r : LobbyRoom)
      → IsConsistent l
      → HostedBut r.ident l
      → get l.users u.client_key ≡ some u
      → get l.rooms_by_id r.ident ≡ some r
      → (r.host_user_ident ≡ u.ident) ⊎ IsHosted r
      → u.room_ident ≡ r.ident
      → (k : ℕ) (s : LobbyRoom) → get l.rooms_by_id k ≡ some s
      → IsHosted s
  already l u r w hosts held there own same k s h = elim (Bool-cases (k == r.ident)) [
    | inr other ↦ hosts k s (ground arith) h
    | inl here ↦
        (let sr : s ≡ r = ground arith in
          rw sr (ground (arith, own, w.agrees u.client_key u r.ident r held there)))
  ]

  -- Moving a user into a room of the table keeps the lobby valid, also if nobody was in the room yet.
  pub attach-IsLobby :
      (l : LobbyCore) (u : LobbyUser) (r : LobbyRoom)
      → IsConsistent l
      → HostedBut r.ident l
      → get l.users u.client_key ≡ some u
      → get l.rooms_by_id r.ident ≡ some r
      → (r.host_user_ident ≡ u.ident) ⊎ IsHosted r
      → IsLobby (attach_user_to_room choose l u r)
  attach-IsLobby l u r w hosts held there own =
      attach_cases IsLobby l u r w there
        (λ same. record {
          consistent = w;
          hosted = λ k s h. already l u r w hosts held there own same k s h;
        })
        (λ far.
          let out = detach_user_from_room choose l u in
          let w' = detach-IsConsistent choose l u w held in
          let there' = room_out l u r.ident r w there far in
          record {
            consistent =
                entered-IsConsistent out (homeless choose u) r.ident r w' (user_out l u) refl
                  there';
            hosted =
                entered-IsHosted out (homeless choose u) r.ident r w' (user_out l u) refl there'
                  (detach-HostedBut l u r.ident w hosts) own;
          })
