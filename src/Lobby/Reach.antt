-- ===== src/Lobby/Reach.antt =====
-- Every sequence of operations of server/lobby_core.py keeps the lobby as it should be.
use nfs_most_wanted_online.Prelude.{
  ℕ, ◌≡◌, ap, ◌∙◌, inl, inr, some, List, [], ◌∷◌, arith, Option-cases,
}
use nfs_most_wanted_online.Prelude.Eq.{nat_eq, text_eq}
use nfs_most_wanted_online.Prelude.Dict.{get}
use nfs_most_wanted_online.Prelude.Text.{Text}
use nfs_most_wanted_online.Lobby.State.{LobbyUser, LobbyCore, initial}
use nfs_most_wanted_online.Lobby.Occupancy.{get_room, detach_user_from_room, ensure_user}
use nfs_most_wanted_online.Lobby.Invariant.{IsLobby, initial-IsLobby}
use nfs_most_wanted_online.Lobby.Leaving.{IsChooser}
use nfs_most_wanted_online.Lobby.Entry.{
  RoomRequest, prepare_room, join_or_create_room, move_user_to_room, leave_room,
}
use nfs_most_wanted_online.Lobby.Detached.{detach-IsConsistent}
use nfs_most_wanted_online.Lobby.Attached.{detach-HostedBut, attach-IsLobby}
use nfs_most_wanted_online.Lobby.Ensured.{ensure_user-Ensured}
use nfs_most_wanted_online.Lobby.Prepared.{prepare_room-Prepared}

pub data Op : Type 0 where
  joins : ℕ → Text → Text → Text → RoomRequest → Op
  moves : Text → ℕ → Op
  leaves : Text → Op

module _ (choose : List ℕ → ℕ) where
  unfoldable pub step : LobbyCore → Op → LobbyCore
  step l (joins now key persona display_name q) =
      (join_or_create_room choose l now key persona display_name q).0
  step l (moves key room_ident) = move_user_to_room choose l key room_ident
  step l (leaves key) = leave_room choose l key

  unfoldable pub run : LobbyCore → List Op → LobbyCore
  unfolding step
  run l [] = l
  run l (o ∷ ops) = run (step l o) ops

module _ (choose : List ℕ → ℕ) (chosen : IsChooser choose) where
  -- A valid lobby has no room under 0, so all its rooms are hosted.
  detach-IsLobby :
      (l : LobbyCore) (u : LobbyUser)
      → IsLobby l
      → get l.users u.client_key ≡ some u
      → IsLobby (detach_user_from_room choose l u)
  detach-IsLobby l u w held =
      let c = detach-IsConsistent choose l u w.consistent held in
      record {
        consistent = c;
        hosted = λ k r h.
            detach-HostedBut choose chosen l u 0 w.consistent (λ j s _. w.hosted j s) k r
              (λ e. ground (arith, (c.rooms k r h).nonzero)) h;
      }

  join_or_create_room-IsLobby :
      (l : LobbyCore) (now : ℕ) (key persona display_name : Text) (q : RoomRequest)
      → IsLobby l
      → IsLobby (join_or_create_room choose l now key persona display_name q).0
  unfolding join_or_create_room
  join_or_create_room-IsLobby l now key persona display_name q w =
      let e = ensure_user-Ensured l now key persona display_name w in
      let made = ensure_user l now key persona display_name in
      let p = prepare_room-Prepared made.0 now made.1 q e.0 in
      let ready = prepare_room made.0 now made.1 q in
      attach-IsLobby choose chosen ready.0 made.1 ready.1 p.0 p.1
        (ap (λ d. get d made.1.client_key) p.4 ∙ ap (get made.0.users) e.2 ∙ e.1) p.2 p.3

  move_user_to_room-IsLobby :
      (l : LobbyCore) (key : Text) (room_ident : ℕ)
      → IsLobby l
      → IsLobby (move_user_to_room choose l key room_ident)
  unfolding move_user_to_room
  move_user_to_room-IsLobby l key room_ident w = elim (Option-cases (get l.users key)) [
    | inl e ↦ rw (e, move_user_to_room) w
    | inr (u, e) ↦ elim (Option-cases (get_room l room_ident)) [
      | inl f ↦ rw (e, f, move_user_to_room) w
      | inr (r, f) ↦
          (let here : get l.rooms_by_id room_ident ≡ some r = unfold get_room in ground arith in
            let own = (w.consistent.rooms room_ident r here).own_key in
            let stored : get l.rooms_by_id r.ident ≡ some r = ap (get l.rooms_by_id) own ∙ here in
            rw (e, f, move_user_to_room)
              (attach-IsLobby choose chosen l u r w.consistent (λ k s _. w.hosted k s)
                (ap (get l.users) (w.consistent.users key u e).own_key ∙ e) stored
                (inr (w.hosted room_ident r here))))
    ]
  ]

  leave_room-IsLobby : (l : LobbyCore) (key : Text) → IsLobby l → IsLobby (leave_room choose l key)
  unfolding leave_room
  leave_room-IsLobby l key w = elim (Option-cases (get l.users key)) [
    | inl e ↦ rw (e, leave_room) w
    | inr (u, e) ↦
        rw (e, leave_room)
          (detach-IsLobby l u w (ap (get l.users) (w.consistent.users key u e).own_key ∙ e))
  ]

  step-IsLobby : (l : LobbyCore) (o : Op) → IsLobby l → IsLobby (step choose l o)
  unfolding step
  step-IsLobby l (joins now key persona display_name q) w =
      join_or_create_room-IsLobby l now key persona display_name q w
  step-IsLobby l (moves key room_ident) w = move_user_to_room-IsLobby l key room_ident w
  step-IsLobby l (leaves key) w = leave_room-IsLobby l key w

  run-IsLobby : (l : LobbyCore) (ops : List Op) → IsLobby l → IsLobby (run choose l ops)
  unfolding run
  run-IsLobby l [] w = w
  run-IsLobby l (o ∷ ops) w = run-IsLobby (step choose l o) ops (step-IsLobby l o w)

  -- From the empty lobby, whatever users join, move and leave, and whichever occupant Python's set
  -- yields first: users have different identifiers, a user is an occupant of exactly the room that
  -- the user's record names, that room is in the table, no room is without its host, and a name leads
  -- to a room of that name.
  pub run-initial-IsLobby : (ops : List Op) → IsLobby (run choose initial ops)
  run-initial-IsLobby ops = run-IsLobby initial ops initial-IsLobby
