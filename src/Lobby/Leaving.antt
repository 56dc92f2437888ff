-- ===== src/Lobby/Leaving.antt =====
-- What `detach_user_from_room` does to the two tables, and that it keeps the lobby consistent.
use nfs_most_wanted_online.Prelude.{
  ℕ, ◌≡◌, refl, ◌≢◌, ◌⊎◌, inl, inr, true, false, none, some, List, ◌∷◌, arith, Bool-cases,
  Option-cases,
}
use nfs_most_wanted_online.Prelude.Eq.{nat_eq, text_eq, text_beq, text_beq_iff, ◌==◌}
use nfs_most_wanted_online.Prelude.Sets.{contains}
use nfs_most_wanted_online.Prelude.Dict.{get, put, erase, get-put, get-erase}
use nfs_most_wanted_online.Prelude.Text.{Text}
use nfs_most_wanted_online.Lobby.State.{LobbyUser, LobbyRoom, LobbyCore, room_name_key}
use nfs_most_wanted_online.Lobby.Occupancy.{
  get_room, rehosted, is_vacant, vacated, detach_user_from_room,
}
use nfs_most_wanted_online.Lobby.Invariant.{IsConsistent}

-- An element of a set that has one is chosen among its elements.
abbrev pub IsChooser : (List ℕ → ℕ) → Type 0
IsChooser choose = (i : ℕ) (is : List ℕ) → contains (choose (i ∷ is)) (i ∷ is) ≡ true

module _ (choose : List ℕ → ℕ) where
  abbrev pub homeless : LobbyUser → LobbyUser
  homeless u = record u { room_ident = 0 }

  abbrev pub left_room : LobbyCore → LobbyUser → LobbyRoom → LobbyRoom
  left_room l u r =
      rehosted choose (record l { users = put l.users u.client_key (homeless u) })
        (vacated r u.ident)

  -- The result of `detach_user_from_room` if the user is in no room, and if the user is in `r`.
  abbrev pub unplaced : LobbyCore → LobbyUser → LobbyCore
  unplaced l u = record l { users = put l.users u.client_key (homeless u) }

  abbrev pub closed : LobbyCore → LobbyUser → LobbyRoom → LobbyCore
  closed l u r = record (unplaced l u) {
    rooms_by_id = erase l.rooms_by_id r.ident;
    rooms_by_name = erase l.rooms_by_name (room_name_key r.name);
  }

  abbrev pub shrunk : LobbyCore → LobbyUser → LobbyRoom → LobbyCore
  shrunk l u r = record (unplaced l u) { rooms_by_id = put l.rooms_by_id r.ident (left_room l u r) }

  pub rehosted-same :
      (l : LobbyCore) (r : LobbyRoom)
      → ((rehosted choose l r).ident ≡ r.ident)
        × ((rehosted choose l r).name ≡ r.name)
        × ((rehosted choose l r).occupants ≡ r.occupants)
  unfolding rehosted
  rehosted-same l r = ground arith

  -- The three ways to leave.
  pub detach_cases {κ} :
      (P : LobbyCore → Type κ) (l : LobbyCore) (u : LobbyUser)
      → (get_room l u.room_ident ≡ none → P (unplaced l u))
      → ((r : LobbyRoom)
          → get l.rooms_by_id u.room_ident ≡ some r
          → is_vacant (vacated r u.ident) ≡ true
          → P (closed l u r))
      → ((r : LobbyRoom)
          → get l.rooms_by_id u.room_ident ≡ some r
          → is_vacant (vacated r u.ident) ≡ false
          → P (shrunk l u r))
      → P (detach_user_from_room choose l u)
  unfolding detach_user_from_room
  detach_cases P l u nowhere last others = elim (Option-cases (get_room l u.room_ident)) [
    | inl e ↦ rw (e, detach_user_from_room) (nowhere e)
    | inr (r, e) ↦
        rw (e, detach_user_from_room)
          (let here : get l.rooms_by_id u.room_ident ≡ some r = unfold get_room in ground arith in
            elim (Bool-cases (is_vacant (vacated r u.ident))) [
              | inl vacant ↦ rw vacant (last r here vacant)
              | inr busy ↦ rw busy (others r here busy)
            ])
  ]

  -- What a lookup of a room after the call says of the room before.
  abbrev pub RoomAfter : LobbyCore → LobbyUser → ℕ → LobbyRoom → Type 0
  RoomAfter l u k s =
      ((u.room_ident ≢ k) × (get l.rooms_by_id k ≡ some s))
      ⊎ ((r : LobbyRoom) × (u.room_ident ≡ k)
          × (get l.rooms_by_id k ≡ some r)
          × (is_vacant (vacated r u.ident) ≡ false)
          × (s ≡ left_room l u r))

  -- No room is stored under 0, the room of a user who is in none.
  outside :
      (l : LobbyCore) (u : LobbyUser)
      → IsConsistent l
      → (k : ℕ) (s : LobbyRoom) → get_room l u.room_ident ≡ none
      → get l.rooms_by_id k ≡ some s
      → u.room_ident ≢ k
  unfolding get_room
  outside l u w k s e h q = ground (arith, (w.rooms k s h).nonzero)

  pub detach_room :
      (l : LobbyCore) (u : LobbyUser)
      → IsConsistent l
      → (k : ℕ) (s : LobbyRoom) → get (detach_user_from_room choose l u).rooms_by_id k ≡ some s
      → RoomAfter l u k s
  detach_room l u w k s =
      detach_cases (λ m. get m.rooms_by_id k ≡ some s → RoomAfter l u k s) l u
        (λ e h. inl (outside l u w k s e h, h))
        (λ r here vacant h.
          let own = (w.rooms u.room_ident r here).own_key in
          inl (
            ground (arith, get-erase l.rooms_by_id r.ident k),
            ground (arith, get-erase l.rooms_by_id r.ident k),
          ))
        (λ r here busy h.
          let own = (w.rooms u.room_ident r here).own_key in
          elim (Bool-cases (u.room_ident == k)) [
            | inl same ↦ inr (
              r,
              ground arith,
              ground arith,
              busy,
              ground (arith, get-put l.rooms_by_id r.ident k (left_room l u r)),
            )
            | inr other ↦
                inl
                  (ground arith, ground (arith, get-put l.rooms_by_id r.ident k (left_room l u r)))
          ])

  -- What a lookup of a user after the call says of the user before.
  abbrev pub UserAfter : LobbyCore → LobbyUser → Text → LobbyUser → Type 0
  UserAfter l u d v =
      ((u.client_key ≡ d) × (v ≡ homeless u)) ⊎ ((u.client_key ≢ d) × (get l.users d ≡ some v))

  pub detach_users :
      (l : LobbyCore) (u : LobbyUser)
      → (detach_user_from_room choose l u).users ≡ put l.users u.client_key (homeless u)
  detach_users l u =
      detach_cases (λ m. m.users ≡ put l.users u.client_key (homeless u)) l u (λ e. refl)
        (λ r here vacant. refl) (λ r here busy. refl)

  pub detach_user :
      (l : LobbyCore) (u : LobbyUser) (d : Text) (v : LobbyUser)
      → get (detach_user_from_room choose l u).users d ≡ some v
      → UserAfter l u d v
  detach_user l u d v h = elim (Bool-cases (text_beq u.client_key d)) [
    | inl same ↦ inl (
      (text_beq_iff u.client_key d).0 same,
      ground (arith, get-put l.users u.client_key d (homeless u), detach_users l u),
    )
    | inr other ↦ inr (
      ground (arith, text_beq_iff u.client_key d),
      ground (arith, get-put l.users u.client_key d (homeless u), detach_users l u),
    )
  ]
