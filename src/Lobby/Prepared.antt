-- ===== src/Lobby/Prepared.antt =====
-- The room that `join_or_create_room` prepares: a new one, or one of the table with new settings.
use nfs_most_wanted_online.Prelude.{
  ℕ, ◌≡◌, refl, sym, ap, ◌∙◌, ◌≢◌, ◌⊎◌, inl, inr, Bool, none, some, [], arith, Bool-cases,
  Option-cases,
}
use nfs_most_wanted_online.Prelude.Eq.{nat_eq, text_eq, text_beq, text_beq_iff, ◌==◌}
use nfs_most_wanted_online.Prelude.Sets.{contains}
use nfs_most_wanted_online.Prelude.Dict.{get, get-put}
use nfs_most_wanted_online.Prelude.Text.{Text}
use nfs_most_wanted_online.Lobby.State.{LobbyUser, LobbyRoom, LobbyCore, room_name_key}
use nfs_most_wanted_online.Lobby.Occupancy.{find_room_by_name}
use nfs_most_wanted_online.Lobby.Invariant.{IsNamed, IsConsistent, IsHosted, HostedBut, IsLobby}
use nfs_most_wanted_online.Lobby.Entry.{
  RoomRequest, new_room, create_room, updated_room, update_room, prepare_room,
}

-- The lobby and the room for the user to enter, whose host is there or is the user.
abbrev pub Prepared : LobbyCore → LobbyUser → LobbyCore × LobbyRoom × Bool → Type 0
Prepared l u r =
    IsConsistent r.0
    × HostedBut r.1.ident r.0
    × (get r.0.rooms_by_id r.1.ident ≡ some r.1)
    × ((r.1.host_user_ident ≡ u.ident) ⊎ IsHosted r.1)
    × (r.0.users ≡ l.users)

module _ (l : LobbyCore) (r : LobbyRoom) (w : IsLobby l) (next : r.ident ≡ l.next_room_ident)
    (nobody : r.occupants ≡ []) where
  unstored : get l.rooms_by_id r.ident ≡ none
  unstored = elim (Option-cases (get l.rooms_by_id r.ident)) [
    | inl e ↦ e
    | inr (s, e) ↦ absurd (omega (arith, (w.consistent.rooms r.ident s e).issued, next))
  ]

  created_room :
      (k : ℕ) (s : LobbyRoom)
      → get (create_room l r).rooms_by_id k ≡ some s
      → ((r.ident ≡ k) × (s ≡ r)) ⊎ ((r.ident ≢ k) × (get l.rooms_by_id k ≡ some s))
  unfolding create_room
  created_room k s h = elim (Bool-cases (r.ident == k)) [
    | inl same ↦ inl (ground arith, ground (arith, get-put l.rooms_by_id r.ident k r))
    | inr other ↦ inr (ground arith, ground (arith, get-put l.rooms_by_id r.ident k r))
  ]

  -- No user is placed in a room that is not stored.
  not_there : (c : Text) (u : LobbyUser) → get l.users c ≡ some u → u.room_ident ≢ r.ident
  not_there c u h e =
      ground (arith, w.consistent.placed c u h, unstored, next, ap (get l.rooms_by_id) e)

  IsNamed-created :
      (name : Text) (k : ℕ)
      → get (create_room l r).rooms_by_name name ≡ some k
      → IsNamed (create_room l r) name k
  unfolding create_room
  IsNamed-created name k h = elim (Bool-cases (text_beq (room_name_key r.name) name)) [
    | inl same ↦
        (let e : r.ident ≡ k =
            ground (arith, get-put l.rooms_by_name (room_name_key r.name) name r.ident) in
          (
            r,
            ground (arith, e, get-put l.rooms_by_id r.ident k r),
            (text_beq_iff (room_name_key r.name) name).0 same,
          ))
    | inr other ↦
        (let n =
            w.consistent.named name k
              (ground (arith, get-put l.rooms_by_name (room_name_key r.name) name r.ident)) in
          (
            n.0,
            ground (
              arith,
              n.1,
              unstored,
              ap (get l.rooms_by_id) {x = r.ident} {y = k},
              get-put l.rooms_by_id r.ident k r,
            ),
            n.2,
          ))
  ]

  created_room-IsConsistent : IsConsistent (create_room l r)
  unfolding create_room
  created_room-IsConsistent = record {
    started = omega (arith, w.consistent.started);
    rooms = λ k s h. elim (created_room k s h) [
      | inl (same, q) ↦
          (let e : s.ident ≡ k = rw q same in
            record {
              own_key = e;
              nonzero = omega (arith, same, next, w.consistent.started);
              issued = omega (arith, same, next);
              distinct = rw (q, nobody) tt;
            })
      | inr (ne, q) ↦
          (let a = w.consistent.rooms k s q in
            record {
              own_key = a.own_key;
              nonzero = a.nonzero;
              issued = omega (arith, a.issued);
              distinct = a.distinct;
            })
    ];
    users = w.consistent.users;
    apart = w.consistent.apart;
    placed = λ c u h nz.
        ground (arith, get-put l.rooms_by_id r.ident u.room_ident r, w.consistent.placed c u h nz);
    agrees = λ c u k s h hr. elim (created_room k s hr) [
      | inl (same, q) ↦ rw (q, nobody) (unfold contains in ground (arith, not_there c u h))
      | inr (ne, q) ↦ w.consistent.agrees c u k s h q
    ];
    named = IsNamed-created;
    known = λ k s i h m. elim (created_room k s h) [
      | inl (same, q) ↦ absurd (
          unfold contains in
          cc (ap (λ (x : LobbyRoom). contains i x.occupants) q, ap (contains i) nobody, m))
      | inr (ne, q) ↦ w.consistent.known k s i q m
    ];
  }

  created_room-HostedBut : HostedBut r.ident (create_room l r)
  created_room-HostedBut k s ne h = elim (created_room k s h) [
    | inl (same, q) ↦ absurd (ne (sym same))
    | inr (other, q) ↦ w.hosted k s q
  ]

  created_room_stored : get (create_room l r).rooms_by_id r.ident ≡ some r
  unfolding create_room
  created_room_stored = ground (arith, get-put l.rooms_by_id r.ident r.ident r)

-- A room of the table whose settings are changed.
module _ (l : LobbyCore) (r r' : LobbyRoom) (w : IsLobby l)
    (stored : get l.rooms_by_id r.ident ≡ some r) (same_ident : r'.ident ≡ r.ident)
    (same_name : r'.name ≡ r.name) (same_host : r'.host_user_ident ≡ r.host_user_ident)
    (same_occupants : r'.occupants ≡ r.occupants) where
  -- The room before the change.
  before :
      (k : ℕ) (s : LobbyRoom)
      → get (update_room l r').rooms_by_id k ≡ some s
      → (s' : LobbyRoom) × (get l.rooms_by_id k ≡ some s')
        × (s.ident ≡ s'.ident)
        × (s.host_user_ident ≡ s'.host_user_ident)
        × (s.occupants ≡ s'.occupants)
  unfolding update_room
  before k s h = elim (Bool-cases (r'.ident == k)) [
    | inl same ↦
        (let q : s ≡ r' = ground (arith, get-put l.rooms_by_id r'.ident k r') in
          (r, ground arith, rw q same_ident, rw q same_host, rw q same_occupants))
    | inr other ↦ (s, ground (arith, get-put l.rooms_by_id r'.ident k r'), refl, refl, refl)
  ]

  IsNamed-updated :
      (name : Text) (k : ℕ)
      → get (update_room l r').rooms_by_name name ≡ some k
      → IsNamed (update_room l r') name k
  unfolding update_room
  IsNamed-updated name k h =
      let n = w.consistent.named name k h in
      elim (Bool-cases (r'.ident == k)) [
        | inl same ↦ (
          r',
          ground (arith, get-put l.rooms_by_id r'.ident k r'),
          rw same_name (ground (arith, n.1, n.2)),
        )
        | inr other ↦ (n.0, ground (arith, n.1, get-put l.rooms_by_id r'.ident k r'), n.2)
      ]

  updated-IsLobby : IsLobby (update_room l r')
  unfolding update_room
  updated-IsLobby = record {
    consistent = record {
      started = w.consistent.started;
      rooms = λ k s h.
          let b = before k s h in
          let a = w.consistent.rooms k b.0 b.1 in
          record {
            own_key = b.2 ∙ a.own_key;
            nonzero = a.nonzero;
            issued = a.issued;
            distinct = rw b.4 a.distinct;
          };
      users = w.consistent.users;
      apart = w.consistent.apart;
      placed = λ c u h nz.
          ground
            (arith, get-put l.rooms_by_id r'.ident u.room_ident r', w.consistent.placed c u h nz);
      agrees =
          λ c u k s h hr. let b = before k s hr in rw b.4 (w.consistent.agrees c u k b.0 h b.1);
      named = IsNamed-updated;
      known = λ k s i h m. let b = before k s h in w.consistent.known k b.0 i b.1 (rw b.4 at m);
    };
    hosted = λ k s h. let b = before k s h in rw (b.3, b.4) (w.hosted k b.0 b.1);
  }

  updated_stored : get (update_room l r').rooms_by_id r'.ident ≡ some r'
  unfolding update_room
  updated_stored = ground (arith, get-put l.rooms_by_id r'.ident r'.ident r')

found_is_stored :
    (l : LobbyCore) (name : Text) (r : LobbyRoom)
    → IsLobby l
    → find_room_by_name l name ≡ some r
    → get l.rooms_by_id r.ident ≡ some r
unfolding find_room_by_name
found_is_stored l name r w h = elim (Option-cases (get l.rooms_by_name (room_name_key name))) [
  | inl e ↦ absurd (ground arith)
  | inr (k, e) ↦
      (let stored : get l.rooms_by_id k ≡ some r = ground arith in
        ap (get l.rooms_by_id) (w.consistent.rooms k r stored).own_key ∙ stored)
]

-- Nothing but the rooms is touched, and the room that is returned is ready to be entered.
pub prepare_room-Prepared :
    (l : LobbyCore) (now : ℕ) (u : LobbyUser) (q : RoomRequest)
    → IsLobby l
    → Prepared l u (prepare_room l now u q)
unfolding prepare_room
prepare_room-Prepared l now u q w = elim (Option-cases (find_room_by_name l q.room_name)) [
  | inl e ↦
      (let r = new_room l now u q in
        let ident : r.ident ≡ l.next_room_ident = unfold new_room in refl in
        let nobody : r.occupants ≡ [] = unfold new_room in refl in
        rw (e, prepare_room)
          (
            created_room-IsConsistent l r w ident nobody,
            created_room-HostedBut l r w ident nobody,
            created_room_stored l r w ident nobody,
            inl (unfold new_room in refl),
            unfold create_room in refl,
          ))
  | inr (r, e) ↦
      (let r' = updated_room r q in
        let stored = found_is_stored l q.room_name r w e in
        let ident : r'.ident ≡ r.ident = unfold updated_room in refl in
        let name : r'.name ≡ r.name = unfold updated_room in refl in
        let host : r'.host_user_ident ≡ r.host_user_ident = unfold updated_room in refl in
        let occupants : r'.occupants ≡ r.occupants = unfold updated_room in refl in
        let lobby = updated-IsLobby l r r' w stored ident name host occupants in
        rw (e, prepare_room)
          (
            lobby.consistent,
            (λ k s _ h. lobby.hosted k s h),
            updated_stored l r r' w stored ident name host occupants,
            inr (unfold updated_room in w.hosted r.ident r stored),
            unfold update_room in refl,
          ))
]
