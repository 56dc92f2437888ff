-- ===== src/Lobby/Detached.antt =====
-- `detach_user_from_room` keeps the lobby consistent, and the rooms hosted.
use nfs_most_wanted_online.Prelude.{
  ℕ, ◌<◌, ◌≡◌, refl, sym, ap, ◌∙◌, ◌≢◌, inl, inr, true, false, some, List, arith, is_some,
  Bool-cases, Option-cases, if◌then◌else◌,
}
use nfs_most_wanted_online.Prelude.Eq.{nat_eq, text_eq, text_beq_iff, ◌==◌}
use nfs_most_wanted_online.Prelude.Sets.{
  contains, discard, contains-discard, discard-Distinct, no_members,
}
use nfs_most_wanted_online.Prelude.Dict.{get, get-put, get-erase}
use nfs_most_wanted_online.Prelude.Text.{Text}
use nfs_most_wanted_online.Lobby.State.{LobbyUser, LobbyRoom, LobbyCore, room_name_key}
use nfs_most_wanted_online.Lobby.Occupancy.{is_vacant, vacated, detach_user_from_room}
use nfs_most_wanted_online.Lobby.Invariant.{IsRoomAt, IsUserAt, IsNamed, IsConsistent}
use nfs_most_wanted_online.Lobby.Leaving.{
  left_room, unplaced, rehosted-same, detach_cases, detach_room, detach_user,
}

module _ (choose : List ℕ → ℕ) (l : LobbyCore) (u : LobbyUser) (w : IsConsistent l)
    (held : get l.users u.client_key ≡ some u) where
  abbrev out : LobbyCore
  out = detach_user_from_room choose l u

  counters : (out.next_user_ident ≡ l.next_user_ident) × (out.next_room_ident ≡ l.next_room_ident)
  counters =
      detach_cases choose
        (λ m. (m.next_user_ident ≡ l.next_user_ident) × (m.next_room_ident ≡ l.next_room_ident)) l u
        (λ e. (refl, refl)) (λ r here vacant. (refl, refl)) (λ r here busy. (refl, refl))

  occupants-left :
      (i : ℕ) (r : LobbyRoom)
      → contains i (left_room choose l u r).occupants
        ≡ (if u.ident == i then false else contains i r.occupants)
  occupants-left i r =
      ap (contains i) (rehosted-same choose (unplaced choose l u) (vacated r u.ident)).2
      ∙ contains-discard u.ident i r.occupants

  rooms-out :
      (k : ℕ) (s : LobbyRoom) → get out.rooms_by_id k ≡ some s → IsRoomAt out.next_room_ident k s
  rooms-out k s h = rw (counters.1) (elim (detach_room choose l u w k s h) [
    | inl (ne, e) ↦ w.rooms k s e
    | inr (r, same, e, busy, q) ↦
        (let a = w.rooms k r e in
          let b = rehosted-same choose (unplaced choose l u) (vacated r u.ident) in
          rw q (record {
            own_key = b.0 ∙ a.own_key;
            nonzero = a.nonzero;
            issued = a.issued;
            distinct = rw b.2 (discard-Distinct u.ident r.occupants a.distinct);
          }))
  ])

  users-out :
      (d : Text) (v : LobbyUser) → get out.users d ≡ some v → IsUserAt out.next_user_ident d v
  users-out d v h = rw (counters.0) (elim (detach_user choose l u d v h) [
    | inl (same, e) ↦
        (let a = w.users u.client_key u held in rw e (record { own_key = same; issued = a.issued }))
    | inr (ne, e) ↦ w.users d v e
  ])

  -- The user's record before the call.
  before :
      (d : Text) (v : LobbyUser)
      → get out.users d ≡ some v
      → (v' : LobbyUser) × (get l.users d ≡ some v') × (v'.ident ≡ v.ident)
  before d v h = elim (detach_user choose l u d v h) [
    | inl (same, e) ↦ (u, rw (← same) held, ground arith)
    | inr (ne, e) ↦ (v, e, refl)
  ]

  apart-out :
      (c d : Text) (v v' : LobbyUser)
      → get out.users c ≡ some v
      → get out.users d ≡ some v'
      → v.ident ≡ v'.ident
      → c ≡ d
  apart-out c d v v' h h' e =
      let a = before c v h in
      let b = before d v' h' in w.apart c d a.0 b.0 a.1 b.1 (a.2 ∙ e ∙ sym b.2)

  other_ident :
      (d : Text) (v : LobbyUser) → u.client_key ≢ d → get l.users d ≡ some v → u.ident ≢ v.ident
  other_ident d v ne e q = ne (w.apart u.client_key d u v held e q)

  agrees-out :
      (d : Text) (v : LobbyUser) (k : ℕ) (s : LobbyRoom)
      → get out.users d ≡ some v
      → get out.rooms_by_id k ≡ some s
      → contains v.ident s.occupants ≡ (v.room_ident == k)
  agrees-out d v k s hu hr = elim (detach_user choose l u d v hu) [
    | inl (same, e) ↦ elim (detach_room choose l u w k s hr) [
      | inl (ne, q) ↦
          rw e (ground (arith, w.agrees u.client_key u k s held q, (w.rooms k s q).nonzero))
      | inr (r, at, q, busy, sr) ↦
          rw (e, sr) (ground (arith, occupants-left u.ident r, (w.rooms k r q).nonzero))
    ]
    | inr (nd, e) ↦ elim (detach_room choose l u w k s hr) [
      | inl (ne, q) ↦ w.agrees d v k s e q
      | inr (r, at, q, busy, sr) ↦
          rw sr
            (ground (arith, occupants-left v.ident r, other_ident d v nd e, w.agrees d v k r e q))
    ]
  ]

  busy_with :
      (i : ℕ) (r : LobbyRoom)
      → u.ident ≢ i
      → contains i r.occupants ≡ true
      → is_vacant (vacated r u.ident) ≡ false
  busy_with i r ne h = elim (Bool-cases (is_vacant (vacated r u.ident))) [
    | inr busy ↦ busy
    | inl vacant ↦ absurd (
        ground (
          arith,
          (no_members (discard u.ident r.occupants)).0 (ground arith) i,
          contains-discard u.ident i r.occupants,
        ))
  ]

  -- A room with another occupant is still there.
  stays :
      (k i : ℕ) (r : LobbyRoom)
      → get l.rooms_by_id k ≡ some r
      → contains i r.occupants ≡ true
      → u.ident ≢ i
      → is_some (get out.rooms_by_id k) ≡ true
  stays k i r e h ne =
      detach_cases choose (λ m. is_some (get m.rooms_by_id k) ≡ true) l u (λ _. rw e refl)
        (λ s here vacant. ground (
          arith,
          get-erase l.rooms_by_id s.ident k,
          (w.rooms u.room_ident s here).own_key,
          busy_with i r ne h,
        ))
        (λ s here busy. ground (arith, get-put l.rooms_by_id s.ident k (left_room choose l u s)))

  placed-out :
      (d : Text) (v : LobbyUser)
      → get out.users d ≡ some v
      → v.room_ident ≢ 0
      → is_some (get out.rooms_by_id v.room_ident) ≡ true
  placed-out d v h nz = elim (detach_user choose l u d v h) [
    | inl (same, e) ↦ absurd (nz (ground arith))
    | inr (ne, e) ↦ elim (Option-cases (get l.rooms_by_id v.room_ident)) [
      | inl q ↦ absurd (ground (arith, w.placed d v e nz))
      | inr (r, q) ↦
          stays v.room_ident v.ident r q (ground (arith, w.agrees d v v.room_ident r e q))
            (other_ident d v ne e)
    ]
  ]

  known-out :
      (k : ℕ) (s : LobbyRoom) (i : ℕ)
      → get out.rooms_by_id k ≡ some s
      → contains i s.occupants ≡ true
      → i < out.next_user_ident
  known-out k s i h m = rw (counters.0) (elim (detach_room choose l u w k s h) [
    | inl (ne, e) ↦ w.known k s i e m
    | inr (r, same, e, busy, q) ↦ w.known k r i e (ground (arith, occupants-left i r, rw q at m))
  ])

  IsNamed-out : (name : Text) (k : ℕ) → get out.rooms_by_name name ≡ some k → IsNamed out name k
  IsNamed-out name k =
      detach_cases choose (λ m. get m.rooms_by_name name ≡ some k → IsNamed m name k) l u
        (λ _ h. w.named name k h)
        (λ r here vacant h.
          let n =
            w.named name k
              (ground (arith, get-erase l.rooms_by_name (room_name_key r.name) name)) in
          (
            n.0,
            ground (
              arith,
              n.1,
              n.2,
              here,
              get-erase l.rooms_by_id r.ident k,
              get-erase l.rooms_by_name (room_name_key r.name) name,
              text_beq_iff (room_name_key r.name) name,
              (w.rooms u.room_ident r here).own_key,
            ),
            n.2,
          ))
        (λ r here busy h.
          let n = w.named name k h in
          let b = rehosted-same choose (unplaced choose l u) (vacated r u.ident) in
          elim (Bool-cases (r.ident == k)) [
            | inl same ↦ (
              left_room choose l u r,
              ground (arith, get-put l.rooms_by_id r.ident k (left_room choose l u r)),
              rw b.1 (ground (arith, n.1, n.2, here, (w.rooms u.room_ident r here).own_key)),
            )
            | inr other ↦ (
              n.0,
              ground (arith, n.1, get-put l.rooms_by_id r.ident k (left_room choose l u r)),
              n.2,
            )
          ])

  pub detach-IsConsistent : IsConsistent out
  detach-IsConsistent = record {
    started = rw (counters.1) w.started;
    rooms = rooms-out;
    users = users-out;
    apart = apart-out;
    placed = placed-out;
    agrees = agrees-out;
    named = IsNamed-out;
    known = known-out;
  }
