-- ===== src/Lobby/Entered.antt =====
-- Entering a room, and going from one room to another, keep the lobby as it should be.
use nfs_most_wanted_online.Prelude.{
  ℕ, ◌<◌, ◌≡◌, refl, sym, ◌∙◌, ◌≢◌, ◌⊎◌, inl, inr, true, some, arith, is_some, Bool-cases,
}
use nfs_most_wanted_online.Prelude.Eq.{nat_eq, text_eq, text_beq, text_beq_iff, ◌==◌}
use nfs_most_wanted_online.Prelude.Sets.{contains, add, contains-add, add-Distinct}
use nfs_most_wanted_online.Prelude.Dict.{get, put, get-put, put-Every}
use nfs_most_wanted_online.Prelude.Text.{Text}
use nfs_most_wanted_online.Lobby.State.{LobbyUser, LobbyRoom, LobbyCore}
use nfs_most_wanted_online.Lobby.Invariant.{
  IsRoomAt, IsUserAt, IsNamed, IsConsistent, IsHosted, HostedBut,
}

module _ (m : LobbyCore) (u : LobbyUser) (x : ℕ) (r : LobbyRoom) (w : IsConsistent m)
    (held : get m.users u.client_key ≡ some u) (nowhere : u.room_ident ≡ 0)
    (there : get m.rooms_by_id x ≡ some r) where
  abbrev seated : LobbyUser
  seated = record u { room_ident = x }

  abbrev grown : LobbyRoom
  grown = record r { occupants = add u.ident r.occupants }

  abbrev entered : LobbyCore
  entered = record m {
    users = put m.users u.client_key seated;
    rooms_by_id = put m.rooms_by_id x grown;
  }

  user_after :
      (d : Text) (v : LobbyUser)
      → get entered.users d ≡ some v
      → ((u.client_key ≡ d) × (v ≡ seated)) ⊎ ((u.client_key ≢ d) × (get m.users d ≡ some v))
  user_after d v h = elim (Bool-cases (text_beq u.client_key d)) [
    | inl same ↦ inl (
      (text_beq_iff u.client_key d).0 same,
      ground (arith, get-put m.users u.client_key d seated),
    )
    | inr other ↦ inr (
      ground (arith, text_beq_iff u.client_key d),
      ground (arith, get-put m.users u.client_key d seated),
    )
  ]

  room_after :
      (k : ℕ) (s : LobbyRoom)
      → get entered.rooms_by_id k ≡ some s
      → ((x ≡ k) × (s ≡ grown)) ⊎ ((x ≢ k) × (get m.rooms_by_id k ≡ some s))
  room_after k s h = elim (Bool-cases (x == k)) [
    | inl same ↦ inl (ground arith, ground (arith, get-put m.rooms_by_id x k grown))
    | inr other ↦ inr (ground arith, ground (arith, get-put m.rooms_by_id x k grown))
  ]

  grown-IsRoomAt : IsRoomAt m.next_room_ident x grown
  grown-IsRoomAt =
      let a = w.rooms x r there in
      record {
        own_key = a.own_key;
        nonzero = a.nonzero;
        issued = a.issued;
        distinct = add-Distinct u.ident r.occupants a.distinct;
      }

  seated-IsUserAt : IsUserAt m.next_user_ident u.client_key seated
  seated-IsUserAt = record { own_key = refl; issued = (w.users u.client_key u held).issued }

  before :
      (d : Text) (v : LobbyUser)
      → get entered.users d ≡ some v
      → (v' : LobbyUser) × (get m.users d ≡ some v') × (v'.ident ≡ v.ident)
  before d v h = elim (user_after d v h) [
    | inl (same, e) ↦ (u, rw (← same) held, ground arith)
    | inr (ne, e) ↦ (v, e, refl)
  ]

  apart-entered :
      (c d : Text) (v v' : LobbyUser)
      → get entered.users c ≡ some v
      → get entered.users d ≡ some v'
      → v.ident ≡ v'.ident
      → c ≡ d
  apart-entered c d v v' h h' e =
      let a = before c v h in
      let b = before d v' h' in w.apart c d a.0 b.0 a.1 b.1 (a.2 ∙ e ∙ sym b.2)

  agrees-entered :
      (d : Text) (v : LobbyUser) (k : ℕ) (s : LobbyRoom)
      → get entered.users d ≡ some v
      → get entered.rooms_by_id k ≡ some s
      → contains v.ident s.occupants ≡ (v.room_ident == k)
  agrees-entered d v k s hu hr = elim (user_after d v hu) [
    | inl (same, e) ↦ elim (room_after k s hr) [
      | inl (at, q) ↦ rw (e, q) (ground (arith, contains-add u.ident u.ident r.occupants))
      | inr (ne, q) ↦
          rw e (ground (arith, w.agrees u.client_key u k s held q, (w.rooms k s q).nonzero))
    ]
    | inr (nd, e) ↦ elim (room_after k s hr) [
      | inl (at, q) ↦
          (let far : u.ident ≢ v.ident = λ i. nd (w.apart u.client_key d u v held e i) in
            rw q
              (ground (arith, contains-add u.ident v.ident r.occupants, w.agrees d v x r e there)))
      | inr (ne, q) ↦ w.agrees d v k s e q
    ]
  ]

  placed-entered :
      (d : Text) (v : LobbyUser)
      → get entered.users d ≡ some v
      → v.room_ident ≢ 0
      → is_some (get entered.rooms_by_id v.room_ident) ≡ true
  placed-entered d v h nz = elim (user_after d v h) [
    | inl (same, e) ↦ rw e (ground (arith, get-put m.rooms_by_id x x grown))
    | inr (ne, e) ↦ ground (arith, get-put m.rooms_by_id x v.room_ident grown, w.placed d v e nz)
  ]

  IsNamed-entered :
      (name : Text) (k : ℕ) → get entered.rooms_by_name name ≡ some k → IsNamed entered name k
  IsNamed-entered name k h =
      let n = w.named name k h in
      elim (Bool-cases (x == k)) [
        | inl same ↦ (
          grown,
          ground (arith, get-put m.rooms_by_id x k grown),
          ground (arith, n.1, n.2, there),
        )
        | inr other ↦ (n.0, ground (arith, n.1, get-put m.rooms_by_id x k grown), n.2)
      ]

  known-entered :
      (k : ℕ) (s : LobbyRoom) (i : ℕ)
      → get entered.rooms_by_id k ≡ some s
      → contains i s.occupants ≡ true
      → i < entered.next_user_ident
  known-entered k s i h c = elim (room_after k s h) [
    | inl (at, q) ↦ ground (
      arith,
      contains-add u.ident i r.occupants,
      rw q at c,
      w.known x r i there,
      (w.users u.client_key u held).issued,
    )
    | inr (ne, q) ↦ w.known k s i q c
  ]

  pub entered-IsConsistent : IsConsistent entered
  entered-IsConsistent = record {
    started = w.started;
    rooms = put-Every (IsRoomAt m.next_room_ident) m.rooms_by_id x grown w.rooms grown-IsRoomAt;
    users =
        put-Every (IsUserAt m.next_user_ident) m.users u.client_key seated w.users seated-IsUserAt;
    apart = apart-entered;
    placed = placed-entered;
    agrees = agrees-entered;
    named = IsNamed-entered;
    known = known-entered;
  }

  -- Entering makes the room hosted if its host is in it or is the one who enters.
  pub entered-IsHosted :
      HostedBut x m
      → (r.host_user_ident ≡ u.ident) ⊎ IsHosted r
      → (k : ℕ) (s : LobbyRoom) → get entered.rooms_by_id k ≡ some s
      → IsHosted s
  entered-IsHosted hosts own k s h = elim (room_after k s h) [
    | inl (at, q) ↦ rw q (ground (arith, own, contains-add u.ident r.host_user_ident r.occupants))
    | inr (ne, q) ↦ hosts k s (λ e. ne (sym e)) q
  ]
