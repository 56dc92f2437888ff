-- ===== src/Lobby/Ensured.antt =====
-- `ensure_user` and the room that `join_or_create_room` prepares keep the lobby consistent.
use nfs_most_wanted_online.Prelude.{
  ℕ, suc, ◌≡◌, refl, sym, ◌∙◌, ◌≢◌, ◌⊎◌, inl, inr, false, none, some, arith, Bool-cases,
  Option-cases,
}
use nfs_most_wanted_online.Prelude.Eq.{nat_eq, text_eq, text_beq, text_beq_iff}
use nfs_most_wanted_online.Prelude.Sets.{contains}
use nfs_most_wanted_online.Prelude.Dict.{get, put, get-put, put-Every}
use nfs_most_wanted_online.Prelude.Text.{Text}
use nfs_most_wanted_online.Lobby.State.{LobbyUser, LobbyRoom, LobbyCore}
use nfs_most_wanted_online.Lobby.Occupancy.{ensure_user, new_user, renamed}
use nfs_most_wanted_online.Lobby.Invariant.{IsUserAt, IsLobby}

-- Writing back a user with a new name.
module _ (l : LobbyCore) (key : Text) (u u' : LobbyUser) (w : IsLobby l)
    (held : get l.users key ≡ some u) (own : u'.client_key ≡ key) (same_ident : u'.ident ≡ u.ident)
    (same_room : u'.room_ident ≡ u.room_ident) where
  abbrev rewritten : LobbyCore
  rewritten = record l { users = put l.users key u' }

  before :
      (d : Text) (v : LobbyUser)
      → get rewritten.users d ≡ some v
      → (v' : LobbyUser) × (get l.users d ≡ some v')
        × (v'.ident ≡ v.ident)
        × (v'.room_ident ≡ v.room_ident)
  before d v h = elim (Bool-cases (text_beq key d)) [
    | inl same ↦
        (let e : key ≡ d = (text_beq_iff key d).0 same in
          let q : u' ≡ v = ground (arith, get-put l.users key d u') in
          (u, rw (← e) held, rw (← q) (sym same_ident), rw (← q) (sym same_room)))
    | inr other ↦ (v, ground (arith, get-put l.users key d u'), refl, refl)
  ]

  rewritten-IsLobby : IsLobby rewritten
  rewritten-IsLobby = record {
    consistent = record {
      started = w.consistent.started;
      rooms = w.consistent.rooms;
      users =
          put-Every (IsUserAt l.next_user_ident) l.users key u' w.consistent.users (record {
            own_key = own;
            issued = rw same_ident (w.consistent.users key u held).issued;
          });
      apart = λ c d v v' h h' e.
          let a = before c v h in
          let b = before d v' h' in w.consistent.apart c d a.0 b.0 a.1 b.1 (a.2 ∙ e ∙ sym b.2);
      placed = λ c v h nz.
          let a = before c v h in rw (← a.3) (w.consistent.placed c a.0 a.1 (rw (← a.3) at nz));
      agrees = λ c v k r h hr.
          let a = before c v h in rw (← a.2, ← a.3) (w.consistent.agrees c a.0 k r a.1 hr);
      named = w.consistent.named;
      known = w.consistent.known;
    };
    hosted = w.hosted;
  }

-- Adding a user under a key that is free.
module _ (l : LobbyCore) (key : Text) (u : LobbyUser) (w : IsLobby l)
    (fresh : get l.users key ≡ none) (own : u.client_key ≡ key) (next : u.ident ≡ l.next_user_ident)
    (nowhere : u.room_ident ≡ 0) where
  abbrev extended : LobbyCore
  extended = record l { next_user_ident = suc l.next_user_ident; users = put l.users key u }

  extended_user :
      (d : Text) (v : LobbyUser)
      → get extended.users d ≡ some v
      → ((key ≡ d) × (v ≡ u)) ⊎ ((key ≢ d) × (get l.users d ≡ some v))
  extended_user d v h = elim (Bool-cases (text_beq key d)) [
    | inl same ↦ inl ((text_beq_iff key d).0 same, ground (arith, get-put l.users key d u))
    | inr other ↦ inr (ground (arith, text_beq_iff key d), ground (arith, get-put l.users key d u))
  ]

  stranger :
      (k : ℕ) (r : LobbyRoom) → get l.rooms_by_id k ≡ some r → contains u.ident r.occupants ≡ false
  stranger k r h = elim (Bool-cases (contains u.ident r.occupants)) [
    | inl there ↦ absurd (omega (arith, w.consistent.known k r u.ident h there, next))
    | inr away ↦ away
  ]

  extended-apart :
      (c d : Text) (v v' : LobbyUser)
      → get extended.users c ≡ some v
      → get extended.users d ≡ some v'
      → v.ident ≡ v'.ident
      → c ≡ d
  extended-apart c d v v' h h' e = elim (extended_user c v h) [
    | inl (a, q) ↦ elim (extended_user d v' h') [
      | inl (b, q') ↦ sym a ∙ b
      | inr (b, q') ↦ absurd (ground (arith, (w.consistent.users d v' q').issued, next, q))
    ]
    | inr (a, q) ↦ elim (extended_user d v' h') [
      | inl (b, q') ↦ absurd (ground (arith, (w.consistent.users c v q).issued, next, q'))
      | inr (b, q') ↦ w.consistent.apart c d v v' q q' e
    ]
  ]

  extended-IsLobby : IsLobby extended
  extended-IsLobby = record {
    consistent = record {
      started = w.consistent.started;
      rooms = w.consistent.rooms;
      users = λ d v h. elim (extended_user d v h) [
        | inl (a, q) ↦ rw q (record { own_key = own ∙ a; issued = omega (arith, next) })
        | inr (a, q) ↦
            (let o = w.consistent.users d v q in
              record { own_key = o.own_key; issued = omega (arith, o.issued) })
      ];
      apart = extended-apart;
      placed = λ d v h nz. elim (extended_user d v h) [
        | inl (a, q) ↦ absurd (nz (rw q nowhere))
        | inr (a, q) ↦ w.consistent.placed d v q nz
      ];
      agrees = λ d v k r h hr. elim (extended_user d v h) [
        | inl (a, q) ↦
            rw (q, nowhere) (ground (arith, stranger k r hr, (w.consistent.rooms k r hr).nonzero))
        | inr (a, q) ↦ w.consistent.agrees d v k r q hr
      ];
      named = w.consistent.named;
      known = λ k r i h m. omega (arith, w.consistent.known k r i h m);
    };
    hosted = w.hosted;
  }

-- What holds of the user that `ensure_user` returns.
abbrev pub Ensured : LobbyCore → Text → LobbyCore × LobbyUser → Type 0
Ensured l key r =
    IsLobby r.0
    × (get r.0.users key ≡ some r.1)
    × (r.1.client_key ≡ key)
    × (r.0.rooms_by_id ≡ l.rooms_by_id)
    × (r.0.rooms_by_name ≡ l.rooms_by_name)

pub ensure_user-Ensured :
    (l : LobbyCore) (now : ℕ) (key persona display_name : Text)
    → IsLobby l
    → Ensured l key (ensure_user l now key persona display_name)
unfolding ensure_user
ensure_user-Ensured l now key persona display_name w = elim (Option-cases (get l.users key)) [
  | inl e ↦
      (let u = new_user l now key persona display_name in
        rw (e, ensure_user)
          (
            extended-IsLobby l key u w e refl refl refl,
            ground (arith, get-put l.users key key u, text_beq_iff key key),
            refl,
            refl,
            refl,
          ))
  | inr (u, e) ↦
      (let u' = renamed u persona display_name in
        let own = (w.consistent.users key u e).own_key in
        rw (e, ensure_user)
          (
            rewritten-IsLobby l key u u' w e own refl refl,
            ground (arith, get-put l.users key key u', text_beq_iff key key),
            own,
            refl,
            refl,
          ))
]
