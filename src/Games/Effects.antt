-- ===== src/Games/Effects.antt =====
-- Who gets into a game, and what joining, leaving and sweeping do to the table.
use nfs_most_wanted_online.Prelude.{
  ℕ, ◌+◌, ◌<◌, ◌≡◌, refl, ◌≢◌, ◌↔◌, ◌⊎◌, inl, inr, true, false, not, ◌&&◌, ◌||◌, Option, none, some,
  List, [], ◌∷◌, ◌++◌, arith, length, Bool-cases, Option-cases, is_some, All, All-append,
  if◌then◌else◌,
}
use nfs_most_wanted_online.Prelude.Eq.{nat_eq, ◌==◌, text_eq, text_beq_iff}
use nfs_most_wanted_online.Prelude.Sets.{contains, contains-remove, contains-discard, no_members}
use nfs_most_wanted_online.Prelude.Dict.{get, put, erase, keys, get-put, get-erase, contains-keys}
use nfs_most_wanted_online.Prelude.Text.{Text, truthy}
use nfs_most_wanted_online.Games.{
  Game, GameState, opened, active, finished, expired, can_join, add_player, remove_player,
  is_expired, is_open,
}
use nfs_most_wanted_online.Games.Manager.{
  GameManager, get_game, destroy, join, leave, Sweep, sweep_keys, sweep_expired,
}
use nfs_most_wanted_online.Games.Invariant.{IsSound}

-- The ways into a game.
pub data MayEnter (g : Game) (uid : ℕ) (secret : Text) : Type 0 where
  host : uid ≡ g.host_uid → MayEnter g uid secret
  inside : contains uid g.participants ≡ true → MayEnter g uid secret
  guest :
      contains uid g.kicked_uids ≡ false
      → length g.participants < g.limit
      → g.state ≡ opened
      → (g.secret ≡ []) ⊎ (secret ≡ g.secret)
      → MayEnter g uid secret

state_opened : (s : GameState) → is_open s ≡ true → s ≡ opened
state_opened opened h = refl
state_opened active h = cc
state_opened finished h = cc
state_opened expired h = cc

secret_matches : (s t : Text) → (truthy s && not (t == s)) ≡ false → (s ≡ []) ⊎ (t ≡ s)
secret_matches [] t h = inl refl
secret_matches (c ∷ s) t h = inr (ground (arith, text_beq_iff t (c ∷ s)))

-- A game admits a user exactly when the user is its host or a participant, or was not kicked from it
-- while the game is open with fewer players than its limit, and the password is right or none is set.
pub can_join_game_iff :
    (g : Game) (uid : ℕ) (secret : Text) → (can_join g uid secret ≡ true) ↔ MayEnter g uid secret
unfolding can_join
can_join_game_iff g uid secret = (
  (λ h. elim (Bool-cases (contains uid g.participants)) [
    | inl there ↦ inside there
    | inr outside ↦ elim (Bool-cases (uid == g.host_uid)) [
      | inl hosting ↦ host (ground arith)
      | inr other ↦
          guest (ground arith) (ground arith) (state_opened g.state (ground arith))
            (secret_matches g.secret secret (ground arith))
    ]
  ]),
  admitted,
)
  where
    admitted : MayEnter g uid secret → can_join g uid secret ≡ true
    admitted (host e) = ground arith
    admitted (inside h) = ground arith
    admitted (guest k l s (inl e)) = ground arith
    admitted (guest k l s (inr e)) = ground (arith, text_beq_iff secret g.secret)

-- A join succeeds exactly when the game is there, admits the user and does not have the user yet.
-- The user is then its last participant; a refused join changes no game, and no join another game.
pub join_game_effect :
    (m : GameManager) (game_id uid : ℕ) (secret : Text)
    → (((join m game_id uid secret).1 ≡ false)
        × ((j : ℕ) → get_game (join m game_id uid secret).0 j ≡ get_game m j)
        × ((g : Game)
            → get_game m game_id ≡ some g
            → (contains uid g.participants ≡ true) ⊎ ¬ MayEnter g uid secret))
      ⊎ ((g : Game) × ((join m game_id uid secret).1 ≡ true)
          × (get_game m game_id ≡ some g)
          × MayEnter g uid secret
          × (contains uid g.participants ≡ false)
          × ((j : ℕ)
              → get_game (join m game_id uid secret).0 j ≡ (
                  if game_id == j
                  then some (record g { participants = g.participants ++ uid ∷ [] })
                  else get_game m j)))
unfolding join get_game add_player
join_game_effect m game_id uid secret = elim (Option-cases (get m.games game_id)) [
  | inl e ↦ inl (rw (e, join) refl, (λ j. rw (e, join) refl), λ g h. absurd (cc (e, h)))
  | inr (g, e) ↦ elim (Bool-cases (contains uid g.participants)) [
    | inl there ↦ inl (
      ground arith,
      (λ j. ground (arith, get-put m.games game_id j g)),
      λ g' h. inl (ground arith),
    )
    | inr outside ↦ elim (Bool-cases (can_join g uid secret)) [
      | inr refused ↦ inl (
        ground arith,
        (λ j. ground (arith, get-put m.games game_id j g)),
        λ g' h. inr (λ may. ground (arith, (can_join_game_iff g' uid secret).1 may)),
      )
      | inl ok ↦ inr (
        g,
        ground arith,
        e,
        (can_join_game_iff g uid secret).0 ok,
        outside,
        λ j. ground (
          arith,
          get-put m.games game_id j (record g { participants = g.participants ++ uid ∷ [] }),
        ),
      )
    ]
  ]
]

get_game-leave :
    (m : GameManager) (k uid j : ℕ) (g : Game)
    → get_game m k ≡ some g
    → get_game (leave m k uid).0 j ≡ (
        if k == j
        then if uid == g.host_uid || length (remove_player g uid).participants == 0
          then none
          else some (remove_player g uid)
        else get_game m j)
unfolding leave get_game destroy
get_game-leave m k uid j g e =
    rw (e, leave)
      (ground (
        arith,
        get-put m.games k j (remove_player g uid),
        get-erase (put m.games k (remove_player g uid)) k j,
      ))

gone_flag :
    (m : GameManager) (k uid : ℕ) (g : Game)
    → get_game m k ≡ some g
    → (leave m k uid).2 ≡ (uid == g.host_uid || length (remove_player g uid).participants == 0)
unfolding leave get_game
gone_flag m k uid g e = rw (e, leave) (ground arith)

contains-remove_player :
    (g : Game) (uid v : ℕ)
    → IsSound g
    → contains v (remove_player g uid).participants
      ≡ (if uid == v then false else contains v g.participants)
unfolding remove_player
contains-remove_player g uid v s = ground (arith, contains-remove uid v g.participants s.distinct)

last_one :
    (g : Game) (uid : ℕ)
    → IsSound g
    → (length (remove_player g uid).participants ≡ 0)
      ↔ ((v : ℕ) → v ≢ uid → contains v g.participants ≡ false)
last_one g uid s =
    let left = no_members (remove_player g uid).participants in
    (
      (λ h v ne. ground (arith, left.0 h v, contains-remove_player g uid v s)),
      λ h. left.1 (λ v. ground (arith, contains-remove_player g uid v s, h v)),
    )

removed :
    (g : Game) (uid : ℕ)
    → IsSound g
    → (contains uid (remove_player g uid).participants ≡ false)
      × (contains uid (remove_player g uid).ready_participants ≡ false)
      × ((v : ℕ)
          → v ≢ uid
          → contains v (remove_player g uid).participants ≡ contains v g.participants)
removed g uid s = (
  ground (arith, contains-remove_player g uid uid s),
  unfold remove_player in ground (arith, contains-discard uid uid g.ready_participants),
  λ v ne. ground (arith, contains-remove_player g uid v s),
)

-- When a user leaves a game, it is removed from the table if the user is its host or nobody is left,
-- and this is reported; otherwise it stays, with the user neither a participant nor ready. No other
-- game changes.
pub leave_game_effect :
    (m : GameManager) (game_id uid : ℕ) (g : Game)
    → get_game m game_id ≡ some g
    → IsSound g
    → ((j : ℕ) → j ≢ game_id → get_game (leave m game_id uid).0 j ≡ get_game m j)
      × ((leave m game_id uid).2 ≡ not (is_some (get_game (leave m game_id uid).0 game_id)))
      × ((get_game (leave m game_id uid).0 game_id ≡ none)
          ↔ ((uid ≡ g.host_uid) ⊎ ((v : ℕ) → v ≢ uid → contains v g.participants ≡ false)))
      × ((h : Game)
          → get_game (leave m game_id uid).0 game_id ≡ some h
          → (contains uid h.participants ≡ false)
            × (contains uid h.ready_participants ≡ false)
            × ((v : ℕ) → v ≢ uid → contains v h.participants ≡ contains v g.participants))
leave_game_effect m game_id uid g e s = (
  (λ j ne. ground (arith, get_game-leave m game_id uid j g e)),
  ground (arith, get_game-leave m game_id uid game_id g e, gone_flag m game_id uid g e),
  (
    (λ h. elim (Bool-cases (uid == g.host_uid)) [
      | inl hosting ↦ inl (ground arith)
      | inr other ↦
          inr ((last_one g uid s).0 (ground (arith, get_game-leave m game_id uid game_id g e)))
    ]),
    closes,
  ),
  λ h q.
      let stays : h ≡ remove_player g uid =
        ground (arith, get_game-leave m game_id uid game_id g e) in
      rw stays (removed g uid s),
)
  where
    closes :
        (uid ≡ g.host_uid) ⊎ ((v : ℕ) → v ≢ uid → contains v g.participants ≡ false)
        → get_game (leave m game_id uid).0 game_id ≡ none
    closes (inl hosting) = ground (arith, get_game-leave m game_id uid game_id g e)
    closes (inr alone) =
        ground (arith, get_game-leave m game_id uid game_id g e, (last_one g uid s).1 alone)

-- What a sweep leaves of a lookup.
abbrev pub unexpired : ℕ → ℕ → Option Game → Option Game
unexpired timeout now none = none
unexpired timeout now (some g) = if is_expired timeout now g then none else some g

get-sweep_keys :
    (timeout now j : ℕ) (gids : List ℕ) (s : Sweep)
    → get (sweep_keys timeout now gids s).0 j
      ≡ (if contains j gids then unexpired timeout now (get s.0 j) else get s.0 j)
unfolding sweep_keys contains
get-sweep_keys timeout now j [] s = refl
get-sweep_keys timeout now j (gid ∷ gids) s = elim (Option-cases (get s.0 gid)) [
  | inl e ↦ rw (e, sweep_keys) (ground (arith, get-sweep_keys timeout now j gids s))
  | inr (g, e) ↦
      rw (e, sweep_keys)
        (elim (Bool-cases (is_expired timeout now g)) [
          | inl old ↦ rw old (
              ground (
                arith,
                get-sweep_keys timeout now j gids (erase s.0 gid, s.1 ++ g ∷ []),
                get-erase s.0 gid j,
              ))
          | inr young ↦ rw young (ground (arith, get-sweep_keys timeout now j gids s))
        ])
]

-- A sweep removes exactly the games that have expired, whatever their place in the table, and leaves
-- every other game as it was.
sweep_effect :
    (m : GameManager) (now j : ℕ)
    → get_game (sweep_expired m now).0 j ≡ unexpired m.expire_time now (get_game m j)
unfolding sweep_expired get_game
sweep_effect m now j = ground (
  arith,
  get-sweep_keys m.expire_time now j (keys m.games) (m.games, []),
  contains-keys j m.games,
)

abbrev HasExpired : ℕ → ℕ → Game → Type 0
HasExpired timeout now g = is_expired timeout now g ≡ true

sweep_keys-HasExpired :
    (timeout now : ℕ) (gids : List ℕ) (s : Sweep)
    → All (HasExpired timeout now) s.1
    → All (HasExpired timeout now) (sweep_keys timeout now gids s).1
unfolding sweep_keys
sweep_keys-HasExpired timeout now [] s h = h
sweep_keys-HasExpired timeout now (gid ∷ gids) s h = elim (Option-cases (get s.0 gid)) [
  | inl e ↦ rw (e, sweep_keys) (sweep_keys-HasExpired timeout now gids s h)
  | inr (g, e) ↦
      rw (e, sweep_keys)
        (elim (Bool-cases (is_expired timeout now g)) [
          | inl old ↦ rw old (
              sweep_keys-HasExpired timeout now gids (erase s.0 gid, s.1 ++ g ∷ [])
                (All-append (HasExpired timeout now) s.1 (g ∷ []) h (old, tt)))
          | inr young ↦ rw young (sweep_keys-HasExpired timeout now gids s h)
        ])
]

-- A game that is under way, or open with a player in it, is never swept, and a swept game had been
-- finished, or left open and empty, for longer than the timeout.
pub is_expired_iff :
    (timeout now : ℕ) (g : Game)
    → (is_expired timeout now g ≡ true) ↔ (
        ((t : ℕ) × (g.state ≡ finished) × (g.finished_at ≡ some t) × (t + timeout < now))
        ⊎ ((g.state ≡ opened) × (g.participants ≡ []) × (g.created_at + timeout < now)))
unfolding is_expired
is_expired_iff timeout now g = (old g.state refl, swept)
  where
    old :
        (st : GameState)
        → g.state ≡ st
        → is_expired timeout now g ≡ true
        → ((t : ℕ) × (g.state ≡ finished) × (g.finished_at ≡ some t) × (t + timeout < now))
          ⊎ ((g.state ≡ opened) × (g.participants ≡ []) × (g.created_at + timeout < now))
    old opened e h = inr (ground arith, ground arith, ground arith)
    old active e h = absurd (ground arith)
    old expired e h = absurd (ground arith)
    old finished e h = elim (Option-cases g.finished_at) [
      | inl q ↦ absurd (ground arith)
      | inr (t, q) ↦ inl (t, e, q, ground arith)
    ]

    swept :
        ((t : ℕ) × (g.state ≡ finished) × (g.finished_at ≡ some t) × (t + timeout < now))
          ⊎ ((g.state ≡ opened) × (g.participants ≡ []) × (g.created_at + timeout < now))
        → is_expired timeout now g ≡ true
    swept (inl h) = ground arith
    swept (inr h) = ground arith
