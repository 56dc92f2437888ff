-- ===== src/Games/Reach.antt =====
-- The invariant of the whole game table along every sequence of operations.
use nfs_most_wanted_online.Prelude.{
  ℕ, suc, ◌≤◌, ◌<◌, ◌≡◌, refl, some, List, [], ◌∷◌, ◌++◌, arith, length, leb, Bool-cases,
  Option-cases, inl, inr, ◌∙◌,
}
use nfs_most_wanted_online.Prelude.Eq.{nat_eq}
use nfs_most_wanted_online.Prelude.Dict.{
  Dict, Every, put-Every, erase-Every, get, erase, keys, length-put-le, length-put, length-erase-le,
}
use nfs_most_wanted_online.Prelude.Text.{Text}
use nfs_most_wanted_online.Games.{
  Game, GameParams, Fields, new_game, add_player, remove_player, mark_kicked, set_ready, start,
  finish, is_expired,
}
use nfs_most_wanted_online.Games.Manager.{
  GameManager, Op, creates, destroys, joins, leaves, starts, readies, kicks, finishes, sweeps, init,
  create, get_game, destroy, set_game, join, leave, apply_game, finish_game, Sweep, sweep_keys,
  sweep_expired, step, run,
}
use nfs_most_wanted_online.Games.Invariant.{
  IsSound, new_game-IsSound, add_player-IsSound, remove_player-IsSound, mark_kicked-IsSound,
  set_ready-IsSound, start-IsSound, finish-IsSound,
}

-- A game that is stored under `k`.
pub record IsEntry (counter k : ℕ) (g : Game) : Type 0 where
  pub own_key : g.id ≡ k
  pub issued : k < counter
  pub sound : IsSound g

pub record IsGameTable (m : GameManager) : Type 0 where
  pub bounded : length m.games ≤ m.max_games
  pub counted : length m.games ≤ m.games_created
  pub entries : Every (IsEntry m.counter) m.games

-- A change of a game keeps its identifier and its soundness.
abbrev Keeps : (Game → Game) → Type 0
Keeps f = (g : Game) → IsSound g → (IsSound (f g)) × ((f g).id ≡ g.id)

set_game-IsGameTable :
    (m : GameManager) (k : ℕ) (g g' : Game)
    → IsGameTable m
    → get m.games k ≡ some g
    → IsSound g'
    → g'.id ≡ g.id
    → IsGameTable (set_game m k g')
set_game-IsGameTable m k g g' v h s e =
    let entry = v.entries k g h in
    record {
      bounded = ground (arith, v.bounded, length-put m.games k g');
      counted = ground (arith, v.counted, length-put m.games k g');
      entries =
          put-Every (IsEntry m.counter) m.games k g' v.entries
            (record { own_key = e ∙ entry.own_key; issued = entry.issued; sound = s });
    }

init-IsGameTable :
    (counter max_games expire_time : ℕ) → IsGameTable (init counter max_games expire_time)
unfolding init
init-IsGameTable counter max_games expire_time = record {
  bounded = omega arith;
  counted = omega arith;
  entries = unfold get in λ k g h. cc;
}

entries-later : (c : ℕ) (d : Dict ℕ Game) → Every (IsEntry c) d → Every (IsEntry (suc c)) d
entries-later c d all k g h =
    let entry = all k g h in
    record { own_key = entry.own_key; issued = omega arith; sound = entry.sound }

create-IsGameTable :
    (m : GameManager) (now : ℕ) (p : GameParams) → IsGameTable m → IsGameTable (create m now p).0
unfolding create
create-IsGameTable m now p v = elim (Bool-cases (leb m.max_games (length m.games))) [
  | inl crowded ↦ rw crowded v
  | inr room ↦ rw room (record {
    bounded = grind (arith, length-put-le);
    counted = grind (arith, length-put-le);
    entries =
        put-Every (IsEntry (suc m.counter)) m.games m.counter _
          (entries-later m.counter m.games v.entries)
          (record {
            own_key = unfold new_game in refl;
            issued = omega arith;
            sound = new_game-IsSound m.counter now p;
          });
  })
]

destroy-IsGameTable : (m : GameManager) (k : ℕ) → IsGameTable m → IsGameTable (destroy m k).0
unfolding destroy
destroy-IsGameTable m k v = record {
  bounded = omega (arith, v.bounded, length-erase-le m.games k);
  counted = omega (arith, v.counted, length-erase-le m.games k);
  entries = erase-Every (IsEntry m.counter) m.games k v.entries;
}

apply_game-IsGameTable :
    (m : GameManager) (k : ℕ) (f : Game → Game)
    → Keeps f
    → IsGameTable m
    → IsGameTable (apply_game m k f)
unfolding apply_game get_game
apply_game-IsGameTable m k f keeps v = elim (Option-cases (get m.games k)) [
  | inl e ↦ rw (e, apply_game) v
  | inr (g, e) ↦
      rw (e, apply_game)
        (let kept = keeps g (v.entries k g e).sound in
          set_game-IsGameTable m k g (f g) v e kept.0 kept.1)
]

-- What the operations that go through the table do to it is a method call on one game.
join-apply :
    (m : GameManager) (k uid : ℕ) (secret : Text)
    → (join m k uid secret).0 ≡ apply_game m k (λ g. (add_player g uid secret).0)
unfolding join apply_game
join-apply m k uid secret = ground arith

finish_game-apply :
    (m : GameManager) (now k : ℕ) (results : Dict ℕ Fields)
    → (finish_game m now k results).games ≡ (apply_game m k (finish now results)).games
unfolding finish_game apply_game
finish_game-apply m now k results = ground arith

join-IsGameTable :
    (m : GameManager) (k uid : ℕ) (secret : Text)
    → IsGameTable m
    → IsGameTable (join m k uid secret).0
join-IsGameTable m k uid secret v = rw join-apply (
    apply_game-IsGameTable m k _
      (λ g s. (add_player-IsSound g uid secret s, unfold add_player in ground arith)) v)

leave-IsGameTable : (m : GameManager) (k uid : ℕ) → IsGameTable m → IsGameTable (leave m k uid).0
unfolding leave get_game
leave-IsGameTable m k uid v = elim (Option-cases (get m.games k)) [
  | inl e ↦ rw (e, leave) v
  | inr (g, e) ↦
      rw (e, leave)
        (let left =
            set_game-IsGameTable m k g (remove_player g uid) v e
              (remove_player-IsSound g uid (v.entries k g e).sound)
              (unfold remove_player in refl) in
          ground (arith, left, destroy-IsGameTable _ k left))
]

finish_game-IsGameTable :
    (m : GameManager) (now k : ℕ) (results : Dict ℕ Fields)
    → IsGameTable m
    → IsGameTable (finish_game m now k results)
unfolding finish_game get_game
finish_game-IsGameTable m now k results v = elim (Option-cases (get m.games k)) [
  | inl e ↦ rw (e, finish_game) v
  | inr (g, e) ↦
      rw (e, finish_game)
        (let ended =
            set_game-IsGameTable m k g (finish now results g) v e
              (finish-IsSound now results g (v.entries k g e).sound) (unfold finish in refl) in
          record { bounded = ended.bounded; counted = ended.counted; entries = ended.entries })
]

abbrev Swept : ℕ → ℕ → Dict ℕ Game → Type 0
Swept counter n d = (length d ≤ n) × Every (IsEntry counter) d

sweep_keys-Swept :
    (timeout now counter n : ℕ) (gids : List ℕ) (s : Sweep)
    → Swept counter n s.0
    → Swept counter n (sweep_keys timeout now gids s).0
unfolding sweep_keys
sweep_keys-Swept timeout now counter n [] s h = h
sweep_keys-Swept timeout now counter n (gid ∷ gids) s h = elim (Option-cases (get s.0 gid)) [
  | inl e ↦ rw (e, sweep_keys) (sweep_keys-Swept timeout now counter n gids s h)
  | inr (g, e) ↦
      rw (e, sweep_keys)
        (elim (Bool-cases (is_expired timeout now g)) [
          | inl old ↦ rw old (
              sweep_keys-Swept timeout now counter n gids (erase s.0 gid, s.1 ++ g ∷ [])
                (
                  omega (arith, h.0, length-erase-le s.0 gid),
                  erase-Every (IsEntry counter) s.0 gid h.1,
                ))
          | inr young ↦ rw young (sweep_keys-Swept timeout now counter n gids s h)
        ])
]

sweep_expired-IsGameTable :
    (m : GameManager) (now : ℕ) → IsGameTable m → IsGameTable (sweep_expired m now).0
unfolding sweep_expired
sweep_expired-IsGameTable m now v =
    let swept =
      sweep_keys-Swept m.expire_time now m.counter (length m.games) (keys m.games) (m.games, [])
        (omega arith, v.entries) in
    record {
      bounded = omega (arith, v.bounded, swept.0);
      counted = omega (arith, v.counted, swept.0);
      entries = swept.1;
    }

step-IsGameTable : (m : GameManager) (o : Op) → IsGameTable m → IsGameTable (step m o)
unfolding step
step-IsGameTable m (creates now p) v = create-IsGameTable m now p v
step-IsGameTable m (destroys k) v = destroy-IsGameTable m k v
step-IsGameTable m (joins k uid secret) v = join-IsGameTable m k uid secret v
step-IsGameTable m (leaves k uid) v = leave-IsGameTable m k uid v
step-IsGameTable m (starts now k) v =
    apply_game-IsGameTable m k _ (λ g s. (start-IsSound now g s, unfold start in refl)) v
step-IsGameTable m (readies k uid b) v =
    apply_game-IsGameTable m k _
      (λ g s. (set_ready-IsSound g uid b s, unfold set_ready in ground arith)) v
step-IsGameTable m (kicks k uid) v =
    apply_game-IsGameTable m k _ (λ g s. (mark_kicked-IsSound g uid s, unfold mark_kicked in refl))
      v
step-IsGameTable m (finishes now k results) v = finish_game-IsGameTable m now k results v
step-IsGameTable m (sweeps now) v = sweep_expired-IsGameTable m now v

run-IsGameTable : (m : GameManager) (ops : List Op) → IsGameTable m → IsGameTable (run m ops)
unfolding run
run-IsGameTable m [] v = v
run-IsGameTable m (o ∷ ops) v = run-IsGameTable (step m o) ops (step-IsGameTable m o v)

-- From the empty table, every sequence of operations keeps at most GAMES games and no more than were
-- created, each stored under its own identifier. In each game no player stands twice, there are at
-- most `limit` players beside the host, every player who is ready is a participant, an active game
-- has a time of its start and a finished game a time of its end.
pub run-init-IsGameTable :
    (counter max_games expire_time : ℕ) (ops : List Op)
    → IsGameTable (run (init counter max_games expire_time) ops)
run-init-IsGameTable counter max_games expire_time ops =
    run-IsGameTable _ ops (init-IsGameTable counter max_games expire_time)
