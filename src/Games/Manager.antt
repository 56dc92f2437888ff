-- ===== src/Games/Manager.antt =====
-- Class GameManager of server/room_manager.py, and the calls of the game's own methods that the
-- handlers make on a game that the table holds.
use nfs_most_wanted_online.Prelude.{
  ℕ, suc, Bool, true, false, Option, none, some, List, [], ◌∷◌, ◌++◌, length, keep, count, leb,
  if◌then◌else◌,
}
use nfs_most_wanted_online.Prelude.Eq.{◌==◌, nat_eq}
use nfs_most_wanted_online.Prelude.Sets.{add}
use nfs_most_wanted_online.Prelude.Dict.{Dict, keys, values, get, put, erase}
use nfs_most_wanted_online.Prelude.Text.{Text}
use nfs_most_wanted_online.Games.{
  Game, GameParams, Fields, new_game, add_player, remove_player, mark_kicked, set_ready, start,
  finish, is_expired, is_open, is_active, is_finished,
}

-- `counter` is the class attribute `Game._counter`.
pub record GameManager : Type 0 where
  pub games : Dict ℕ Game
  pub max_games : ℕ
  pub expire_time : ℕ
  pub games_created : ℕ
  pub games_completed : ℕ
  pub counter : ℕ

unfoldable pub init : ℕ → ℕ → ℕ → GameManager
init counter max_games expire_time = record {
  games = [];
  max_games = max_games;
  expire_time = expire_time;
  games_created = 0;
  games_completed = 0;
  counter = counter;
}

unfoldable pub create : GameManager → ℕ → GameParams → GameManager × Option Game
create m now p =
    if leb m.max_games (length m.games)
    then (m, none)
    else let game = new_game m.counter now p in
      let m' : GameManager = record m {
        games = put m.games m.counter game;
        games_created = suc m.games_created;
        counter = suc m.counter;
      } in
      (m', some game)

unfoldable pub get_game : GameManager → ℕ → Option Game
get_game m game_id = get m.games game_id

unfoldable pub destroy : GameManager → ℕ → GameManager × Option Game
destroy m game_id = (record m { games = erase m.games game_id }, get_game m game_id)

-- The table after a change of the game object that it holds under `game_id`.
abbrev pub set_game : GameManager → ℕ → Game → GameManager
set_game m game_id game = record m { games = put m.games game_id game }

join_found : GameManager → ℕ → ℕ → Text → Option Game → GameManager × Bool
join_found m game_id uid secret none = (m, false)
join_found m game_id uid secret (some game) =
    let (game', ok) = add_player game uid secret in (set_game m game_id game', ok)

unfoldable pub join : GameManager → ℕ → ℕ → Text → GameManager × Bool
unfolding join_found
join m game_id uid secret = join_found m game_id uid secret (get_game m game_id)

-- The manager, the game that was left, and whether it is gone.
leave_found : GameManager → ℕ → ℕ → Option Game → GameManager × Option Game × Bool
leave_found m game_id uid none = (m, none, false)
leave_found m game_id uid (some game) =
    let game' = remove_player game uid in
    let left = set_game m game_id game' in
    let (closed, gone) = destroy left game_id in
    if uid == game.host_uid
    then (closed, gone, true)
    else if length game'.participants == 0
    then (closed, gone, true)
    else (left, some game', false)

unfoldable pub leave : GameManager → ℕ → ℕ → GameManager × Option Game × Bool
unfolding leave_found
leave m game_id uid = leave_found m game_id uid (get_game m game_id)

-- A method call on the game that the table holds, if it holds one.
apply_found : GameManager → ℕ → (Game → Game) → Option Game → GameManager
apply_found m game_id f none = m
apply_found m game_id f (some game) = set_game m game_id (f game)

unfoldable pub apply_game : GameManager → ℕ → (Game → Game) → GameManager
unfolding apply_found
apply_game m game_id f = apply_found m game_id f (get_game m game_id)

finish_found : GameManager → ℕ → ℕ → Dict ℕ Fields → Option Game → GameManager
finish_found m now game_id results none = m
finish_found m now game_id results (some game) =
    let ended = set_game m game_id (finish now results game) in
    record ended { games_completed = suc m.games_completed }

unfoldable pub finish_game : GameManager → ℕ → ℕ → Dict ℕ Fields → GameManager
unfolding finish_found
finish_game m now game_id results = finish_found m now game_id results (get_game m game_id)

unfoldable pub list_games : GameManager → Option ℕ → List Game
list_games m none = values m.games
list_games m (some room_id) = keep (λ g. g.room_id == room_id) (values m.games)

unfoldable pub active_games : GameManager → List Game
unfolding list_games
active_games m = keep (λ g. is_active g.state) (list_games m none)

unfoldable pub add_all : List ℕ → List ℕ → List ℕ
add_all uids [] = uids
add_all uids (uid ∷ more) = add_all (add uid uids) more

unfoldable pub participants_of : List ℕ → List Game → List ℕ
participants_of uids [] = uids
participants_of uids (game ∷ games) = participants_of (add_all uids game.participants) games

unfoldable pub active_participant_count : GameManager → ℕ
active_participant_count m = length (participants_of [] (active_games m))

-- The loop of `sweep_expired` over the keys that the table had at its start.
abbrev pub Sweep : Type 0
Sweep = Dict ℕ Game × List Game

sweep_one : ℕ → ℕ → ℕ → Sweep → Option Game → Sweep
sweep_one timeout now gid s none = s
sweep_one timeout now gid s (some game) =
    if is_expired timeout now game then (erase s.0 gid, s.1 ++ game ∷ []) else s

unfoldable pub sweep_keys : ℕ → ℕ → List ℕ → Sweep → Sweep
unfolding sweep_one
sweep_keys timeout now [] s = s
sweep_keys timeout now (gid ∷ gids) s =
    sweep_keys timeout now gids (sweep_one timeout now gid s (get s.0 gid))

unfoldable pub sweep_expired : GameManager → ℕ → GameManager × List Game
sweep_expired m now =
    let (games, gone) = sweep_keys m.expire_time now (keys m.games) (m.games, []) in
    (record m { games = games }, gone)

pub record Stats : Type 0 where
  pub open_games : ℕ
  pub active_games : ℕ
  pub finished_games : ℕ
  pub created : ℕ
  pub completed : ℕ

unfoldable pub stats : GameManager → Stats
stats m =
    let games = list_games m none in
    record {
      open_games = count (λ g. is_open g.state) games;
      active_games = count (λ g. is_active g.state) games;
      finished_games = count (λ g. is_finished g.state) games;
      created = m.games_created;
      completed = m.games_completed;
    }

pub data Op : Type 0 where
  creates : ℕ → GameParams → Op
  destroys : ℕ → Op
  joins : ℕ → ℕ → Text → Op
  leaves : ℕ → ℕ → Op
  starts : ℕ → ℕ → Op
  readies : ℕ → ℕ → Bool → Op
  kicks : ℕ → ℕ → Op
  finishes : ℕ → ℕ → Dict ℕ Fields → Op
  sweeps : ℕ → Op

unfoldable pub step : GameManager → Op → GameManager
step m (creates now p) = (create m now p).0
step m (destroys game_id) = (destroy m game_id).0
step m (joins game_id uid secret) = (join m game_id uid secret).0
step m (leaves game_id uid) = (leave m game_id uid).0
step m (starts now game_id) = apply_game m game_id (start now)
step m (readies game_id uid ready) = apply_game m game_id (λ g. set_ready g uid ready)
step m (kicks game_id uid) = apply_game m game_id (λ g. mark_kicked g uid)
step m (finishes now game_id results) = finish_game m now game_id results
step m (sweeps now) = (sweep_expired m now).0

unfoldable pub run : GameManager → List Op → GameManager
unfolding step
run m [] = m
run m (o ∷ ops) = run (step m o) ops
