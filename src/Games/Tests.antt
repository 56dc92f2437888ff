-- ===== src/Games/Tests.antt =====
-- Test data for server/room_manager.py's games, and the theorems applied to it.
use nfs_most_wanted_online.Prelude.{
  ℕ, ◌≡◌, refl, ◌≢◌, ◌⊎◌, ◌↔◌, true, false, not, none, some, [], ◌∷◌, ◌++◌, is_some, if◌then◌else◌,
}
use nfs_most_wanted_online.Prelude.Eq.{◌==◌, nat_eq}
use nfs_most_wanted_online.Prelude.Sets.{contains}
use nfs_most_wanted_online.Prelude.Dict.{get}
use nfs_most_wanted_online.Prelude.Text.{codes}
use nfs_most_wanted_online.Games.{Game, GameParams, default_params, new_game, add_player}
use nfs_most_wanted_online.Games.Manager.{
  GameManager, init, get_game, join, leave, creates, joins, readies, starts, finishes, sweeps,
  kicks, leaves, run,
}
use nfs_most_wanted_online.Games.Invariant.{IsSound, new_game-IsSound, add_player-IsSound}
use nfs_most_wanted_online.Games.Reach.{IsGameTable, run-init-IsGameTable}
use nfs_most_wanted_online.Games.Effects.{MayEnter, join_game_effect, leave_game_effect}

abbrev duel_params : GameParams
duel_params = record (default_params 2 7) { limit = 2; secret = codes "pw" }

abbrev duel : Game
duel = (add_player (new_game 3 100 duel_params) 8 (codes "pw")).0

abbrev duel_table : GameManager
duel_table = record (init 4 8 60) { games = (3, duel) ∷ [] }

duel_there : get_game duel_table 3 ≡ some duel
unfolding get_game get init
duel_there = refl

duel-IsSound : IsSound duel
duel-IsSound =
    add_player-IsSound (new_game 3 100 duel_params) 8 (codes "pw")
      (new_game-IsSound 3 100 duel_params)

run-init-IsGameTable_example : IsGameTable (
    run (init 1 2 60) (
      creates 100 duel_params
      ∷ joins 1 7 []
      ∷ joins 1 8 (codes "pw")
      ∷ readies 1 8 true
      ∷ starts 110 1
      ∷ kicks 1 8
      ∷ leaves 1 8
      ∷ finishes 190 1 []
      ∷ sweeps 300
      ∷ []))
run-init-IsGameTable_example = run-init-IsGameTable 1 2 60 (
    creates 100 duel_params
    ∷ joins 1 7 []
    ∷ joins 1 8 (codes "pw")
    ∷ readies 1 8 true
    ∷ starts 110 1
    ∷ kicks 1 8
    ∷ leaves 1 8
    ∷ finishes 190 1 []
    ∷ sweeps 300
    ∷ [])

join_game_effect_example :
    (((join duel_table 3 9 (codes "pw")).1 ≡ false)
      × ((j : ℕ) → get_game (join duel_table 3 9 (codes "pw")).0 j ≡ get_game duel_table j)
      × ((g : Game)
          → get_game duel_table 3 ≡ some g
          → (contains 9 g.participants ≡ true) ⊎ ¬ MayEnter g 9 (codes "pw")))
    ⊎ ((g : Game) × ((join duel_table 3 9 (codes "pw")).1 ≡ true)
        × (get_game duel_table 3 ≡ some g)
        × MayEnter g 9 (codes "pw")
        × (contains 9 g.participants ≡ false)
        × ((j : ℕ)
            → get_game (join duel_table 3 9 (codes "pw")).0 j ≡ (
                if 3 == j
                then some (record g { participants = g.participants ++ 9 ∷ [] })
                else get_game duel_table j)))
join_game_effect_example = join_game_effect duel_table 3 9 (codes "pw")

leave_game_effect_example :
    ((j : ℕ) → j ≢ 3 → get_game (leave duel_table 3 8).0 j ≡ get_game duel_table j)
    × ((leave duel_table 3 8).2 ≡ not (is_some (get_game (leave duel_table 3 8).0 3)))
    × ((get_game (leave duel_table 3 8).0 3 ≡ none)
        ↔ ((8 ≡ duel.host_uid) ⊎ ((v : ℕ) → v ≢ 8 → contains v duel.participants ≡ false)))
    × ((h : Game)
        → get_game (leave duel_table 3 8).0 3 ≡ some h
        → (contains 8 h.participants ≡ false)
          × (contains 8 h.ready_participants ≡ false)
          × ((v : ℕ) → v ≢ 8 → contains v h.participants ≡ contains v duel.participants))
leave_game_effect_example = leave_game_effect duel_table 3 8 duel duel_there duel-IsSound
