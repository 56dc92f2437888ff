-- ===== src/Stats/Tests.antt =====
-- Test data for server/ranking.py, and the theorem on results applied to it.
use nfs_most_wanted_online.Prelude.{
  ℕ, ◌≡◌, ◌≤◌, refl, none, false, List, [], ◌∷◌, ◌+◌, ◌*◌, ◌||◌, arith, length, get_or,
  if◌then◌else◌,
}
use nfs_most_wanted_online.Prelude.Eq.{◌==◌, nat_eq, text_eq, text_beq}
use nfs_most_wanted_online.Prelude.Text.{Text, codes, lower, strip, upper}
use nfs_most_wanted_online.Prelude.Sets.{contains}
use nfs_most_wanted_online.Prelude.Sorting.{text_ltb}
use nfs_most_wanted_online.Prelude.Dict.{get, put}
use nfs_most_wanted_online.Prelude.Int.{pos}
use nfs_most_wanted_online.Stats.{
  PlayerStats, Players, get_stat, set_stat, get_player_stats, norm_persona, index_in, bump_one,
  overlay, player_found, set_found, new_stats, category_of, result_of, bump_result, offset,
}
use nfs_most_wanted_online.Stats.Board.{
  IsBoard, board_rows, refresh_ratings, refresh_category, with_personas, before, written,
  nfsu2_leaderboard, nfsu2_leaderboard-IsBoard,
}
use nfs_most_wanted_online.Stats.Record.{record_player_result, recorded, rounded_mean}
use nfs_most_wanted_online.Stats.Counts.{after, bump_result_effect}

abbrev newcomer : PlayerStats
newcomer = new_stats (codes " Ann ") none

newcomer_full : length newcomer.values ≡ 35
unfolding new_stats
newcomer_full = refl

abbrev board : ℕ
board = 2

bump_result_effect_example :
    get_or (bump_result newcomer (pos 2) (codes "win")).values (board * 7 + 4) 0 ≡ (
      if board == 0 || board == category_of (pos 2)
      then after (result_of (codes "win")) 4 (get_or newcomer.values (board * 7 + 4) 0)
      else get_or newcomer.values (board * 7 + 4) 0)
bump_result_effect_example =
    bump_result_effect newcomer (pos 2) (codes "win") board 4 newcomer_full (omega arith)
      (omega arith)

-- Ann wins over Bob.
abbrev after_race : Players
after_race =
    record_player_result (record { player_stats = []; stats_lim = 0; dirty = false }) (codes "Ann")
      (codes "win") (pos 2) (codes "Bob" ∷ codes " ann" ∷ [])

leaderboard_example :
    let rows = (nfsu2_leaderboard (pos 3) (pos 1) (pos 10) [] after_race).0 in
    IsBoard 2 1 rows × (length rows ≤ 100)
leaderboard_example =
    nfsu2_leaderboard-IsBoard 3 (pos 1) (pos 10) [] after_race (omega arith) (omega arith)

abbrev summary : List (ℕ × PlayerStats) → List (ℕ × Text × ℕ × ℕ)
summary [] = []
summary ((rank, s) ∷ rows) =
    (rank, s.persona, get_stat s (pos 2) (codes "rep"), get_stat s (pos 2) (codes "opps_rating"))
    ∷ summary rows

winner_first :
    summary (nfsu2_leaderboard (pos 3) (pos 1) (pos 10) [] after_race).0
    ≡ (1, codes "Ann", 200, 2) ∷ (2, codes "Bob", 100, 101) ∷ []
unfolding nfsu2_leaderboard board_rows refresh_ratings refresh_category with_personas
    record_player_result get_player_stats norm_persona lower strip get put text_beq contains before
    get_stat new_stats index_in upper recorded bump_result set_stat result_of bump_one written
    rounded_mean category_of player_found set_found overlay offset text_ltb
winner_first = refl
