-- ===== src/Rankings/Tests.antt =====
-- Test data for the rankings of server/ranking.py, with tenths of points for floats. No difference of
-- the test falls below 0.
use nfs_most_wanted_online.Prelude.{
  ℕ, ◌+◌, ◌-◌, ◌*◌, ◌≡◌, refl, true, false, none, some, [], ◌∷◌, max, ltb, arith, map,
}
use nfs_most_wanted_online.Prelude.Eq.{nat_eq, text_eq, text_beq}
use nfs_most_wanted_online.Prelude.Dict.{Dict, get, put}
use nfs_most_wanted_online.Prelude.Text.{Text, codes, strip, upper}
use nfs_most_wanted_online.Rankings.{
  FloatOps, GameResult, RankEntry, RankingSystem, evaluate_game, evaluate_results, evaluate_result,
  evaluated, scored, get_leaderboard, positioned, rebuild_lists, sorted_by_score, insert_by_score,
  get_or_create, entry_found, new_entry, put_there,
}
use nfs_most_wanted_online.Rankings.Tally.{IsRanking, evaluate_game-IsRanking}

abbrev tenths : FloatOps ℕ
tenths = record {
  of_int = λ n. 10 * n;
  plus = λ a b. a + b;
  minus = λ a b. a - b;
  float_max = max;
  below = ltb;
}

abbrev empty_ranking : RankingSystem ℕ
empty_ranking = record {
  entries = [];
  lists = [];
  dirty = false;
  rank_lim = 2;
  min_game_time = 600;
  do_evaluate = true;
  output_raw = true;
}

abbrev won_by_ann : Dict ℕ (GameResult ℕ)
won_by_ann =
    (
      8,
      record { result_name = some (codes "Bob"); duration = 900; outcome = none; score_delta = 70 },
    )
    ∷ (
      7,
      record {
        result_name = some (codes "Ann");
        duration = 900;
        outcome = some (codes " win");
        score_delta = 0;
      },
    )
    ∷ (
      9,
      record { result_name = none; duration = 900; outcome = some (codes "draw"); score_delta = 0 },
    )
    ∷ []

evaluate_game-IsRanking_example : IsRanking (evaluate_game tenths empty_ranking 3 won_by_ann 1000)
evaluate_game-IsRanking_example =
    evaluate_game-IsRanking tenths empty_ranking 3 won_by_ann 1000 (tt, λ on. omega arith)

abbrev row_summary : ℕ × RankEntry ℕ → ℕ × Text × ℕ
row_summary (position, e) = (position, e.name, e.score)

ann_leads :
    map row_summary
      (get_leaderboard (evaluate_game tenths empty_ranking 3 won_by_ann 1000) (codes "global") 100)
    ≡ (1, codes "Ann", 100) ∷ (2, codes "Bob", 70) ∷ []
unfolding evaluate_game evaluate_results evaluate_result evaluated scored get_leaderboard positioned
    rebuild_lists sorted_by_score insert_by_score get_or_create entry_found new_entry put_there
    strip upper text_beq get put
ann_leads = refl
