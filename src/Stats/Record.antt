-- ===== src/Stats/Record.antt =====
-- `record_player_result` of class StatsSystem in server/ranking.py. The players that it works on stand
-- in the table, so each is named by its key; an average is exact, where Python takes a float.
use nfs_most_wanted_online.Prelude.{
  ℕ, ◌+◌, ◌*◌, ◌/◌, ◌%◌, true, not, ◌&&◌, ◌||◌, Option, none, some, List, [], ◌∷◌, ◌++◌, ltb,
  if◌then◌else◌, length,
}
use nfs_most_wanted_online.Prelude.Eq.{◌==◌, nat_eq, text_eq}
use nfs_most_wanted_online.Prelude.Sets.{contains}
use nfs_most_wanted_online.Prelude.Dict.{Dict, get, put}
use nfs_most_wanted_online.Prelude.Text.{Text, codes, truthy}
use nfs_most_wanted_online.Prelude.Int.{ℤ, pos}
use nfs_most_wanted_online.Stats.{
  PlayerStats, Players, norm_persona, get_player_stats, get_stat, set_stat, bump_result,
  category_of,
}
use nfs_most_wanted_online.Stats.Board.{refresh_ratings}

-- `int(round(total / count))`, which rounds a half to the even neighbour.
unfoldable pub rounded_mean : ℕ → ℕ → ℕ
rounded_mean total count =
    let q = total / count in
    let r = total % count in
    if ltb count (2 * r) || (2 * r == count && q % 2 == 1) then q + 1 else q

-- The keys of the opponents who count, in order, and the table with those who are new.
noted_opponent : Text → List Text → Players × Option PlayerStats → List Text × Players
noted_opponent key seen (m, none) = (seen, m)
noted_opponent key seen (m, some stat) = (seen ++ key ∷ [], m)

unfoldable pub opponents_of : Text → List Text → List Text → Players → List Text × Players
unfolding noted_opponent
opponents_of own [] seen m = (seen, m)
opponents_of own (opponent ∷ opponents) seen m =
    let key = norm_persona opponent in
    let next = noted_opponent key seen (get_player_stats m opponent true) in
    if not (truthy key) || (key == own || contains key seen)
    then opponents_of own opponents seen m
    else opponents_of own opponents next.0 next.1

added : ℕ → Text → Option PlayerStats → ℕ → ℕ
added cat field none total = total
added cat field (some stat) total = get_stat stat (pos cat) field + total

unfoldable pub total_of : ℕ → Text → Dict Text PlayerStats → List Text → ℕ
unfolding added
total_of cat field d [] = 0
total_of cat field d (key ∷ keys) = added cat field (get d key) (total_of cat field d keys)

-- The averages of the opponents in a category, as they were before the result.
unfoldable pub with_averages : Dict Text PlayerStats → List Text → ℕ → PlayerStats → PlayerStats
unfolding total_of rounded_mean
with_averages d [] cat stat = stat
with_averages d (key ∷ keys) cat stat =
    let n = length (key ∷ keys) in
    set_stat
      (set_stat stat (pos cat) (codes "opps_rep")
        (pos (rounded_mean (total_of cat (codes "rep") d (key ∷ keys)) n)))
      (pos cat) (codes "opps_rating")
      (pos (rounded_mean (total_of cat (codes "rating") d (key ∷ keys)) n))

recorded_for :
    Text → ℤ → Text → List Text → Dict Text PlayerStats → Option PlayerStats → Dict Text PlayerStats
unfolding with_averages
recorded_for own category_index outcome keys d none = d
recorded_for own category_index outcome keys d (some stat) =
    let k = category_of category_index in
    let bumped = bump_result stat category_index outcome in
    let first = with_averages d keys 0 bumped in
    put d own (if k == 0 then first else with_averages d keys k first)

unfoldable pub recorded : Text → ℤ → Text → List Text → Players × Option PlayerStats → Players
unfolding opponents_of recorded_for
recorded own category_index outcome opponents (m, none) = m
recorded own category_index outcome opponents (m, some stat) =
    let found = opponents_of own opponents [] m in
    let d = refresh_ratings found.1.player_stats in
    record found.1 {
      player_stats =
          refresh_ratings (recorded_for own category_index outcome found.0 d (get d own));
      dirty = true;
    }

unfoldable pub record_player_result : Players → Text → Text → ℤ → List Text → Players
unfolding recorded
record_player_result m persona outcome category_index opponent_personas =
    recorded (norm_persona persona) category_index outcome opponent_personas
      (get_player_stats m persona true)
