-- ===== src/Rankings.antt =====
-- Classes RankEntry and RankingSystem of server/ranking.py. Floats are a parameter, with the operations
-- that the code has of them. The key of the raw data is the number of the game, not its text.
pub mod Tally
mod Tests
use nfs_most_wanted_online.Prelude.{
  ℕ, ◌+◌, ◌≤◌, ◌<◌, ◌≡◌, refl, arith, Bool, true, false, not, ◌&&◌, ◌||◌, Option, none, some, List,
  [], ◌∷◌, ◌++◌, map, take, zero, suc, ltb, leb, if◌then◌else◌, length,
}
use nfs_most_wanted_online.Prelude.Eq.{◌==◌, nat_eq, text_eq}
use nfs_most_wanted_online.Prelude.Dict.{Dict, get, put, values}
use nfs_most_wanted_online.Prelude.Text.{Text, codes, truthy, strip, upper, show}

pub record FloatOps (F : Type 0) : Type 0 where
  pub of_int : ℕ → F
  pub plus : F → F → F
  pub minus : F → F → F
  pub float_max : F → F → F
  pub below : F → F → Bool

pub record GameResult (F : Type 0) : Type 0 where
  pub result_name : Option Text
  pub duration : F
  pub outcome : Option Text
  pub score_delta : F

pub record RankEntry (F : Type 0) : Type 0 where
  pub uid : ℕ
  pub name : Text
  pub score : F
  pub wins : ℕ
  pub losses : ℕ
  pub draws : ℕ
  pub games : ℕ
  pub play_time : F
  pub last_game : F
  pub raw_data : Dict ℕ (GameResult F)

pub record RankingSystem (F : Type 0) : Type 0 where
  pub entries : Dict ℕ (RankEntry F)
  pub lists : Dict Text (List ℕ)
  pub dirty : Bool
  pub rank_lim : ℕ
  pub min_game_time : F
  pub do_evaluate : Bool
  pub output_raw : Bool

module _ {F : Type 0} (float : FloatOps F) where
  unfoldable pub new_entry : ℕ → Text → RankEntry F
  new_entry uid name =
      let zero_score = float.of_int 0 in
      record {
        uid = uid;
        name = name;
        score = zero_score;
        wins = 0;
        losses = 0;
        draws = 0;
        games = 0;
        play_time = zero_score;
        last_game = zero_score;
        raw_data = [];
      }

  -- `sorted(..., key=lambda e: e.score, reverse=True)`: equal scores keep their order.
  unfoldable pub insert_by_score : RankEntry F → List (RankEntry F) → List (RankEntry F)
  insert_by_score e [] = e ∷ []
  insert_by_score e (f ∷ fs) =
      let rest = insert_by_score e fs in
      if float.below e.score f.score then f ∷ rest else e ∷ f ∷ fs

  unfoldable pub sorted_by_score : List (RankEntry F) → List (RankEntry F)
  unfolding insert_by_score
  sorted_by_score [] = []
  sorted_by_score (e ∷ es) = insert_by_score e (sorted_by_score es)

  unfoldable pub rebuild_lists : RankingSystem F → RankingSystem F
  unfolding sorted_by_score
  rebuild_lists m = record m {
    lists =
        put m.lists (codes "global")
          (map (λ (e : RankEntry F). e.uid) (sorted_by_score (values m.entries)));
  }

  pub entry_found :
      RankingSystem F → ℕ → Text → Option (RankEntry F) → RankingSystem F × RankEntry F
  unfolding new_entry rebuild_lists
  entry_found m uid name none =
      let entry = new_entry uid name in
      if ltb 0 m.rank_lim && leb m.rank_lim (length m.entries)
      then (m, entry)
      else (rebuild_lists (record m { entries = put m.entries uid entry; dirty = true }), entry)
  entry_found m uid name (some entry) =
      let renamed : RankEntry F = record entry { name = name } in
      if truthy name && not (entry.name == name)
      then (record m { entries = put m.entries uid renamed; dirty = true }, renamed)
      else (m, entry)

  unfoldable pub get_or_create : RankingSystem F → ℕ → Text → RankingSystem F × RankEntry F
  unfolding entry_found
  get_or_create m uid name = entry_found m uid name (get m.entries uid)

  abbrev pub name_or : ℕ → Option Text → Text
  name_or uid none = codes "uid:" ++ show uid
  name_or uid (some name) = name

  abbrev pub outcome_key : Option Text → Text
  outcome_key none = codes "LOSS"
  outcome_key (some outcome) = upper (strip outcome)

  unfoldable pub scored : Text → F → RankEntry F → RankEntry F
  scored key score_d e =
      if key == codes "WIN"
      then record e {
        wins = e.wins + 1;
        score = float.plus e.score (float.float_max (float.of_int 10) score_d);
      }
      else if key == codes "DRAW" || key == codes "TIE"
      then record e { draws = e.draws + 1; score = float.plus e.score (float.of_int 1) }
      else record e {
        losses = e.losses + 1;
        score =
            float.float_max (float.of_int 0)
              (float.plus (float.minus e.score (float.of_int 5)) score_d);
      }

  unfoldable pub evaluated : ℕ → F → Bool → GameResult F → RankEntry F → RankEntry F
  unfolding scored
  evaluated game_id now raw result entry =
      let e = scored (outcome_key result.outcome) result.score_delta entry in
      let counted : RankEntry F = record e {
        games = e.games + 1;
        play_time = float.plus e.play_time result.duration;
        last_game = now;
      } in
      let with_raw : RankEntry F = record counted {
        raw_data = put counted.raw_data game_id result;
      } in
      if raw then with_raw else counted

  -- The entry is an object of the table, or one above the limit that nobody keeps.
  unfoldable pub put_there :
      ℕ → RankEntry F → Dict ℕ (RankEntry F) → Option (RankEntry F) → Dict ℕ (RankEntry F)
  put_there uid entry d none = d
  put_there uid entry d (some old) = put d uid entry

  unfoldable pub evaluate_result : ℕ → F → ℕ → GameResult F → RankingSystem F → RankingSystem F
  unfolding get_or_create evaluated put_there
  evaluate_result game_id now uid result m =
      let found = get_or_create m uid (name_or uid result.result_name) in
      let entry = evaluated game_id now found.0.output_raw result found.1 in
      if float.below result.duration found.0.min_game_time then found.0 else record found.0 {
        entries = put_there uid entry found.0.entries (get found.0.entries uid);
      }

  unfoldable pub evaluate_results :
      ℕ → F → Dict ℕ (GameResult F) → RankingSystem F → RankingSystem F
  unfolding evaluate_result
  evaluate_results game_id now [] m = m
  evaluate_results game_id now ((uid, result) ∷ results) m =
      evaluate_results game_id now results (evaluate_result game_id now uid result m)

  unfoldable pub evaluate_game : RankingSystem F → ℕ → Dict ℕ (GameResult F) → F → RankingSystem F
  unfolding evaluate_results rebuild_lists
  evaluate_game m game_id results now =
      let m' = evaluate_results game_id now results m in
      if m.do_evaluate then rebuild_lists (record m' { dirty = true }) else m

abbrev pub uids_of : Option (List ℕ) → List ℕ
uids_of none = []
uids_of (some uids) = uids

unfoldable pub position_in : ℕ → ℕ → List ℕ → Option ℕ
position_in uid position [] = none
position_in uid position (v ∷ uids) =
    let rest = position_in uid (suc position) uids in if v == uid then some position else rest

module _ {F : Type 0} where
  positioned_one : ℕ → Option (RankEntry F) → List (ℕ × RankEntry F) → List (ℕ × RankEntry F)
  positioned_one position none rest = rest
  positioned_one position (some entry) rest = (position, entry) ∷ rest

  unfoldable pub positioned : Dict ℕ (RankEntry F) → ℕ → List ℕ → List (ℕ × RankEntry F)
  unfolding positioned_one
  positioned d position [] = []
  positioned d position (uid ∷ uids) =
      positioned_one position (get d uid) (positioned d (suc position) uids)

  -- The entries of a list with their positions; `to_dict` only prints.
  unfoldable pub get_leaderboard : RankingSystem F → Text → ℕ → List (ℕ × RankEntry F)
  unfolding positioned
  get_leaderboard m list_name limit =
      positioned m.entries 1 (take limit (uids_of (get m.lists list_name)))

  -- `none` stands for the -1 of a player who is not on the list.
  unfoldable pub get_user_rank : RankingSystem F → ℕ → Text → Option ℕ
  unfolding position_in
  get_user_rank m uid list_name = position_in uid 1 (uids_of (get m.lists list_name))
