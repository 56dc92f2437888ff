-- ===== src/Rankings/Tally.antt =====
-- What an evaluation in server/ranking.py keeps of the table of the rankings.
use nfs_most_wanted_online.Prelude.{
  ℕ, ◌+◌, ◌≤◌, ◌<◌, ◌≡◌, refl, arith, Bool, true, false, not, ◌&&◌, Option, none, some, [], ◌∷◌,
  ltb, leb, if◌then◌else◌, length, All, Bool-cases, inl, inr,
}
use nfs_most_wanted_online.Prelude.Eq.{◌==◌, nat_eq, text_eq}
use nfs_most_wanted_online.Prelude.Dict.{Dict, get, put, values, put-All, get-All, length-put}
use nfs_most_wanted_online.Prelude.Text.{Text, truthy}
use nfs_most_wanted_online.Rankings.{
  FloatOps, GameResult, RankEntry, RankingSystem, new_entry, entry_found, get_or_create,
  rebuild_lists, scored, evaluated, put_there, evaluate_result, evaluate_results, evaluate_game,
  name_or,
}

-- Each game that counts is a win, a loss or a draw.
abbrev pub IsTallied : {F : Type 0} → RankEntry F → Type 0
IsTallied e = e.wins + e.losses + e.draws ≡ e.games

abbrev pub IsRanking : {F : Type 0} → RankingSystem F → Type 0
IsRanking m = All IsTallied (values m.entries) × (0 < m.rank_lim → length m.entries ≤ m.rank_lim)

module _ {F : Type 0} (float : FloatOps F) where
  put_again :
      (d : Dict ℕ (RankEntry F)) (uid : ℕ) (entry old : RankEntry F) (bound : ℕ)
      → get d uid ≡ some old
      → length d ≤ bound
      → length (put d uid entry) ≤ bound
  put_again d uid entry old bound q h = let n = length-put d uid entry in ground (arith, rw q at n)

  entry_found-IsRanking :
      (m : RankingSystem F) (uid : ℕ) (name : Text)
      → IsRanking m
      → (found : Option (RankEntry F)) → get m.entries uid ≡ found
      → IsRanking (entry_found float m uid name found).0
        × IsTallied (entry_found float m uid name found).1
  unfolding entry_found new_entry rebuild_lists
  entry_found-IsRanking m uid name h none q =
      elim (Bool-cases (ltb 0 m.rank_lim && leb m.rank_lim (length m.entries))) [
        | inl full ↦ rw full (h, refl)
        | inr room ↦ rw room (
          (
            put-All IsTallied m.entries uid (new_entry float uid name) h.0 refl,
            λ lim.
                let n = length-put m.entries uid (new_entry float uid name) in
                ground (arith, n, rw q at n),
          ),
          refl,
        )
      ]
  entry_found-IsRanking m uid name h (some entry) q =
      let renamed : RankEntry F = record entry { name = name } in
      let tallied = get-All IsTallied m.entries uid entry h.0 q in
      elim (Bool-cases (truthy name && not (entry.name == name))) [
        | inl new ↦ rw new (
          (
            put-All IsTallied m.entries uid renamed h.0 tallied,
            λ lim. put_again m.entries uid renamed entry m.rank_lim q (h.1 lim),
          ),
          tallied,
        )
        | inr same ↦ rw same (h, tallied)
      ]

  evaluated-IsTallied :
      (game_id : ℕ) (now : F) (raw : Bool) (result : GameResult F) (e : RankEntry F)
      → IsTallied e
      → IsTallied (evaluated float game_id now raw result e)
  unfolding evaluated scored
  evaluated-IsTallied game_id now raw result e h = ground arith

  put_there-IsRanking :
      (m : RankingSystem F) (uid : ℕ) (entry : RankEntry F)
      → IsRanking m
      → IsTallied entry
      → (old : Option (RankEntry F)) → get m.entries uid ≡ old
      → IsRanking {F = F} (record m { entries = put_there float uid entry m.entries old })
  unfolding put_there
  put_there-IsRanking m uid entry h tallied none q = h
  put_there-IsRanking m uid entry h tallied (some old) q = (
    put-All IsTallied m.entries uid entry h.0 tallied,
    λ lim. put_again m.entries uid entry old m.rank_lim q (h.1 lim),
  )

  evaluate_result-IsRanking :
      (game_id : ℕ) (now : F) (uid : ℕ) (result : GameResult F) (m : RankingSystem F)
      → IsRanking m
      → IsRanking (evaluate_result float game_id now uid result m)
  unfolding evaluate_result get_or_create
  evaluate_result-IsRanking game_id now uid result m h =
      let name = name_or float uid result.result_name in
      let found = entry_found float m uid name (get m.entries uid) in
      let both = entry_found-IsRanking m uid name h (get m.entries uid) refl in
      let entry = evaluated float game_id now found.0.output_raw result found.1 in
      let tallied = evaluated-IsTallied game_id now found.0.output_raw result found.1 both.1 in
      elim (Bool-cases (float.below result.duration found.0.min_game_time)) [
        | inl brief ↦ rw brief both.0
        | inr counts ↦
            rw counts
              (put_there-IsRanking found.0 uid entry both.0 tallied (get found.0.entries uid) refl)
      ]

  evaluate_results-IsRanking :
      (game_id : ℕ) (now : F) (results : Dict ℕ (GameResult F)) (m : RankingSystem F)
      → IsRanking m
      → IsRanking (evaluate_results float game_id now results m)
  unfolding evaluate_results
  evaluate_results-IsRanking game_id now [] m h = h
  evaluate_results-IsRanking game_id now ((uid, result) ∷ results) m h =
      evaluate_results-IsRanking game_id now results
        (evaluate_result float game_id now uid result m)
        (evaluate_result-IsRanking game_id now uid result m h)

  either-IsRanking :
      (b : Bool) (x y : RankingSystem F)
      → IsRanking x
      → IsRanking y
      → IsRanking (if b then x else y)
  either-IsRanking true x y hx hy = hx
  either-IsRanking false x y hx hy = hy

  -- After any evaluation of a game, each entry has as many games as wins, losses and draws together, and
  -- the table holds at most RANKLIM entries, if the limit is on and the table was so before.
  pub evaluate_game-IsRanking :
      (m : RankingSystem F) (game_id : ℕ) (results : Dict ℕ (GameResult F)) (now : F)
      → IsRanking m
      → IsRanking (evaluate_game float m game_id results now)
  unfolding evaluate_game rebuild_lists
  evaluate_game-IsRanking m game_id results now h =
      either-IsRanking m.do_evaluate _ _ (evaluate_results-IsRanking game_id now results m h) h
