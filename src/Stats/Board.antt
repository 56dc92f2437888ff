-- ===== src/Stats/Board.antt =====
-- The ratings and the leaderboard of class StatsSystem in server/ranking.py. Indexes are after `int()`.
use nfs_most_wanted_online.Prelude.{
  ℕ, zero, suc, ◌+◌, ◌-◌, ◌≤◌, ◌≡◌, refl, min, max, Bool, true, false, ◌&&◌, ◌||◌, List, [], ◌∷◌,
  take, drop, ltb, if◌then◌else◌, length, length-take, arith, All, Bool-cases, inl, inr,
}
use nfs_most_wanted_online.Prelude.Eq.{◌==◌, nat_eq, text_eq}
use nfs_most_wanted_online.Prelude.Dict.{Dict, values, put}
use nfs_most_wanted_online.Prelude.Sorting.{text_ltb}
use nfs_most_wanted_online.Prelude.Text.{Text, codes, lower}
use nfs_most_wanted_online.Prelude.Int.{ℤ, pos, negsuc}
use nfs_most_wanted_online.Stats.{PlayerStats, Players, get_stat, set_stat, get_player_stats}

abbrev pub rep_of : ℕ → PlayerStats → ℕ
rep_of cat s = get_stat s (pos cat) (codes "rep")

-- The key of the sort, `(-rep, losses, persona.lower())`, of one is smaller than that of the other.
unfoldable pub before : ℕ → PlayerStats → PlayerStats → Bool
before cat a b =
    let rep_a = rep_of cat a in
    let rep_b = rep_of cat b in
    let losses_a = get_stat a (pos cat) (codes "losses") in
    let losses_b = get_stat b (pos cat) (codes "losses") in
    ltb rep_b rep_a
    || (rep_a == rep_b
        && (ltb losses_a losses_b
            || (losses_a == losses_b && text_ltb (lower a.persona) (lower b.persona))))

-- A stable sort, of anything that has statistics.
module _ {A : Type 0} (stat : A → PlayerStats) (cat : ℕ) where
  unfoldable pub insert_by_rep : A → List A → List A
  insert_by_rep a [] = a ∷ []
  insert_by_rep a (b ∷ bs) =
      let rest = insert_by_rep a bs in if before cat (stat b) (stat a) then b ∷ rest else a ∷ b ∷ bs

  unfoldable pub sorted_by_rep : List A → List A
  unfolding insert_by_rep
  sorted_by_rep [] = []
  sorted_by_rep (a ∷ as_) = insert_by_rep a (sorted_by_rep as_)

abbrev pub entry_stats : Text × PlayerStats → PlayerStats
entry_stats e = e.1

-- `for rank, stat in enumerate(stats, 1): stat.set(cat_idx, "rating", rank)`
unfoldable pub rated : ℕ → ℕ → Dict Text PlayerStats → Dict Text PlayerStats
rated cat rank [] = []
rated cat rank ((key, stat) ∷ stats) =
    (key, set_stat stat (pos cat) (codes "rating") (pos rank)) ∷ rated cat (suc rank) stats

-- The players are shared objects: what the list sets is seen in the table.
unfoldable pub written : Dict Text PlayerStats → Dict Text PlayerStats → Dict Text PlayerStats
written [] d = d
written ((key, stat) ∷ stats) d = written stats (put d key stat)

unfoldable pub refresh_category : ℕ → Dict Text PlayerStats → Dict Text PlayerStats
unfolding sorted_by_rep rated
refresh_category cat stats = rated cat 1 (sorted_by_rep entry_stats cat stats)

unfoldable pub refresh_ratings : Dict Text PlayerStats → Dict Text PlayerStats
unfolding refresh_category written
refresh_ratings d =
    written
      (refresh_category 4
        (refresh_category 3 (refresh_category 2 (refresh_category 1 (refresh_category 0 d)))))
      d

unfoldable pub enumerated : ℕ → List PlayerStats → List (ℕ × PlayerStats)
enumerated rank [] = []
enumerated rank (stat ∷ stats) = (rank, stat) ∷ enumerated (suc rank) stats

unfoldable pub with_personas : List Text → Players → Players
with_personas [] m = m
with_personas (persona ∷ personas) m = with_personas personas (get_player_stats m persona true).0

-- `max(0, start - 1 if start > 0 else 0)`
abbrev pub offset_of : ℤ → ℕ
offset_of (pos n) = n - 1
offset_of (negsuc n) = 0

-- `max(1, min(100, limit))`
unfoldable pub limit_of : ℤ → ℕ
limit_of (pos n) = max 1 (min 100 n)
limit_of (negsuc n) = 1

unfoldable pub board_rows : ℕ → ℤ → ℤ → List PlayerStats → List (ℕ × PlayerStats)
unfolding sorted_by_rep enumerated limit_of
board_rows cat start limit stats =
    take (limit_of limit) (drop (offset_of start) (enumerated 1 (sorted_by_rep (λ s. s) cat stats)))

-- `index` is one of 1 to 5, or there is no leaderboard.
unfoldable pub nfsu2_leaderboard :
    ℤ → ℤ → ℤ → List Text → Players → List (ℕ × PlayerStats) × Players
nfsu2_leaderboard (negsuc n) start limit include_personas m = ([], m)
nfsu2_leaderboard (pos index) start limit include_personas m =
    let grown = with_personas include_personas m in
    let after = record grown { player_stats = refresh_ratings grown.player_stats } in
    if index == 0 || ltb 5 index
    then ([], m)
    else (board_rows (index - 1) start limit (values after.player_stats), after)

-- Nobody behind has a higher rep.
abbrev Falling : ℕ → List PlayerStats → Type 0
Falling cat [] = Unit
Falling cat (s ∷ ss) = All (λ t. rep_of cat t ≤ rep_of cat s) ss × Falling cat ss

-- The ranks count on from `rank`, and nobody behind has a higher rep.
abbrev pub IsBoard : ℕ → ℕ → List (ℕ × PlayerStats) → Type 0
IsBoard cat rank [] = Unit
IsBoard cat rank ((r, s) ∷ rows) =
    (r ≡ rank)
    × All (λ (row : ℕ × PlayerStats). rep_of cat row.1 ≤ rep_of cat s) rows
    × IsBoard cat (suc rank) rows

limit_of-le : (limit : ℤ) → limit_of limit ≤ 100
unfolding limit_of
limit_of-le (pos n) = omega arith
limit_of-le (negsuc n) = omega arith

module _ (cat : ℕ) where
  before_le : (a b : PlayerStats) → before cat b a ≡ true → rep_of cat a ≤ rep_of cat b
  unfolding before
  before_le a b h = ground arith

  not_before_le : (a b : PlayerStats) → before cat b a ≡ false → rep_of cat b ≤ rep_of cat a
  unfolding before
  not_before_le a b h = ground arith

  All-insert_by_rep :
      (P : PlayerStats → Type 0) (a : PlayerStats) (bs : List PlayerStats)
      → P a
      → All P bs
      → All P (insert_by_rep (λ s. s) cat a bs)
  unfolding insert_by_rep
  All-insert_by_rep P a [] pa all = (pa, tt)
  All-insert_by_rep P a (b ∷ bs) pa all = elim (Bool-cases (before cat b a)) [
    | inl e ↦ rw e (all.0, All-insert_by_rep P a bs pa all.1)
    | inr e ↦ rw e (pa, all)
  ]

  All-weaken :
      (hi lo : ℕ) (ss : List PlayerStats)
      → lo ≤ hi
      → All (λ t. rep_of cat t ≤ lo) ss
      → All (λ t. rep_of cat t ≤ hi) ss
  All-weaken hi lo [] h all = tt
  All-weaken hi lo (s ∷ ss) h all = (omega (arith, all.0), All-weaken hi lo ss h all.1)

  insert_by_rep-Falling :
      (a : PlayerStats) (bs : List PlayerStats)
      → Falling cat bs
      → Falling cat (insert_by_rep (λ s. s) cat a bs)
  unfolding insert_by_rep
  insert_by_rep-Falling a [] f = (tt, tt)
  insert_by_rep-Falling a (b ∷ bs) f = elim (Bool-cases (before cat b a)) [
    | inl e ↦ rw e (
      All-insert_by_rep (λ t. rep_of cat t ≤ rep_of cat b) a bs (before_le a b e) f.0,
      insert_by_rep-Falling a bs f.1,
    )
    | inr e ↦ rw e (
      (not_before_le a b e, All-weaken (rep_of cat a) (rep_of cat b) bs (not_before_le a b e) f.0),
      f,
    )
  ]

  sorted_by_rep-Falling : (ss : List PlayerStats) → Falling cat (sorted_by_rep (λ s. s) cat ss)
  unfolding sorted_by_rep
  sorted_by_rep-Falling [] = tt
  sorted_by_rep-Falling (s ∷ ss) = insert_by_rep-Falling s _ (sorted_by_rep-Falling ss)

  All-enumerated :
      (hi rank : ℕ) (ss : List PlayerStats)
      → All (λ t. rep_of cat t ≤ hi) ss
      → All (λ (row : ℕ × PlayerStats). rep_of cat row.1 ≤ hi) (enumerated rank ss)
  unfolding enumerated
  All-enumerated hi rank [] all = tt
  All-enumerated hi rank (s ∷ ss) all = (all.0, All-enumerated hi (suc rank) ss all.1)

  enumerated-IsBoard :
      (rank : ℕ) (ss : List PlayerStats) → Falling cat ss → IsBoard cat rank (enumerated rank ss)
  unfolding enumerated
  enumerated-IsBoard rank [] f = tt
  enumerated-IsBoard rank (s ∷ ss) f =
      (refl, All-enumerated (rep_of cat s) (suc rank) ss f.0, enumerated-IsBoard (suc rank) ss f.1)

  drop-IsBoard :
      (n rank : ℕ) (rows : List (ℕ × PlayerStats))
      → IsBoard cat rank rows
      → IsBoard cat (n + rank) (drop n rows)
  drop-IsBoard zero rank rows h = let e : zero + rank ≡ rank = omega arith in rw e h
  drop-IsBoard (suc n) rank [] h = tt
  drop-IsBoard (suc n) rank ((r, s) ∷ rows) h =
      let e : suc n + rank ≡ n + suc rank = omega arith in rw e (drop-IsBoard n (suc rank) rows h.2)

  All-take :
      (P : ℕ × PlayerStats → Type 0) (n : ℕ) (rows : List (ℕ × PlayerStats))
      → All P rows
      → All P (take n rows)
  All-take P zero rows all = tt
  All-take P (suc n) [] all = tt
  All-take P (suc n) (row ∷ rows) all = (all.0, All-take P n rows all.1)

  take-IsBoard :
      (n rank : ℕ) (rows : List (ℕ × PlayerStats))
      → IsBoard cat rank rows
      → IsBoard cat rank (take n rows)
  take-IsBoard zero rank rows h = tt
  take-IsBoard (suc n) rank [] h = tt
  take-IsBoard (suc n) rank ((r, s) ∷ rows) h = (
    h.0,
    All-take (λ (row : ℕ × PlayerStats). rep_of cat row.1 ≤ rep_of cat s) n rows h.1,
    take-IsBoard n (suc rank) rows h.2,
  )

  board_rows-IsBoard :
      (start limit : ℤ) (ss : List PlayerStats)
      → IsBoard cat (offset_of start + 1) (board_rows cat start limit ss)
        × (length (board_rows cat start limit ss) ≤ 100)
  unfolding board_rows
  board_rows-IsBoard start limit ss =
      let rows = enumerated 1 (sorted_by_rep (λ s. s) cat ss) in
      let all = enumerated-IsBoard 1 (sorted_by_rep (λ s. s) cat ss) (sorted_by_rep-Falling ss) in
      (
        take-IsBoard (limit_of limit) (offset_of start + 1) (drop (offset_of start) rows)
            (drop-IsBoard (offset_of start) 1 rows all),
        rw (length-take (limit_of limit) (drop (offset_of start) rows))
            (omega (arith, limit_of-le limit)),
      )

-- A leaderboard shows at most 100 players, with consecutive ranks from the one that was asked for on,
-- and nobody on it has a higher rep in the category than a player above.
pub nfsu2_leaderboard-IsBoard :
    (index : ℕ) (start limit : ℤ) (include_personas : List Text) (m : Players)
    → 1 ≤ index
    → index ≤ 5
    → let rows = (nfsu2_leaderboard (pos index) start limit include_personas m).0 in
      IsBoard (index - 1) (offset_of start + 1) rows × (length rows ≤ 100)
unfolding nfsu2_leaderboard
nfsu2_leaderboard-IsBoard index start limit include_personas m low high =
    let inside : (index == 0 || ltb 5 index) ≡ false = ground arith in
    rw inside (
      board_rows-IsBoard (index - 1) start limit
        (values (refresh_ratings (with_personas include_personas m).player_stats)))
