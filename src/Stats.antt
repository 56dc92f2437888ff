-- ===== src/Stats.antt =====
-- Class NFSU2PlayerStats of server/ranking.py, and the part of class StatsSystem that keeps the
-- players' statistics. `Prelude.Int.ℤ` is Python's int.
pub mod Counts
pub mod Board
pub mod Record
mod Tests
use nfs_most_wanted_online.Prelude.{
  ℕ, zero, suc, ◌+◌, ◌-◌, ◌*◌, ◌/◌, ◌%◌, Bool, true, false, not, ◌&&◌, ◌||◌, Option, none, some,
  List, [], ◌∷◌, ◌++◌, map, min, max, length, get_or, set, keep, take, drop, replicate, ltb, leb,
  if◌then◌else◌,
}
use nfs_most_wanted_online.Prelude.Eq.{◌==◌, nat_eq, text_eq}
use nfs_most_wanted_online.Prelude.Dict.{Dict, values, get, put}
use nfs_most_wanted_online.Prelude.Text.{Text, codes, truthy, strip, lower, upper}
use nfs_most_wanted_online.Prelude.Int.{ℤ, pos, negsuc}

-- NFSU2_STAT_FIELDS
abbrev pub stat_fields : List Text
stat_fields =
    codes "rating"
    ∷ codes "wins"
    ∷ codes "losses"
    ∷ codes "disconnects"
    ∷ codes "rep"
    ∷ codes "opps_rep"
    ∷ codes "opps_rating"
    ∷ []

-- NFSU2_CATEGORY_SIZE, NFSU2_STAT_VALUE_COUNT, NFSU2_DEFAULT_CATEGORY
abbrev pub category_size : ℕ
category_size = 7

abbrev pub value_count : ℕ
value_count = 35

abbrev pub default_category : List ℕ
default_category = 9999 ∷ 0 ∷ 0 ∷ 0 ∷ 100 ∷ 101 ∷ 101 ∷ []

abbrev pub default_values : List ℕ
default_values =
    default_category
    ++ (default_category ++ (default_category ++ (default_category ++ default_category)))

pub record PlayerStats : Type 0 where
  pub persona : Text
  pub values : List ℕ

-- `max(0, n)`
abbrev pub at_least_0 : ℤ → ℕ
at_least_0 (pos n) = n
at_least_0 (negsuc n) = 0

-- One of the given values, none if it is no number.
abbrev pub parsed_value : Option ℤ → ℕ
parsed_value none = 0
parsed_value (some n) = at_least_0 n

unfoldable pub overlay : List ℕ → List ℕ → List ℕ
overlay [] base = base
overlay (v ∷ vs) [] = []
overlay (v ∷ vs) (b ∷ base) = v ∷ overlay vs base

abbrev initial_values : Option (List (Option ℤ)) → List ℕ
initial_values none = default_values
initial_values (some given) = overlay (take value_count (map parsed_value given)) default_values

-- `NFSU2PlayerStats.__init__`
unfoldable pub new_stats : Text → Option (List (Option ℤ)) → PlayerStats
new_stats persona given = record { persona = strip persona; values = initial_values given }

-- `max(0, min(4, n))`
unfoldable pub category_of : ℤ → ℕ
category_of (pos n) = min 4 n
category_of (negsuc n) = 0

unfoldable pub offset : ℤ → ℕ
unfolding category_of
offset category_index = category_of category_index * category_size

unfoldable pub category : PlayerStats → ℤ → List ℕ
category s category_index = take category_size (drop (offset category_index) s.values)

-- `NFSU2_STAT_FIELDS.index(field)`, none where it raises.
bumped : Option ℕ → Option ℕ
bumped none = none
bumped (some n) = some (suc n)

unfoldable pub index_in : List Text → Text → Option ℕ
unfolding bumped
index_in [] field = none
index_in (f ∷ fs) field = let rest = index_in fs field in if f == field then some 0 else bumped rest

or_first : Option ℕ → ℕ
or_first none = 0
or_first (some i) = i

unfoldable pub get_stat : PlayerStats → ℤ → Text → ℕ
unfolding or_first
get_stat s category_index field =
    get_or s.values (offset category_index + or_first (index_in stat_fields field)) 0

set_found : PlayerStats → ℕ → ℤ → Option ℕ → PlayerStats
set_found s off value none = s
set_found s off value (some i) = record s { values = set s.values (off + i) (at_least_0 value) }

unfoldable pub set_stat : PlayerStats → ℤ → Text → ℤ → PlayerStats
unfolding set_found
set_stat s category_index field value =
    set_found s (offset category_index) value (index_in stat_fields field)

-- The three branches of `bump_result`.
pub data Result : Type 0 where
  won dropped lost : Result

unfoldable pub result_of : Text → Result
result_of outcome =
    let o = upper (strip outcome) in
    if o == codes "WIN"
    then won
    else if o == codes "DISC" || o == codes "DISCONNECT" || o == codes "DNF"
    then dropped
    else lost

-- One more of `field`, and `rep` set to `f` of what it was.
abbrev counted_with : PlayerStats → ℤ → Text → (ℕ → ℕ) → PlayerStats
counted_with s cat field f =
    let s₁ = set_stat s cat field (pos (get_stat s cat field + 1)) in
    set_stat s₁ cat (codes "rep") (pos (f (get_stat s₁ cat (codes "rep"))))

unfoldable pub bump_one : Result → PlayerStats → ℤ → PlayerStats
bump_one won s cat = counted_with s cat (codes "wins") (λ rep. rep + 100)
bump_one dropped s cat = counted_with s cat (codes "disconnects") (λ rep. rep - 25)
bump_one lost s cat = counted_with s cat (codes "losses") (λ rep. rep - 5)

-- The categories {0, k}: a set, so that 0 is counted once.
unfoldable pub bump_result : PlayerStats → ℤ → Text → PlayerStats
bump_result s category_index outcome =
    let k = category_of category_index in
    let o = result_of outcome in
    let s₁ = bump_one o s (pos 0) in if k == 0 then s₁ else bump_one o s₁ (pos k)

-- `f"{n:x}"`: fuel `n + 1` suffices, since each round divides by sixteen.
abbrev hex_digit : ℕ → ℕ
hex_digit d = if ltb d 10 then b'0' + d else b'a' + (d - 10)

unfoldable pub hex_digits : ℕ → ℕ → Text → Text
hex_digits zero n acc = acc
hex_digits (suc f) n acc =
    let rest = hex_digits f (n / 16) (hex_digit (n % 16) ∷ acc) in
    if ltb n 16 then hex_digit n ∷ acc else rest

unfoldable pub show_hex : ℕ → Text
unfolding hex_digits
show_hex n = hex_digits (suc n) n []

-- `",".join(texts)`
unfoldable pub joined : List Text → Text
joined [] = []
joined (t ∷ []) = t
joined (t ∷ u ∷ ts) = t ++ (b',' ∷ joined (u ∷ ts))

unfoldable pub full_hex_csv : PlayerStats → Text
full_hex_csv s = joined (map show_hex s.values)

-- The index less one, as a category.
board_of : ℤ → ℕ
board_of (pos n) = min 4 (n - 1)
board_of (negsuc n) = 0

rank_of : ℤ → ℕ
rank_of (pos n) = max 1 n
rank_of (negsuc n) = 1

unfoldable pub snap_hex_csv : PlayerStats → ℤ → ℤ → Text
unfolding board_of rank_of
snap_hex_csv s index rank =
    let k = board_of index in
    let row = rank_of rank ∷ drop 1 (category s (pos k)) in
    joined (replicate (k * category_size) [] ++ map show_hex row)

-- The players of class StatsSystem: `player_stats` maps the persona, stripped and in lower case.
pub record Players : Type 0 where
  pub player_stats : Dict Text PlayerStats
  pub stats_lim : ℕ
  pub dirty : Bool

unfoldable pub norm_persona : Text → Text
norm_persona persona = lower (strip persona)

player_found : Players → Text → Bool → Option PlayerStats → Players × Option PlayerStats
player_found m persona create none =
    if not create
    then (m, none)
    else if ltb 0 m.stats_lim && leb m.stats_lim (length m.player_stats)
    then (m, none)
    else let stat = new_stats persona none in
      (
        record m { player_stats = put m.player_stats (norm_persona persona) stat; dirty = true },
        some stat,
      )
player_found m persona create (some stat) =
    if truthy persona && not (stat.persona == persona)
    then (let stat' : PlayerStats = record stat { persona = persona } in
        (record m { player_stats = put m.player_stats (norm_persona persona) stat' }, some stat'))
    else (m, some stat)

unfoldable pub get_player_stats : Players → Text → Bool → Players × Option PlayerStats
unfolding player_found
get_player_stats m persona create =
    if truthy (norm_persona persona)
    then player_found m (strip persona) create (get m.player_stats (norm_persona persona))
    else (m, none)

unfoldable pub player_personas : Players → List Text
player_personas m = keep truthy (map (λ (s : PlayerStats). s.persona) (values m.player_stats))
