-- ===== src/Lobby/Filters.antt =====
-- The filter settings of a client: `get_filter_state` and `apply_rooms_filters` of
-- server/lobby_core.py.
use nfs_most_wanted_online.Prelude.{
  ℕ, suc, Bool, false, not, Option, none, some, List, set, is_some, if◌then◌else◌,
}
use nfs_most_wanted_online.Prelude.Eq.{◌==◌, nat_eq, text_eq}
use nfs_most_wanted_online.Prelude.Dict.{Dict, get, put}
use nfs_most_wanted_online.Prelude.Text.{Text, codes, truthy, strip}
use nfs_most_wanted_online.Prelude.Int.{ℤ, pos, negsuc}
use nfs_most_wanted_online.Prelude.ParseInt.{parse_int}
use nfs_most_wanted_online.Lobby.State.{FilterState, initial_filter, LobbyCore, clamp}

filter_or : Option FilterState → FilterState
filter_or none = initial_filter
filter_or (some state) = state

filters_with : LobbyCore → Text → Option FilterState → LobbyCore
filters_with l client_key none = record l { filters = put l.filters client_key initial_filter }
filters_with l client_key (some state) = l

unfoldable pub get_filter_state : LobbyCore → Text → LobbyCore × FilterState
unfolding filter_or filters_with
get_filter_state l client_key =
    let found = get l.filters client_key in (filters_with l client_key found, filter_or found)

-- The local function `_parse_int` of `apply_rooms_filters`.
or_default : Option ℤ → ℤ → ℤ
or_default none d = d
or_default (some n) d = n

parse_or : Option Text → ℤ → ℤ
unfolding or_default
parse_or none d = d
parse_or (some raw) d = if truthy raw then or_default (parse_int raw) d else d

unfoldable pub int_field : Dict Text Text → Text → ℤ → ℤ
unfolding parse_or
int_field kv name d = parse_or (get kv name) d

is_positive : ℤ → Bool
is_positive (pos n) = not (n == 0)
is_positive (negsuc n) = false

is_zero : ℤ → Bool
is_zero (pos n) = n == 0
is_zero (negsuc n) = false

-- One round of the loop over the flags: the new value of the attribute.
unfoldable pub flag_field : Dict Text Text → Text → ℕ → ℕ
unfolding is_positive
flag_field kv key old =
    if is_some (get kv key) then (if is_positive (int_field kv key (pos 0)) then 1 else 0) else old

userset_at : Option Text → List Text → ℕ → List Text
userset_at none sel i = sel
userset_at (some v) sel i = set sel i (strip v)

usersets_of : Dict Text Text → List Text → List Text
unfolding userset_at
usersets_of kv sel =
    let at0 = userset_at (get kv (codes "USERSET0")) sel 0 in
    let at1 = userset_at (get kv (codes "USERSET1")) at0 1 in
    let at2 = userset_at (get kv (codes "USERSET2")) at1 2 in
    userset_at (get kv (codes "USERSET3")) at2 3

unfoldable pub filtered : FilterState → Dict Text Text → FilterState
unfolding is_zero usersets_of
filtered s kv =
    let listed = is_some (get kv (codes "ROOMS")) in
    let zero_rooms = is_zero (int_field kv (codes "ROOMS") (pos 0)) in
    record {
      users = flag_field kv (codes "USERS") s.users;
      usersets = flag_field kv (codes "USERSETS") s.usersets;
      games = flag_field kv (codes "GAMES") s.games;
      mygame = flag_field kv (codes "MYGAME") s.mygame;
      rooms = if listed then (if zero_rooms then 0 else 1) else s.rooms;
      ranks = flag_field kv (codes "RANKS") s.ranks;
      mesgs = flag_field kv (codes "MESGS") s.mesgs;
      async_flag = flag_field kv (codes "ASYNC") s.async_flag;
      stats = flag_field kv (codes "STATS") s.stats;
      slots =
          if is_some (get kv (codes "SLOTS"))
          then clamp (int_field kv (codes "SLOTS") (pos s.slots))
          else s.slots;
      usersets_selected = usersets_of kv s.usersets_selected;
      refresh_count =
          if listed
          then (if zero_rooms then s.refresh_count else suc s.refresh_count)
          else s.refresh_count;
    }

unfoldable pub apply_rooms_filters : LobbyCore → Text → Dict Text Text → LobbyCore × FilterState
apply_rooms_filters l client_key kv =
    let (l', state) = get_filter_state l client_key in
    let state' = filtered state kv in
    (record l' { filters = put l'.filters client_key state' }, state')
