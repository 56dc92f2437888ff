-- ===== src/Matchmaking.antt =====
-- Class PlayModule of server/matchmaking.py: the queue of quick matches, and the choice of a room.
pub mod Pairing
pub mod Queue
pub mod Choice
mod Tests
use nfs_most_wanted_online.Prelude.{
  ℕ, ◌+◌, ◌*◌, Bool, true, false, not, ◌&&◌, ◌||◌, Option, none, some, List, [], ◌∷◌, ◌++◌, keep,
  any, ltb, leb, if◌then◌else◌, is_some,
}
use nfs_most_wanted_online.Prelude.Eq.{◌==◌, nat_eq, text_eq}
use nfs_most_wanted_online.Prelude.Sets.{contains, add}
use nfs_most_wanted_online.Prelude.Dict.{values}
use nfs_most_wanted_online.Prelude.Text.{Text, codes, show, strip, upper, truthy}
use nfs_most_wanted_online.Prelude.Int.{ℤ, pos, negsuc, ltb_ℤ, is_negative}
use nfs_most_wanted_online.Rooms
use nfs_most_wanted_online.Rooms.{Room, RoomManager, room_count}
use nfs_most_wanted_online.Games
use nfs_most_wanted_online.Games.{Game, GameParams}
use nfs_most_wanted_online.Games.Manager.{GameManager}
use nfs_most_wanted_online.Users.{User, UserManager, get_user}

pub record MatchCriteria : Type 0 where
  pub min_players : ℕ
  pub max_players : ℕ
  pub game_type : Text
  pub skill_min : ℕ
  pub skill_max : ℕ
  pub require_matched : Bool
  pub allow_private : Bool
  pub password : Text
  pub region : Text
  pub level_min : ℕ
  pub level_max : ℕ
  pub ping_max : ℕ

-- `MatchCriteria.__init__`
abbrev pub default_criteria : MatchCriteria
default_criteria = record {
  min_players = 2;
  max_players = 8;
  game_type = [];
  skill_min = 0;
  skill_max = 9999;
  require_matched = false;
  allow_private = false;
  password = [];
  region = [];
  level_min = 0;
  level_max = 999;
  ping_max = 500;
}

unfoldable pub matches_user : MatchCriteria → User → Bool
matches_user c user =
    if ltb user.level c.level_min || ltb c.level_max user.level
    then false
    else if ltb c.ping_max user.ping
    then false
    else true

pub record QueueEntry : Type 0 where
  pub uid : ℕ
  pub criteria : MatchCriteria
  pub enqueued : ℕ
  pub matched : Bool

-- `outbox` is what was handed to the sockets of users, with the user. A socket that fails on it, upon
-- which `User.send` takes the user for disconnected, is not modelled here.
pub record PlayModule : Type 0 where
  pub users : UserManager
  pub rooms : RoomManager
  pub games : GameManager
  pub queue : List QueueEntry
  pub timeout : ℕ
  pub outbox : List (ℕ × Text)

unfoldable pub quick_join_enqueue : PlayModule → ℕ → ℕ → MatchCriteria → PlayModule × Bool
quick_join_enqueue m now uid criteria =
    if any (λ e. e.uid == uid) m.queue
    then (m, false)
    else let entry : QueueEntry = record {
      uid = uid;
      criteria = criteria;
      enqueued = now;
      matched = false;
    } in
      (record m { queue = m.queue ++ entry ∷ [] }, true)

unfoldable pub quick_join_dequeue : PlayModule → ℕ → PlayModule
quick_join_dequeue m uid = record m { queue = keep (λ e. not (e.uid == uid)) m.queue }

-- `_compare`
unfoldable pub compatible : QueueEntry → QueueEntry → Bool
compatible a b =
    let ca = a.criteria in
    let cb = b.criteria in
    if ltb ca.skill_max cb.skill_min || ltb cb.skill_max ca.skill_min
    then false
    else if ltb ca.ping_max 50 || ltb cb.ping_max 50
    then false
    else true

-- The inner loop of `_try_match_queue`: the first later entry that is free and fits.
unfoldable pub find_partner : List ℕ → QueueEntry → List QueueEntry → Option QueueEntry
find_partner used a [] = none
find_partner used a (b ∷ later) =
    let rest = find_partner used a later in
    if contains b.uid used then rest else if compatible a b then some b else rest

unfoldable pub pair_with :
    (List ℕ → List (QueueEntry × QueueEntry))
    → List ℕ
    → QueueEntry
    → Option QueueEntry
    → List (QueueEntry × QueueEntry)
pair_with go used a none = go used
pair_with go used a (some b) = (a, b) ∷ go (add b.uid (add a.uid used))

-- The outer loop, from the uids that are used already.
unfoldable pub pair_up : List ℕ → List QueueEntry → List (QueueEntry × QueueEntry)
unfolding pair_with
pair_up used [] = []
pair_up used (a ∷ later) = elim (contains a.uid used) [
  | true ↦ pair_up used later
  | false ↦ pair_with (λ u. pair_up u later) used a (find_partner used a later)
]

abbrev pub match_params : ℕ → GameParams
match_params uid = record (Games.default_params 0 uid) {
  limit = 2;
  game_type = codes "RANKED";
  private = true;
  matched = true;
}

abbrev pub match_message : Game → User → User → Text
match_message game ua ub =
    codes "+QUIK IDENT="
    ++ (show game.id
        ++ (codes " KIND=MATCH USER0="
            ++ (ua.name ++ (codes " USER1=" ++ (ub.name ++ codes "\n")))))

-- What `User.send` hands to the socket of a user: nothing once the user is disconnected.
unfoldable pub delivered : ℕ → Text → User → List (ℕ × Text)
delivered uid msg user = if user.connected then (uid, msg) ∷ [] else []

-- The two users join the game that was made for them, are told, and leave the queue.
notify_created :
    PlayModule → QueueEntry → QueueEntry → User → User → GameManager × Option Game → PlayModule
unfolding delivered
notify_created m a b ua ub (games, none) = m
notify_created m a b ua ub (games, some game) =
    let games₁ = (Games.Manager.join games game.id a.uid []).0 in
    let games₂ = (Games.Manager.join games₁ game.id b.uid []).0 in
    let msg = match_message game ua ub in
    record m {
      games = games₂;
      outbox = m.outbox ++ (delivered a.uid msg ua ++ delivered b.uid msg ub);
      queue = keep (λ e. not (e.uid == a.uid || e.uid == b.uid)) m.queue;
    }

notify_found : PlayModule → ℕ → QueueEntry → QueueEntry → Option User → Option User → PlayModule
unfolding notify_created
notify_found m now a b (some ua) (some ub) =
    notify_created m a b ua ub (Games.Manager.create m.games now (match_params a.uid))
notify_found m now a b _ _ = m

unfoldable pub notify_match : PlayModule → ℕ → QueueEntry → QueueEntry → PlayModule
unfolding notify_found
notify_match m now a b = notify_found m now a b (get_user m.users a.uid) (get_user m.users b.uid)

unfoldable pub notify_all : PlayModule → ℕ → List (QueueEntry × QueueEntry) → PlayModule
notify_all m now [] = m
notify_all m now ((a, b) ∷ pairs) = notify_all (notify_match m now a b) now pairs

abbrev pub no_match_message : Text
no_match_message = codes "+QUIK TEXT=\"No match found\"\n"

unfoldable pub has_timed_out : ℕ → ℕ → QueueEntry → Bool
has_timed_out timeout now e = ltb (e.enqueued + timeout) now && not e.matched

-- Whom of the expired entries the message reaches.
delivered_if_there : ℕ → Text → Option User → List (ℕ × Text)
unfolding delivered
delivered_if_there uid msg none = []
delivered_if_there uid msg (some user) = delivered uid msg user

unfoldable pub timeout_messages : UserManager → List QueueEntry → List (ℕ × Text)
unfolding delivered_if_there
timeout_messages users [] = []
timeout_messages users (e ∷ expired) =
    delivered_if_there e.uid no_match_message (get_user users e.uid)
    ++ timeout_messages users expired

-- The last part of `_try_match_queue`: entries that wait for too long leave the queue.
unfoldable pub expire_entries : PlayModule → ℕ → PlayModule
expire_entries m now =
    let expired = keep (has_timed_out m.timeout now) m.queue in
    record m {
      queue = keep (λ e. not (has_timed_out m.timeout now e)) m.queue;
      outbox = m.outbox ++ timeout_messages m.users expired;
    }

unfoldable pub try_match_queue : PlayModule → ℕ → PlayModule
try_match_queue m now =
    let unmatched = keep (λ e. not e.matched) m.queue in
    expire_entries (notify_all m now (pair_up [] unmatched)) now

-- `_score_room`; a room that is no choice scores -1.
abbrev pub type_refused : Text → Text → Bool
type_refused wanted offered =
    truthy wanted
    && truthy offered
    && not (wanted == offered || wanted == codes "ANY" || wanted == codes "ALL")

unfoldable pub score_room : Room → MatchCriteria → ℤ
score_room room c =
    if room.private && not c.allow_private
    then negsuc 0
    else if truthy room.secret && not (c.password == room.secret)
    then negsuc 0
    else if c.require_matched && not room.matched
    then negsuc 0
    else if type_refused (upper (strip c.game_type)) (upper (strip room.type))
    then negsuc 0
    else pos (room_count room * 10 + (if leb c.min_players (room_count room) then 50 else 0))

-- The loop of `find_best_room` with its two variables.
unfoldable pub best_room : MatchCriteria → Option Room → ℤ → List Room → Option Room
best_room c best score [] = best
best_room c best score (room ∷ rooms) =
    let s = score_room room c in
    let better = not (Rooms.full room) && not (is_negative s) && ltb_ℤ score s in
    best_room c (if better then some room else best) (if better then s else score) rooms

abbrev pub id_of : Option Room → Option ℕ
id_of none = none
id_of (some room) = some room.id

unfoldable pub find_best_room : PlayModule → MatchCriteria → Option ℕ
find_best_room m c = id_of (best_room c none (negsuc 0) (values m.rooms.rooms))

flags_allow : Option User → Bool
flags_allow none = false
flags_allow (some user) = not (is_negative user.flags)

unfoldable pub game_create_filter : PlayModule → ℕ → Bool
unfolding flags_allow
game_create_filter m uid = flags_allow (get_user m.users uid)

open_game : Option Game → Bool
open_game none = false
open_game (some game) = Games.is_open game.state

unfoldable pub game_join_filter : PlayModule → ℕ → ℕ → Bool
unfolding open_game
game_join_filter m uid game_id =
    open_game (Games.Manager.get_game m.games game_id) && is_some (get_user m.users uid)
