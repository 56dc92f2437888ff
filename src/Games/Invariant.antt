-- ===== src/Games/Invariant.antt =====
-- The well-formedness of the game table, kept by every operation of GameManager.
use nfs_most_wanted_online.Prelude.{
  ℕ, ◌+◌, ◌≤◌, ◌≡◌, refl, Bool, true, [], ◌∷◌, arith, length, length-append, is_some, if◌then◌else◌,
}
use nfs_most_wanted_online.Prelude.Eq.{nat_eq}
use nfs_most_wanted_online.Prelude.Sets.{
  contains, Distinct, Distinct-append_one, remove-Distinct, contains-append, contains-add,
  contains-discard, contains-remove, length-remove,
}
use nfs_most_wanted_online.Prelude.Dict.{Dict}
use nfs_most_wanted_online.Prelude.Text.{Text}
use nfs_most_wanted_online.Games.{
  Game, GameParams, Fields, new_game, can_join, add_player, remove_player, mark_kicked, set_ready,
  start, finish, is_active, is_finished,
}

-- The host has a place of its own beside the `limit` places.
abbrev pub places : Game → ℕ
places g = if contains g.host_uid g.participants then g.limit + 1 else g.limit

-- What holds of a game whatever its key.
pub record IsSound (g : Game) : Type 0 where
  pub distinct : Distinct g.participants
  pub within : length g.participants ≤ places g
  pub ready : (u : ℕ) → contains u g.ready_participants ≡ true → contains u g.participants ≡ true
  pub begun : is_active g.state ≡ true → is_some g.started_at ≡ true
  pub ended : is_finished g.state ≡ true → is_some g.finished_at ≡ true

pub new_game-IsSound : (id now : ℕ) (p : GameParams) → IsSound (new_game id now p)
unfolding new_game contains
new_game-IsSound id now p = record {
  distinct = tt;
  within = ground arith;
  ready = λ u h. h;
  begun = λ h. cc;
  ended = λ h. cc;
}

pub add_player-IsSound :
    (g : Game) (uid : ℕ) (secret : Text) → IsSound g → IsSound (add_player g uid secret).0
unfolding add_player can_join contains
add_player-IsSound g uid secret s = record {
  distinct = ground (arith, s.distinct, Distinct-append_one uid g.participants s.distinct);
  within = ground (
    arith,
    s.within,
    contains-append g.host_uid g.participants (uid ∷ []),
    length-append g.participants (uid ∷ []),
  );
  ready = λ u h. ground (arith, s.ready u, contains-append u g.participants (uid ∷ []));
  begun = ground (arith, s.begun);
  ended = ground (arith, s.ended);
}

pub remove_player-IsSound : (g : Game) (uid : ℕ) → IsSound g → IsSound (remove_player g uid)
unfolding remove_player
remove_player-IsSound g uid s = record {
  distinct = ground (arith, s.distinct, remove-Distinct uid g.participants s.distinct);
  within = ground (
    arith,
    s.within,
    contains-remove uid g.host_uid g.participants s.distinct,
    length-remove uid g.participants,
  );
  ready = λ u h. ground (
    arith,
    s.ready u,
    contains-remove uid u g.participants s.distinct,
    contains-discard uid u g.ready_participants,
  );
  begun = s.begun;
  ended = s.ended;
}

pub mark_kicked-IsSound : (g : Game) (uid : ℕ) → IsSound g → IsSound (mark_kicked g uid)
unfolding mark_kicked
mark_kicked-IsSound g uid s = record {
  distinct = s.distinct;
  within = s.within;
  ready = s.ready;
  begun = s.begun;
  ended = s.ended;
}

pub set_ready-IsSound : (g : Game) (uid : ℕ) (b : Bool) → IsSound g → IsSound (set_ready g uid b)
unfolding set_ready
set_ready-IsSound g uid b s = record {
  distinct = ground (arith, s.distinct);
  within = ground (arith, s.within);
  ready = λ u h. ground (
    arith,
    s.ready u,
    contains-add uid u g.ready_participants,
    contains-discard uid u g.ready_participants,
  );
  begun = ground (arith, s.begun);
  ended = ground (arith, s.ended);
}

pub start-IsSound : (now : ℕ) (g : Game) → IsSound g → IsSound (start now g)
unfolding start
start-IsSound now g s = record {
  distinct = s.distinct;
  within = s.within;
  ready = s.ready;
  begun = λ h. refl;
  ended = λ h. cc;
}

pub finish-IsSound :
    (now : ℕ) (results : Dict ℕ Fields) (g : Game) → IsSound g → IsSound (finish now results g)
unfolding finish
finish-IsSound now results g s = record {
  distinct = s.distinct;
  within = s.within;
  ready = s.ready;
  begun = λ h. cc;
  ended = λ h. refl;
}
