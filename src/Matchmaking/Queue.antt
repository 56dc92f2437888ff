-- ===== src/Matchmaking/Queue.antt =====
-- The queue of quick matches along the operations, and what a match does.
use nfs_most_wanted_online.Prelude.{
  ℕ, suc, ◌≤◌, ◌<◌, ◌≡◌, refl, sym, ap, ◌∙◌, ◌≢◌, ◌⊎◌, inl, inr, Bool, true, false, not, ◌||◌, none,
  some, List, [], ◌∷◌, ◌++◌, arith, keep, any, leb, length, Bool-cases, if◌then◌else◌,
}
use nfs_most_wanted_online.Prelude.Eq.{◌==◌, nat_eq}
use nfs_most_wanted_online.Prelude.Sets.{contains, Distinct, Distinct-append_one}
use nfs_most_wanted_online.Prelude.Dict.{put, get-put}
use nfs_most_wanted_online.Games
use nfs_most_wanted_online.Games.{Game, new_game, add_player, opened}
use nfs_most_wanted_online.Games.Manager.{GameManager, get_game}
use nfs_most_wanted_online.Users.{User, get_user}
use nfs_most_wanted_online.Matchmaking.{
  MatchCriteria, QueueEntry, PlayModule, quick_join_enqueue, quick_join_dequeue, match_params,
  match_message, delivered, notify_match, notify_all, expire_entries, try_match_queue,
}
use nfs_most_wanted_online.Matchmaking.Pairing.{uids}

abbrev pub is_queued : PlayModule → ℕ → Bool
is_queued m uid = contains uid (uids m.queue)

any-contains : (uid : ℕ) (q : List QueueEntry) → any (λ e. e.uid == uid) q ≡ contains uid (uids q)
unfolding contains
any-contains uid [] = refl
any-contains uid (e ∷ q) = ground (arith, any-contains uid q)

contains-uids-keep :
    (p : QueueEntry → Bool) (uid : ℕ) (q : List QueueEntry)
    → contains uid (uids q) ≡ false
    → contains uid (uids (keep p q)) ≡ false
unfolding contains
contains-uids-keep p uid [] h = refl
contains-uids-keep p uid (e ∷ q) h = ground (arith, contains-uids-keep p uid q)

keep-Distinct :
    (p : QueueEntry → Bool) (q : List QueueEntry) → Distinct (uids q) → Distinct (uids (keep p q))
keep-Distinct p [] d = tt
keep-Distinct p (e ∷ q) d = ground (arith, keep-Distinct p q d.1, contains-uids-keep p e.uid q d.0)

uids-append : (q : List QueueEntry) (e : QueueEntry) → uids (q ++ e ∷ []) ≡ uids q ++ e.uid ∷ []
uids-append [] e = refl
uids-append (x ∷ q) e = ap (λ us. x.uid ∷ us) (uids-append q e)

enqueue-Distinct :
    (m : PlayModule) (now uid : ℕ) (c : MatchCriteria)
    → Distinct (uids m.queue)
    → Distinct (uids (quick_join_enqueue m now uid c).0.queue)
unfolding quick_join_enqueue
enqueue-Distinct m now uid c d = elim (Bool-cases (any (λ e. e.uid == uid) m.queue)) [
  | inl queued ↦ rw queued d
  | inr free ↦
      rw (free, uids-append)
        (Distinct-append_one uid (uids m.queue) d (sym (any-contains uid m.queue) ∙ free))
]

notify_match-Distinct :
    (m : PlayModule) (now : ℕ) (a b : QueueEntry)
    → Distinct (uids m.queue)
    → Distinct (uids (notify_match m now a b).queue)
unfolding notify_match
notify_match-Distinct m now a b d =
    ground
      (arith, keep-Distinct (λ (e : QueueEntry). not (e.uid == a.uid || e.uid == b.uid)) m.queue d)

notify_all-Distinct :
    (m : PlayModule) (now : ℕ) (pairs : List (QueueEntry × QueueEntry))
    → Distinct (uids m.queue)
    → Distinct (uids (notify_all m now pairs).queue)
unfolding notify_all
notify_all-Distinct m now [] d = d
notify_all-Distinct m now ((a, b) ∷ pairs) d =
    notify_all-Distinct (notify_match m now a b) now pairs (notify_match-Distinct m now a b d)

try_match-Distinct :
    (m : PlayModule) (now : ℕ)
    → Distinct (uids m.queue)
    → Distinct (uids (try_match_queue m now).queue)
unfolding try_match_queue expire_entries
try_match-Distinct m now d = keep-Distinct _ _ (notify_all-Distinct m now _ d)

pub data Op : Type 0 where
  enqueues : ℕ → ℕ → MatchCriteria → Op
  dequeues : ℕ → Op
  periodic : ℕ → Op

unfoldable pub step : PlayModule → Op → PlayModule
step m (enqueues now uid c) = (quick_join_enqueue m now uid c).0
step m (dequeues uid) = quick_join_dequeue m uid
step m (periodic now) = try_match_queue m now

unfoldable pub run : PlayModule → List Op → PlayModule
unfolding step
run m [] = m
run m (o ∷ ops) = run (step m o) ops

step-Distinct :
    (m : PlayModule) (o : Op) → Distinct (uids m.queue) → Distinct (uids (step m o).queue)
unfolding step
step-Distinct m (enqueues now uid c) d = enqueue-Distinct m now uid c d
step-Distinct m (dequeues uid) d = unfold quick_join_dequeue in keep-Distinct _ m.queue d
step-Distinct m (periodic now) d = try_match-Distinct m now d

-- However users queue, leave and are matched, nobody stands in the queue twice.
pub run-Distinct :
    (m : PlayModule) (ops : List Op) → Distinct (uids m.queue) → Distinct (uids (run m ops).queue)
unfolding run
run-Distinct m [] d = d
run-Distinct m (o ∷ ops) d = run-Distinct (step m o) ops (step-Distinct m o d)

-- The game that is made for a match, with both users in it.
abbrev pub match_game : PlayModule → ℕ → ℕ → ℕ → Game
match_game m now a b = record (new_game m.games.counter now (match_params a)) {
  participants = a ∷ b ∷ [];
}

-- Dropping entries by their uid.
contains-uids-drop :
    (f : ℕ → Bool) (u : ℕ) (q : List QueueEntry)
    → contains u (uids (keep (λ e. not (f e.uid)) q)) ≡ (if f u then false else contains u (uids q))
unfolding contains
contains-uids-drop f u [] = ground arith
contains-uids-drop f u (e ∷ q) = elim (Bool-cases (e.uid == u)) [
  | inl same ↦
      (let eu : e.uid ≡ u = ground arith in ground (arith, contains-uids-drop f u q, ap f eu))
  | inr other ↦ ground (arith, contains-uids-drop f u q)
]

abbrev paired_uid : QueueEntry → QueueEntry → ℕ → Bool
paired_uid a b u = u == a.uid || u == b.uid

join_seat :
    (games : GameManager) (k uid : ℕ) (g g' : Game)
    → get_game games k ≡ some g
    → add_player g uid [] ≡ (g', true)
    → get_game (Games.Manager.join games k uid []).0 k ≡ some g'
unfolding Games.Manager.join get_game
join_seat games k uid g g' e h =
    rw (e, Games.Manager.join, h) (ground (arith, get-put games.games k k g'))

-- The table of games with the new game, and the two joins.
abbrev opened_match : PlayModule → ℕ → ℕ → GameManager
opened_match m now a = record m.games {
  games = put m.games.games m.games.counter (new_game m.games.counter now (match_params a));
  games_created = suc m.games.games_created;
  counter = suc m.games.counter;
}

abbrev seat : PlayModule → ℕ → GameManager → GameManager
seat m uid games = (Games.Manager.join games m.games.counter uid []).0

seated :
    (m : PlayModule) (now a b : ℕ)
    → a ≢ b
    → get_game (seat m b (seat m a (opened_match m now a))) m.games.counter
      ≡ some (match_game m now a b)
seated m now a b ne =
    let g = new_game m.games.counter now (match_params a) in
    let g' : Game = record g { participants = a ∷ [] } in
    join_seat (seat m a (opened_match m now a)) m.games.counter b g' (match_game m now a b)
      (join_seat (opened_match m now a) m.games.counter a g g'
        (unfold get_game in ground (arith, get-put m.games.games m.games.counter m.games.counter g))
        (unfold add_player Games.can_join new_game contains in ground arith))
      (unfold add_player Games.can_join new_game contains in ground arith)

notify_match_done :
    (m : PlayModule) (now : ℕ) (a b : QueueEntry) (ua ub : User)
    → get_user m.users a.uid ≡ some ua
    → get_user m.users b.uid ≡ some ub
    → length m.games.games < m.games.max_games
    → notify_match m now a b ≡ (
        let msg = match_message (match_game m now a.uid b.uid) ua ub in
        record m {
          games = seat m b.uid (seat m a.uid (opened_match m now a.uid));
          outbox = m.outbox ++ (delivered a.uid msg ua ++ delivered b.uid msg ub);
          queue = keep (λ e. not (paired_uid a b e.uid)) m.queue;
        })
unfolding notify_match Games.Manager.create new_game
notify_match_done m now a b ua ub ea eb room =
    let free : leb m.games.max_games (length m.games.games) ≡ false = ground arith in
    rw (ea, eb, notify_match, free) refl

-- If two different users are there and there is room for a game, a match makes a private game for two,
-- with exactly these two in it, sends the same message to each of them who is connected, and takes
-- both out of the queue. Nobody else is taken out.
pub notify_match_effect :
    (m : PlayModule) (now : ℕ) (a b : QueueEntry) (ua ub : User)
    → get_user m.users a.uid ≡ some ua
    → get_user m.users b.uid ≡ some ub
    → length m.games.games < m.games.max_games
    → a.uid ≢ b.uid
    → let game = match_game m now a.uid b.uid in
      let msg = match_message game ua ub in
      (get_game (notify_match m now a b).games m.games.counter ≡ some game)
      × ((notify_match m now a b).outbox
          ≡ m.outbox
            ++ (if ua.connected
                then if ub.connected then (a.uid, msg) ∷ (b.uid, msg) ∷ [] else (a.uid, msg) ∷ []
                else if ub.connected
                then (b.uid, msg) ∷ []
                else []))
      × (is_queued (notify_match m now a b) a.uid ≡ false)
      × (is_queued (notify_match m now a b) b.uid ≡ false)
      × ((u : ℕ) → u ≢ a.uid → u ≢ b.uid → is_queued (notify_match m now a b) u ≡ is_queued m u)
notify_match_effect m now a b ua ub ea eb room ne =
    rw (notify_match_done m now a b ua ub ea eb room) (
      seated m now a.uid b.uid ne,
      unfold delivered in ground arith,
      ground (arith, contains-uids-drop (paired_uid a b) a.uid m.queue),
      ground (arith, contains-uids-drop (paired_uid a b) b.uid m.queue),
      λ u na nb. ground (arith, contains-uids-drop (paired_uid a b) u m.queue),
    )

-- If one of the two is gone, or there is no room for a game, nothing happens.
pub notify_match_refused :
    (m : PlayModule) (now : ℕ) (a b : QueueEntry)
    → (get_user m.users a.uid ≡ none)
      ⊎ (get_user m.users b.uid ≡ none)
      ⊎ (m.games.max_games ≤ length m.games.games)
    → notify_match m now a b ≡ m
unfolding notify_match
notify_match_refused m now a b (inl e) = ground arith
notify_match_refused m now a b (inr (inl e)) = ground arith
notify_match_refused m now a b (inr (inr e)) = unfold Games.Manager.create in ground arith
