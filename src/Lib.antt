-- ===== src/Lib.antt =====
-- Models of the core of the NFSMW Online server (server/), with the theorems that make it correct.
--
-- The server keeps users, rooms and games in tables; the handlers of client connections, each in its
-- thread, call the operations of these tables. Each operation is one step here, and the theorems are
-- about sequential runs, in which an operation ends before the next one begins. They say nothing of
-- operations that interleave, which the code does not exclude: `join` and `leave` of RoomManager,
-- `join`, `leave` and `finish_game` of GameManager, the methods of Game and `evaluate_game` of
-- RankingSystem take no lock, so that two joins at once can both pass `can_join`, and
-- server/lobby_core.py, which no other file of server/ imports, has no lock at all. What logging prints
-- is left out.
--
-- - Prelude: tests, lists, dictionaries, sets, texts and integers as Python has them.
-- - Rooms: classes Room and RoomManager of server/room_manager.py (`get` is `get_room`). Rooms/Invariant
--   has the invariant of the table, Rooms/Access who gets in and what the operations do.
-- - Games: class Game of server/room_manager.py, Games/Manager class GameManager. Games/Invariant and
--   Games/Reach have the invariant, Games/Effects what the operations do.
-- - Users: server/user_manager.py (`add`, `remove`, `get`, `count` are `add_user`, `remove_user`,
--   `get_user`, `count_users`). Users/Table has the invariant, Users/Effects what the operations do.
-- - Matchmaking: class PlayModule of server/matchmaking.py, which holds the three tables above.
--   `_try_match_queue` is `pair_up`, `notify_all` and `expire_entries`, `_compare` is `compatible`.
--   Matchmaking/Pairing is about the pairs, Matchmaking/Queue about the queue and the game that a match
--   makes, Matchmaking/Choice about `find_best_room`.
-- - Lobby: class TCP20922LobbyCore of server/lobby_core.py. Lobby/State has its state, Lobby/Filters,
--   Lobby/Occupancy and Lobby/Entry its operations, Lobby/Replies the lines that it answers with, where
--   Python's format of a float is a parameter `when`. Lobby/Listing is about the list of rooms,
--   Lobby/Blank about rooms without a name; Lobby/Invariant states when a lobby is valid, and the other
--   files show that the operations keep it so, up to Lobby/Reach.
-- - Challenges: class ChallengeManager of server/batch.py. Reports: class BatchReporter of the same
--   file, with the rounds of its thread as operations.
-- - Stats: class NFSU2PlayerStats of server/ranking.py and the table of the players' statistics.
--   Stats/Board is the ratings and the leaderboard of StatsSystem, Stats/Record its
--   `record_player_result`, with exact averages where Python takes floats.
-- - Rankings: classes RankEntry and RankingSystem of server/ranking.py, with floats as a parameter.
-- - Policy: server/persona_policy.py.
-- - Frames: the frames of the lobby protocol in server/client_handler.py, with
--   `_consume_bootstrap_frames`. Frames/RoundTrip is about one frame, Frames/Stream about a buffer.
-- - Datagram: `_udp_make_wrapped`, `_udp_maybe_decode_wrapped` and `_udp_extract_room` of
--   server/server.py.
-- - Auth: of the class GameServer of server/server.py, the pass token (Auth/Token, Auth/TokenTrip), the
--   limits on failures and connections with the directory challenges (Auth/Limits, about which are
--   Auth/Lockout and Auth/Admission), the forced rejects (Auth/Rejects), what is looked up in accounts
--   (Auth/Accounts) and `authenticate_login` (Auth/Login, with Auth/Entrance about who gets in). The
--   digests of hashlib are a record of functions, of which nothing is assumed.
-- - Social: the social state of the class EAMessengerServer of server/ea_messenger.py. Social/Relations
--   has buddies, requests and blocks, Social/Watch who sees whom, Social/Roster the lists that a client is
--   sent, Social/Handlers the connected handlers;
--   a name of the code without its first underscore is the name here. Social/Related, Social/Invariant,
--   Social/Registry, Social/Arrival, Social/Departure and Social/Kept lead to
--   Social/Reach and to Social/Promise, the abstract view of who speaks for whom.
-- - Tests of a part: the test data, with each theorem applied to it.
--
-- How the code is read:
-- - An object that several tables share is named by its key: a user by uid or client key, a room or a
--   game by its identifier. A class counter is a field `counter`. Identifiers, settings and times are
--   natural numbers; a time is an argument `now`, and a test on a difference of times is written as a
--   sum. Integers that may be negative are ℤ.
-- - A text is the list of its code points; `lower` and `upper` act on ASCII letters only, where
--   Python's act on all of Unicode: texts with other letters that have a case are not covered. `show` and `show_hex` run on fuel n + 1, which suffices because each round divides n.
-- - A dictionary is an association list in order of insertion. A set is a list without repetitions;
--   where Python takes the first element of a set (`next(iter(...))` in the lobby), the element is the
--   value of a parameter `choose`, of which only `IsChooser` is assumed: it gives a member.
-- - What is sent to a user is appended to an `outbox` with the uid, or is a result of `send`, which is
--   told whether the socket works. In Matchmaking an outbox has what goes to users who are connected,
--   in Challenges all that is handed to `User.send`. An HTTP request is told its outcome, and a write to
--   the report file whether it was made, not begun, or cut short, which leaves a file of no use.
--   In the report file, the results of a game are kept as they are; JSON makes texts of their keys.
--
-- - A loop over a buffer runs on fuel, one round for each byte, which suffices because every round that
--   goes on moves ahead. Bytes are natural numbers below 256, and `%` writes out what wraps.
--
-- Not modelled: sockets, threads and the dispatch of commands (server/client_handler.py,
-- server/control_handler.py, server/server.py, server/master.py, server/ea_messenger.py) but for the
-- parts above, the packet format (server/protocol.py), the settings file (server/config.py), the files of
-- server/ranking.py, the setters of the address of a game, texts that only report (`to_dict`), and the
-- client.
pub mod Prelude
pub mod Rooms
pub mod Games
pub mod Users
pub mod Matchmaking
pub mod Lobby
pub mod Challenges
pub mod Rankings
pub mod Reports
pub mod Stats
pub mod Policy
pub mod Frames
pub mod Social
pub mod Auth
pub mod Datagram
