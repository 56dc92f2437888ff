-- ===== src/Lobby/Replies.antt =====
-- The reply lines of server/lobby_core.py. `when` is Python's `f"{t:.6e}"` of a time.
use nfs_most_wanted_online.Prelude.{
  ℕ, zero, suc, ◌-◌, Option, none, some, List, [], ◌∷◌, ◌++◌, length, take, drop, count, min, max,
  ltb, if◌then◌else◌,
}
use nfs_most_wanted_online.Prelude.Eq.{◌==◌, nat_eq}
use nfs_most_wanted_online.Prelude.Sets.{contains}
use nfs_most_wanted_online.Prelude.Dict.{values}
use nfs_most_wanted_online.Prelude.Text.{Text, codes, show, truthy}
use nfs_most_wanted_online.Prelude.Int.{ℤ, pos, negsuc}
use nfs_most_wanted_online.Lobby.State.{FilterState, LobbyUser, LobbyRoom, LobbyCore, Message}
use nfs_most_wanted_online.Lobby.Filters.{get_filter_state}
use nfs_most_wanted_online.Lobby.Occupancy.{get_room, find_user_by_ident}

abbrev pub show_ℤ : ℤ → Text
show_ℤ (pos n) = show n
show_ℤ (negsuc n) = b'-' ∷ show (suc n)

-- `f"{name}{idx}={value}"`
abbrev numbered : Text → ℕ → Text → Text
numbered name idx value = name ++ (show idx ++ (b'=' ∷ value))

abbrev ident_or_0 : Option LobbyRoom → ℕ
ident_or_0 none = 0
ident_or_0 (some room) = room.ident

unfoldable pub user_reply_lines : LobbyCore → LobbyUser → Text → Text → Text → ℕ → List Text
user_reply_lines l user addr server_addr maddr sprt =
    let ident = ident_or_0 (get_room l user.room_ident) in
    (codes "NAME=" ++ user.display_name)
    ∷ (codes "PERS=" ++ user.persona)
    ∷ (codes "UID=" ++ show user.ident)
    ∷ (codes "ROOM=" ++ show ident)
    ∷ (codes "GAME=" ++ show ident)
    ∷ codes "STAT=online"
    ∷ codes "AUX="
    ∷ codes "RGB=0"
    ∷ (codes "PING=" ++ show user.ping)
    ∷ codes "PLAY=0"
    ∷ codes "SEED=0"
    ∷ (codes "FLAGS=" ++ show_ℤ user.flags)
    ∷ (codes "SYNC=" ++ show user.created_at)
    ∷ (codes "ADDR=" ++ addr)
    ∷ (codes "LADDR=" ++ addr)
    ∷ (codes "SERV=" ++ server_addr)
    ∷ (codes "SPRT=" ++ show sprt)
    ∷ (codes "MADDR=" ++ maddr)
    ∷ codes "GFIDS=0"
    ∷ codes "ATTR=0"
    ∷ codes "HWFLAG=0"
    ∷ codes "HWMASK=0"
    ∷ codes "LEVEL=0"
    ∷ codes "MEDALS=0"
    ∷ codes "LANG=en"
    ∷ (codes "FROM=" ++ user.display_name)
    ∷ codes "REP=0"
    ∷ []

abbrev persona_or : Option LobbyUser → Text → Text
persona_or none persona = persona
persona_or (some user) persona = user.persona

unfoldable pub room_reply_lines : (ℕ → Text) → LobbyCore → LobbyRoom → List Text
room_reply_lines when l room =
    (codes "IDENT=" ++ show room.ident)
    ∷ (codes "WHEN=" ++ when room.created_at)
    ∷ (codes "NAME=" ++ room.name)
    ∷ (codes "HOST=" ++ persona_or (find_user_by_ident l room.host_user_ident) room.host_persona)
    ∷ (codes "ROOM=" ++ show room.ident)
    ∷ (codes "MAXSIZE=" ++ show room.limit)
    ∷ (codes "MINSIZE=" ++ show room.min_size)
    ∷ (codes "COUNT=" ++ show (length room.occupants))
    ∷ (codes "CUSTFLAGS=" ++ show_ℤ room.flags)
    ∷ (codes "SYSFLAGS=" ++ show_ℤ room.system_flags)
    ∷ (codes "EVID=" ++ show room.event_id)
    ∷ (codes "EVGID=" ++ show room.event_group_id)
    ∷ (codes "NUMPART=" ++ show room.num_partitions)
    ∷ (codes "LIMIT=" ++ show room.limit)
    ∷ (codes "FLAGS=" ++ show_ℤ room.flags)
    ∷ (codes "PARAMS=" ++ room.params)
    ∷ []

-- `sorted`, by a number that each element has; it keeps the order of elements with the same number.
unfoldable pub insert_by : {A : Type 0} → (A → ℕ) → A → List A → List A
insert_by key a [] = a ∷ []
insert_by key a (b ∷ bs) =
    let rest = insert_by key a bs in if ltb (key b) (key a) then b ∷ rest else a ∷ b ∷ bs

unfoldable pub sorted_by : {A : Type 0} → (A → ℕ) → List A → List A
unfolding insert_by
sorted_by key [] = []
sorted_by key (a ∷ as_) = insert_by key a (sorted_by key as_)

abbrev cons_found : Option LobbyUser → List LobbyUser → List LobbyUser
cons_found none users = users
cons_found (some user) users = user ∷ users

unfoldable pub users_of : LobbyCore → List ℕ → List LobbyUser
users_of l [] = []
users_of l (ident ∷ idents) = cons_found (find_user_by_ident l ident) (users_of l idents)

abbrev with_viewer : LobbyRoom → Option LobbyUser → List LobbyUser → List LobbyUser
with_viewer room none users = users
with_viewer room (some viewer) users =
    if contains viewer.ident room.occupants then users else viewer ∷ users

abbrev or_host : LobbyCore → LobbyRoom → List LobbyUser → List LobbyUser
or_host l room [] = cons_found (find_user_by_ident l room.host_user_ident) []
or_host l room (user ∷ users) = user ∷ users

-- Whom the feed shows: the occupants in the order of their identifiers, a viewer who is none of them
-- before them, or else the host.
unfoldable pub shown_users : LobbyCore → LobbyRoom → Option LobbyUser → List LobbyUser
shown_users l room viewer =
    or_host l room
      (with_viewer room viewer (users_of l (sorted_by (λ ident. ident) room.occupants)))

abbrev op_flag : LobbyRoom → LobbyUser → ℕ
op_flag room user = if user.ident == room.host_user_ident then 0x10000 else 0

unfoldable pub op_lines : LobbyRoom → Text → Text → Text → ℕ → List LobbyUser → List Text
op_lines room addr laddr maddr idx [] = []
op_lines room addr laddr maddr idx (user ∷ users) =
    numbered (codes "OPID") idx (show user.ident)
    ∷ numbered (codes "OPPO") idx user.persona
    ∷ numbered (codes "ADDR") idx addr
    ∷ numbered (codes "LADDR") idx laddr
    ∷ numbered (codes "MADDR") idx maddr
    ∷ numbered (codes "OPPART") idx (codes "0")
    ∷ numbered (codes "OPFLAG") idx (show (op_flag room user))
    ∷ numbered (codes "OPPARAM") idx room.params
    ∷ op_lines room addr laddr maddr (suc idx) users

-- The lines of `n` partitions from `idx` on.
unfoldable pub part_lines : LobbyRoom → ℕ → ℕ → List Text
part_lines room idx zero = []
part_lines room idx (suc n) =
    numbered (codes "PARTSIZE") idx (show room.limit)
    ∷ numbered (codes "PARTPARAMS") idx room.params
    ∷ part_lines room (suc idx) n

abbrev feed_tail : LobbyRoom → Text → Text → Text → List LobbyUser → List Text
feed_tail room addr laddr maddr [] = []
feed_tail room addr laddr maddr (user ∷ users) =
    (codes "NUMPART=" ++ show (max 1 room.num_partitions))
      ∷ op_lines room addr laddr maddr 0 (take 8 (user ∷ users))
    ++ part_lines room 0 (max 1 room.num_partitions)

unfoldable pub room_feed_lines :
    (ℕ → Text) → LobbyCore → LobbyRoom → Option LobbyUser → Text → Text → Text → List Text
room_feed_lines when l room viewer addr laddr maddr =
    room_reply_lines when l room ++ feed_tail room addr laddr maddr (shown_users l room viewer)

-- `users_in_rooms` and `users_in_lobby` of `rooms_reply_lines`.
unfoldable pub users_in_rooms : LobbyCore → ℕ
users_in_rooms l = count (λ user. ltb 0 user.room_ident) (values l.users)

unfoldable pub users_in_lobby : LobbyCore → ℕ
users_in_lobby l = length l.users - users_in_rooms l

unfoldable pub userset_lines : ℕ → List Text → List Text
userset_lines i [] = []
userset_lines i (val ∷ vals) =
    let rest = userset_lines (suc i) vals in
    if truthy val then numbered (codes "USERSET") i val ∷ rest else rest

unfoldable pub listed_rooms : LobbyCore → FilterState → List LobbyRoom
listed_rooms l state = take state.slots (sorted_by (λ room. room.ident) (values l.rooms_by_id))

unfoldable pub room_lines : ℕ → List LobbyRoom → List Text
room_lines idx [] = []
room_lines idx (room ∷ rooms) =
    numbered (codes "ROOMIDENT") idx (show room.ident)
    ∷ numbered (codes "ROOMNAME") idx room.name
    ∷ numbered (codes "ROOMHOST") idx room.host_persona
    ∷ numbered (codes "ROOMCOUNT") idx (show (length room.occupants))
    ∷ numbered (codes "ROOMLIMIT") idx (show room.limit)
    ∷ numbered (codes "ROOMFLAGS") idx (show_ℤ room.flags)
    ∷ room_lines (suc idx) rooms

-- `self.messages[-min(8, n):]` of `n` messages.
unfoldable pub recent_messages : LobbyCore → List Message
recent_messages l = drop (length l.messages - min 8 (length l.messages)) l.messages

unfoldable pub message_lines : ℕ → List Message → List Text
message_lines idx [] = []
message_lines idx (msg ∷ msgs) =
    numbered (codes "MSGNAME") idx msg.name
    ∷ numbered (codes "MSGTEXT") idx msg.text
    ∷ numbered (codes "MSGROOM") idx (show msg.room_ident)
    ∷ numbered (codes "MSGFLAGS") idx (show_ℤ msg.flags)
    ∷ message_lines (suc idx) msgs

count_lines : LobbyCore → FilterState → List Text
count_lines l state =
    (codes "GAMES=" ++ codes (if length l.rooms_by_id == 0 then "0" else "1"))
    ∷ codes "MYGAME=1"
    ∷ (codes "ROOMS=" ++ show state.rooms)
    ∷ (codes "USERS=" ++ show state.users)
    ∷ (codes "USERSETS=" ++ show state.usersets)
    ∷ (codes "ROOMCOUNT=" ++ show (length l.rooms_by_id))
    ∷ (codes "USERSINLOBBY=" ++ show (users_in_lobby l))
    ∷ (codes "USERSINROOMS=" ++ show (users_in_rooms l))
    ∷ []

setting_lines : FilterState → List Text
setting_lines state =
    (codes "MESGS=" ++ show state.mesgs)
    ∷ (codes "ASYNC=" ++ show state.async_flag)
    ∷ (codes "RANKS=" ++ show state.ranks)
    ∷ (codes "STATS=" ++ show state.stats)
    ∷ (codes "SLOTS=" ++ show state.slots)
    ∷ []

-- The lobby keeps the filter settings that `get_filter_state` may have made.
unfoldable pub rooms_reply_lines : LobbyCore → Text → LobbyCore × List Text
unfolding count_lines setting_lines
rooms_reply_lines l client_key =
    let (l', state) = get_filter_state l client_key in
    let recent = recent_messages l' in
    (
      l',
      count_lines l' state
          ++ (userset_lines 0 state.usersets_selected
              ++ ((if state.rooms == 0 then [] else room_lines 0 (listed_rooms l' state))
                  ++ (setting_lines state
                      ++ (if state.mesgs == 0
                          then []
                          else (codes "MSGCOUNT=" ++ show (length recent))
                            ∷ message_lines 0 recent)))),
    )
