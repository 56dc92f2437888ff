-- ===== src/Challenges.antt =====
-- Classes Challenge and ChallengeManager of server/batch.py. `outbox` is what was handed to
-- `User.send`, with the uid of the user.
pub mod Effects
mod Tests
use nfs_most_wanted_online.Prelude.{
  ℕ, suc, ◌+◌, Bool, true, false, not, ◌||◌, Option, none, some, List, [], ◌∷◌, ◌++◌, ltb,
  if◌then◌else◌,
}
use nfs_most_wanted_online.Prelude.Eq.{◌==◌, nat_eq}
use nfs_most_wanted_online.Prelude.Dict.{Dict, keys, get, put, erase}
use nfs_most_wanted_online.Prelude.Text.{Text, codes, show}
use nfs_most_wanted_online.Users.{User, UserManager, get_user, get_by_name}

-- CHAL_STATE_PENDING, CHAL_STATE_ACCEPTED, CHAL_STATE_REJECTED, CHAL_STATE_IDLE
pub data ChalState : Type 0 where
  pending accepted rejected idle : ChalState

pub record Challenge : Type 0 where
  pub ident : ℕ
  pub uid0 : ℕ
  pub uid1 : ℕ
  pub room_id : ℕ
  pub state : ChalState
  pub created : ℕ

-- `Challenge.__init__`, with the time.
abbrev pub new_challenge : ℕ → ℕ → ℕ → ℕ → ℕ → Challenge
new_challenge now ident uid0 uid1 room_id = record {
  ident = ident;
  uid0 = uid0;
  uid1 = uid1;
  room_id = room_id;
  state = pending;
  created = now;
}

-- `is_expired` with its default of 30 seconds.
unfoldable pub is_expired : ℕ → Challenge → Bool
is_expired now chal = ltb (chal.created + 30) now

-- `counter` is the class attribute `ChallengeManager._counter`.
pub record ChallengeManager : Type 0 where
  pub users : UserManager
  pub chals : Dict ℕ Challenge
  pub counter : ℕ
  pub outbox : List (ℕ × Text)

abbrev pub init : ℕ → UserManager → ChallengeManager
init counter users = record { users = users; chals = []; counter = counter; outbox = [] }

abbrev pub chal_message : ℕ → User → User → Text
chal_message ident challenger target =
    codes "+CHAL IDENT="
    ++ (show ident
        ++ (codes " USER0="
            ++ (challenger.name ++ (codes " USER1=" ++ (target.name ++ codes "\n")))))

-- Both users are there: the challenge is made if they are in the same room.
challenge_in_room : ChallengeManager → ℕ → ℕ → User → User → ChallengeManager × Bool × Text
challenge_in_room m now challenger_uid challenger target =
    if challenger.room == 0 || not (challenger.room == target.room)
    then (m, false, codes "not-in-room")
    else let ident = m.counter in
      let msg = chal_message ident challenger target in
      let m' : ChallengeManager = record m {
        chals =
            put m.chals ident (new_challenge now ident challenger_uid target.uid challenger.room);
        counter = suc m.counter;
        outbox = m.outbox ++ (challenger.uid, msg) ∷ (target.uid, msg) ∷ [];
      } in
      (m', true, show ident)

challenge_found :
    ChallengeManager → ℕ → ℕ → Text → Option User → Option User → ChallengeManager × Bool × Text
unfolding challenge_in_room
challenge_found m now challenger_uid target_name none _ = (m, false, codes "No such challenger")
challenge_found m now challenger_uid target_name (some challenger) none =
    (m, false, codes "NOSUCHUSER: " ++ target_name)
challenge_found m now challenger_uid target_name (some challenger) (some target) =
    challenge_in_room m now challenger_uid challenger target

unfoldable pub challenge : ChallengeManager → ℕ → ℕ → Text → ChallengeManager × Bool × Text
unfolding challenge_found
challenge m now challenger_uid target_name =
    challenge_found m now challenger_uid target_name (get_user m.users challenger_uid)
      (get_by_name m.users target_name)

abbrev pub status_message : ℕ → Bool → Text
status_message ident accept =
    codes "+CHAL IDENT="
    ++ (show ident
        ++ (codes " STATUS=" ++ (codes (if accept then "ACCEPTED" else "REJECTED") ++ codes "\n")))

-- Both users are told, if both are still there.
answers : ℕ → Bool → Option User → Option User → List (ℕ × Text)
answers ident accept (some u0) (some u1) =
    (u0.uid, status_message ident accept) ∷ (u1.uid, status_message ident accept) ∷ []
answers ident accept _ _ = []

abbrev pub in_state : Challenge → ChalState → Challenge
in_state chal state = record chal { state = state }

respond_found : ChallengeManager → ℕ → ℕ → ℕ → Bool → Option Challenge → ChallengeManager × Bool
unfolding answers
respond_found m now ident uid accept none = (m, false)
respond_found m now ident uid accept (some chal) =
    if not (chal.uid1 == uid)
    then (m, false)
    else if is_expired now chal
    then (record m { chals = put m.chals ident (in_state chal idle) }, false)
    else (
      record m {
        chals = put m.chals ident (in_state chal (if accept then accepted else rejected));
        outbox =
            m.outbox
            ++ answers ident accept (get_user m.users chal.uid0) (get_user m.users chal.uid1);
      },
      accept,
    )

unfoldable pub respond : ChallengeManager → ℕ → ℕ → ℕ → Bool → ChallengeManager × Bool
unfolding respond_found
respond m now ident uid accept = respond_found m now ident uid accept (get m.chals ident)

-- The loop of `sweep_expired` over the keys that the dictionary had at its start.
sweep_one : ℕ → ℕ → Dict ℕ Challenge → Option Challenge → Dict ℕ Challenge
sweep_one now ident chals none = chals
sweep_one now ident chals (some chal) = if is_expired now chal then erase chals ident else chals

unfoldable pub sweep_keys : ℕ → List ℕ → Dict ℕ Challenge → Dict ℕ Challenge
unfolding sweep_one
sweep_keys now [] chals = chals
sweep_keys now (ident ∷ idents) chals =
    sweep_keys now idents (sweep_one now ident chals (get chals ident))

unfoldable pub sweep_expired : ChallengeManager → ℕ → ChallengeManager
sweep_expired m now = record m { chals = sweep_keys now (keys m.chals) m.chals }
