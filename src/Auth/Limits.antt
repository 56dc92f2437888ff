-- ===== src/Auth/Limits.antt =====
-- The limits of server/server.py on connections and on failed logins, and the challenges that the
-- lobby's directory handed out. The settings are arguments, after their clamping.
use nfs_most_wanted_online.Prelude.{
  ℕ, ◌+◌, ◌-◌, ◌*◌, max, Bool, true, false, not, ◌||◌, Option, none, some, List, [], ◌∷◌, ◌++◌,
  length, keep, take, drop, ltb, leb, if◌then◌else◌,
}
use nfs_most_wanted_online.Prelude.Eq.{◌==◌, nat_eq, text_eq}
use nfs_most_wanted_online.Prelude.Dict.{Dict, get, put, erase}
use nfs_most_wanted_online.Prelude.Text.{Text, codes, truthy, or_text, strip, lower}

pub record DirChallenge : Type 0 where
  pub sess : Text
  pub mask : Text
  pub seen_at : ℕ

pub record Limits : Type 0 where
  pub connection_rate_attempts : Dict Text (List ℕ)
  pub connection_rate_blocked_until : Dict Text ℕ
  pub lobby_active_connections : ℕ
  pub auth_failures : Dict Text (List ℕ)
  pub lobby_dir_challenges : Dict Text DirChallenge

pub record RateSettings : Type 0 where
  pub limit : ℕ
  pub window : ℕ
  pub block : ℕ

unfoldable pub times_found : Option (List ℕ) → List ℕ
times_found none = []
times_found (some times) = times

-- `d.get(key, [])`
unfoldable pub times_of : Dict Text (List ℕ) → Text → List ℕ
unfolding times_found
times_of d key = times_found (get d key)

unfoldable pub time_found : Option ℕ → ℕ
time_found none = 0
time_found (some time) = time

unfoldable pub blocked_until : Limits → Text → ℕ
unfolding time_found
blocked_until s key = time_found (get s.connection_rate_blocked_until key)

-- `str(ip or "").strip() or "-"`
unfoldable pub rate_key : Text → Text
rate_key ip = or_text (strip ip) (codes "-")

-- `not seen or now - seen[-1] >= window`
unfoldable pub is_stale : ℕ → ℕ → List ℕ → Bool
is_stale now window [] = true
is_stale now window (time ∷ []) = leb (time + window) now
is_stale now window (time ∷ next ∷ times) = is_stale now window (next ∷ times)

unfoldable pub stale_keys : ℕ → ℕ → Dict Text (List ℕ) → List Text
stale_keys now window [] = []
stale_keys now window ((key, seen) ∷ d) =
    let rest = stale_keys now window d in if is_stale now window seen then key ∷ rest else rest

unfoldable pub erase_all {ℓ} : {V : Type ℓ} → List Text → Dict Text V → Dict Text V
erase_all [] d = d
erase_all (key ∷ keys) d = erase_all keys (erase d key)

unfoldable pub forget_stale : RateSettings → ℕ → Limits → Limits
unfolding stale_keys erase_all
forget_stale settings now s =
    let stale = take 512 (stale_keys now settings.window s.connection_rate_attempts) in
    if ltb 4096 (length s.connection_rate_attempts)
    then record s {
      connection_rate_attempts = erase_all stale s.connection_rate_attempts;
      connection_rate_blocked_until = erase_all stale s.connection_rate_blocked_until;
    }
    else s

-- The attempts that still count.
abbrev pub recent_attempts : RateSettings → Text → ℕ → Limits → List ℕ
recent_attempts settings key now s =
    keep (λ ts. ltb now (ts + settings.window)) (times_of s.connection_rate_attempts key)

-- A block that has run out is dropped.
unfoldable pub unblocked : Text → Limits → Limits
unblocked key s =
    if blocked_until s key == 0
    then s
    else record s { connection_rate_blocked_until = erase s.connection_rate_blocked_until key }

unfoldable pub tripped : RateSettings → Text → ℕ → Limits → Limits
tripped settings key now s = record s {
  connection_rate_attempts =
      put s.connection_rate_attempts key (recent_attempts settings key now s);
  connection_rate_blocked_until =
      if settings.block == 0
      then s.connection_rate_blocked_until
      else put s.connection_rate_blocked_until key (now + settings.block);
}

unfoldable pub admitted : RateSettings → Text → ℕ → Limits → Limits
unfolding forget_stale
admitted settings key now s = forget_stale settings now (record s {
  connection_rate_attempts =
      put s.connection_rate_attempts key (recent_attempts settings key now s ++ now ∷ []);
})

unfoldable pub accepts_new_connection : RateSettings → Text → ℕ → Limits → Bool × Limits
accepts_new_connection settings ip now s =
    let key = rate_key ip in
    let t = unblocked key s in
    if settings.limit == 0
    then (true, s)
    else if ltb now (blocked_until s key)
    then (false, s)
    else if leb settings.limit (length (recent_attempts settings key now t))
    then (false, tripped settings key now t)
    else (true, admitted settings key now t)

unfoldable pub open_lobby_connection_slot : ℕ → Limits → Bool × Limits
open_lobby_connection_slot max_connections s =
    if max_connections == 0
    then (true, s)
    else if leb max_connections s.lobby_active_connections
    then (false, s)
    else (true, record s { lobby_active_connections = s.lobby_active_connections + 1 })

unfoldable pub close_lobby_connection_slot : Limits → Limits
close_lobby_connection_slot s = record s {
  lobby_active_connections = s.lobby_active_connections - 1;
}

unfoldable pub remember_lobby_dir_challenge : Text → Text → Text → ℕ → Limits → Limits
remember_lobby_dir_challenge ip sess mask now s =
    let key = strip ip in
    if not (truthy key) || (not (truthy sess) || not (truthy mask)) then s else record s {
      lobby_dir_challenges =
          put s.lobby_dir_challenges key (record { sess = sess; mask = mask; seen_at = now });
    }

unfoldable pub recent_found : Text → ℕ → ℕ → Limits → Option DirChallenge → (Text × Text) × Limits
recent_found key max_age now s none = (([], []), s)
recent_found key max_age now s (some item) =
    if ltb (item.seen_at + max_age) now
    then (([], []), record s { lobby_dir_challenges = erase s.lobby_dir_challenges key })
    else ((item.sess, item.mask), s)

unfoldable pub recent_lobby_dir_challenge : Text → ℕ → ℕ → Limits → (Text × Text) × Limits
unfolding recent_found
recent_lobby_dir_challenge ip max_age now s =
    let key = strip ip in
    if truthy key
    then recent_found key max_age now s (get s.lobby_dir_challenges key)
    else (([], []), s)

unfoldable pub expired_keys : ℕ → ℕ → Dict Text DirChallenge → List Text
expired_keys max_age now [] = []
expired_keys max_age now ((key, item) ∷ d) =
    let rest = expired_keys max_age now d in
    if ltb (item.seen_at + max_age) now then key ∷ rest else rest

unfoldable pub sweep_lobby_dir_challenges : ℕ → ℕ → Limits → Limits
unfolding expired_keys erase_all
sweep_lobby_dir_challenges max_age now s = record s {
  lobby_dir_challenges =
      erase_all (expired_keys max_age now s.lobby_dir_challenges) s.lobby_dir_challenges;
}

-- AUTH_FAIL_WINDOW, AUTH_FAIL_LIMIT and AUTH_LOCKOUT_SECONDS, each at least one.
pub record FailSettings : Type 0 where
  pub rate_window : ℕ
  pub fail_limit : ℕ
  pub lockout_seconds : ℕ

abbrev pub fail_window : FailSettings → ℕ
fail_window settings = max settings.rate_window settings.lockout_seconds

-- `str(value or "").strip().lower() or "-"`
unfoldable pub auth_rate_key : Text → Text
auth_rate_key identifier = or_text (lower (strip identifier)) (codes "-")

unfoldable pub recent_failures : FailSettings → Text → ℕ → Limits → List ℕ
recent_failures settings key now s =
    keep (λ ts. leb now (ts + fail_window settings)) (times_of s.auth_failures key)

unfoldable pub newest : List ℕ → ℕ
newest [] = 0
newest (time ∷ times) = max time (newest times)

unfoldable pub auth_is_rate_limited : FailSettings → Text → ℕ → Limits → Bool × Limits
auth_is_rate_limited settings identifier now s =
    let key = auth_rate_key identifier in
    let failures = recent_failures settings key now s in
    (
      if ltb (length failures) settings.fail_limit
          then false
          else leb now (newest failures + settings.lockout_seconds),
      record s { auth_failures = put s.auth_failures key failures },
    )

unfoldable pub auth_note_failure : FailSettings → Text → ℕ → Limits → Limits
auth_note_failure settings identifier now s =
    let key = auth_rate_key identifier in
    let failures = recent_failures settings key now s ++ now ∷ [] in
    record s {
      auth_failures =
          put s.auth_failures key
            (drop (length failures - max (settings.fail_limit * 2) 16) failures);
    }

unfoldable pub auth_note_success : Text → Limits → Limits
auth_note_success identifier s = record s {
  auth_failures = erase s.auth_failures (auth_rate_key identifier);
}
