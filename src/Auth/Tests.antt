-- ===== src/Auth/Tests.antt =====
-- Runs of signing in.
use nfs_most_wanted_online.Prelude.{
  ◌≡◌, ◌≢◌, ◌⊎◌, ◌≤◌, ◌<◌, ◌+◌, ◌++◌, true, length, ◌-◌, keep, if◌then◌else◌, refl, false, some,
  List, [], ◌∷◌, arith, ltb, leb, All,
}
use nfs_most_wanted_online.Prelude.Eq.{text_beq, ◌==◌, text_eq}
use nfs_most_wanted_online.Prelude.Sets.{contains}
use nfs_most_wanted_online.Prelude.Dict.{get, put, erase}
use nfs_most_wanted_online.Prelude.Text.{Text, codes, truthy, strip, lower, is_space}
use nfs_most_wanted_online.Prelude.Bytes.{hex}
use nfs_most_wanted_online.Frames.{latin1}
use nfs_most_wanted_online.Auth.Token.{
  auth_make_pass_token, auth_decode_pass_token, mask_bytes_of, token_states, auth_rol8,
}
use nfs_most_wanted_online.Auth.TokenTrip.{auth_decode_pass_token-auth_make_pass_token}
use nfs_most_wanted_online.Auth.Limits.{
  Limits, RateSettings, FailSettings, accepts_new_connection, times_of, rate_key, recent_attempts,
  blocked_until, auth_is_rate_limited, auth_note_success, remember_lobby_dir_challenge,
  recent_lobby_dir_challenge, recent_found,
}
use nfs_most_wanted_online.Auth.Lockout.{note_all, lockout, lockout_ends}
use nfs_most_wanted_online.Auth.Admission.{accepts_new_connection_effect}
use nfs_most_wanted_online.Auth.Rejects.{
  Reject, IsReject, new_reject, matching, all_uses, is_for_others, auth_pop_forced_reject,
  auth_pop_forced_reject_lem, auth_norm,
}

token_runs : auth_make_pass_token (codes "Zz9") (codes "01ab") ≡ codes "$e2f507"
unfolding auth_make_pass_token token_states mask_bytes_of latin1 auth_rol8 hex
token_runs = refl

token_example :
    auth_decode_pass_token (auth_make_pass_token (codes "Zz9") (codes "01ab")) (codes "01ab")
    ≡ some (codes "Zz9")
unfolding latin1
token_example =
    auth_decode_pass_token-auth_make_pass_token (codes "Zz9") (codes "01ab")
      (λ z. absurd (omega arith))

abbrev quiet : Limits
quiet = record {
  connection_rate_attempts = [];
  connection_rate_blocked_until = [];
  lobby_active_connections = 0;
  auth_failures = [];
  lobby_dir_challenges = [];
}

abbrev strict : FailSettings
strict = record { rate_window = 60; fail_limit = 3; lockout_seconds = 120 }

abbrev ana : Text
ana = codes "ana"

lockout_example :
    (auth_is_rate_limited strict ana 130
      (note_all strict ana (100 ∷ 101 ∷ 105 ∷ []) (auth_note_success ana quiet))).0
    ≡ leb 3 3
lockout_example =
    lockout strict ana 100 130 (100 ∷ 101 ∷ 105 ∷ []) quiet (omega arith)
      ((omega arith, omega arith), ((omega arith, omega arith), ((omega arith, omega arith), tt)))
      (omega arith, omega arith)

lockout_ends_example :
    (auth_is_rate_limited strict ana 226
      (note_all strict ana (100 ∷ 101 ∷ 105 ∷ []) (auth_note_success ana quiet))).0
    ≡ false
lockout_ends_example =
    lockout_ends strict ana 105 226 (100 ∷ 101 ∷ 105 ∷ []) quiet (omega arith)
      (omega arith, (omega arith, (omega arith, tt))) (omega arith)

abbrev one_each : RateSettings
one_each = record { limit = 1; window = 10; block = 5 }

abbrev lan : Text
lan = codes "10.0.0.7"

admission_example :
    let key = rate_key lan in
    let recent = recent_attempts one_each key 50 quiet in
    let out = accepts_new_connection one_each lan 50 quiet in
    ((50 < blocked_until quiet key) × (out ≡ (false, quiet)))
    ⊎ ((blocked_until quiet key ≤ 50)
        × (1 ≤ length recent)
        × (out.0 ≡ false)
        × (one_each.block ≢ 0 → blocked_until out.1 key ≡ 50 + one_each.block)
        × ((k : Text)
            → times_of out.1.connection_rate_attempts k
              ≡ (if key == k then recent else times_of quiet.connection_rate_attempts k)))
    ⊎ ((blocked_until quiet key ≤ 50)
        × (length recent < 1)
        × (out.0 ≡ true)
        × ((k : Text)
            → times_of out.1.connection_rate_attempts k ≡ (
                if key == k then recent ++ 50 ∷ [] else times_of quiet.connection_rate_attempts k)))
admission_example =
    accepts_new_connection_effect one_each lan 50 quiet (λ z. absurd (omega arith)) (omega arith)

-- A challenge is found for as long as it may be old, and dropped when it is older.
challenge_runs :
    (recent_lobby_dir_challenge lan 30 80
      (remember_lobby_dir_challenge lan (codes "s1") (codes "m1") 50 quiet)).0
    ≡ (codes "s1", codes "m1")
unfolding recent_lobby_dir_challenge remember_lobby_dir_challenge recent_found strip is_space get
    put text_beq
challenge_runs = refl

challenge_old :
    recent_lobby_dir_challenge lan 30 81
      (remember_lobby_dir_challenge lan (codes "s1") (codes "m1") 50 quiet)
    ≡ (([], []), quiet)
unfolding recent_lobby_dir_challenge remember_lobby_dir_challenge recent_found strip is_space get
    put erase text_beq
challenge_old = refl

abbrev twice : List Reject
twice = new_reject (codes "banned") 3 (codes " Ana ") 2 300 1000 ∷ []

twice-IsReject : All IsReject twice
unfolding IsReject new_reject
twice-IsReject = ((refl, omega arith), tt)

pop_example :
    let answer = auth_pop_forced_reject (ana ∷ []) 1100 twice in
    (truthy answer.0 ≡ ltb 0 (matching (ana ∷ []) 1100 twice))
    × (matching (ana ∷ []) 1100 answer.1 ≡ matching (ana ∷ []) 1100 twice - 1)
    × (all_uses 1100 answer.1
        ≡ all_uses 1100 twice - (if ltb 0 (matching (ana ∷ []) 1100 twice) then 1 else 0))
    × (keep (is_for_others (ana ∷ []) 1100) answer.1 ≡ keep (is_for_others (ana ∷ []) 1100) twice)
pop_example = auth_pop_forced_reject_lem (ana ∷ []) 1100 twice twice-IsReject

twice_counts : matching (ana ∷ []) 1100 twice ≡ 2
unfolding new_reject auth_norm contains text_beq strip lower is_space
twice_counts = refl
