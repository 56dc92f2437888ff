-- ===== src/Auth/Lockout.antt =====
-- Failures lock an identifier out, and for how long.
use nfs_most_wanted_online.Prelude.{
  ℕ, zero, suc, ◌+◌, ◌-◌, ◌*◌, ◌≤◌, ◌<◌, ◌≡◌, ◌≢◌, refl, inl, inr, min, max, Bool, true, false,
  List, [], ◌∷◌, ◌++◌, length, keep, drop, ltb, leb, All, All-append, length-append, length-drop,
  arith, Bool-cases,
}
use nfs_most_wanted_online.Prelude.Eq.{nat_eq, text_eq, beq_refl}
use nfs_most_wanted_online.Prelude.Dict.{Dict, put, erase, get-put, get-erase}
use nfs_most_wanted_online.Prelude.Text.{Text}
use nfs_most_wanted_online.Auth.Limits.{
  Limits, FailSettings, fail_window, auth_rate_key, times_of, times_found, recent_failures, newest,
  auth_is_rate_limited, auth_note_failure, auth_note_success,
}

-- Failures at these times, the first of them first.
abbrev pub note_all : FailSettings → Text → List ℕ → Limits → Limits
note_all settings identifier [] s = s
note_all settings identifier (now ∷ times) s =
    note_all settings identifier times (auth_note_failure settings identifier now s)

abbrev pub Between : ℕ → ℕ → ℕ → Type 0
Between lo hi t = (lo ≤ t) × (t ≤ hi)

times_of-put :
    (d : Dict Text (List ℕ)) (key : Text) (times : List ℕ) → times_of (put d key times) key ≡ times
unfolding times_of times_found
times_of-put d key times = rw (get-put d key key times, beq_refl key) refl

times_of-erase : (d : Dict Text (List ℕ)) (key : Text) → times_of (erase d key) key ≡ []
unfolding times_of times_found
times_of-erase d key = rw (get-erase d key key, beq_refl key) refl

keep_every : (p : ℕ → Bool) (xs : List ℕ) → All (λ x. p x ≡ true) xs → keep p xs ≡ xs
keep_every p [] all = refl
keep_every p (x ∷ xs) all = rw (all.0, keep_every p xs all.1) refl

All-drop : (P : ℕ → Type 0) (n : ℕ) (xs : List ℕ) → All P xs → All P (drop n xs)
All-drop P zero xs all = all
All-drop P (suc n) [] all = all
All-drop P (suc n) (x ∷ xs) all = All-drop P n xs all.1

module _ (settings : FailSettings) (identifier : Text) (lo : ℕ) where
  abbrev Soon : ℕ → Type 0
  Soon t = Between lo (lo + settings.lockout_seconds) t

  within :
      (now : ℕ) (xs : List ℕ)
      → Soon now
      → All Soon xs
      → All (λ ts. leb now (ts + fail_window settings) ≡ true) xs
  within now [] h all = tt
  within now (x ∷ xs) h all = (ground arith, within now xs h all.1)

  -- Nothing that happened soon enough is forgotten.
  nothing_forgotten :
      (now : ℕ) (s : Limits)
      → Soon now
      → All Soon (times_of s.auth_failures (auth_rate_key identifier))
      → recent_failures settings (auth_rate_key identifier) now s
        ≡ times_of s.auth_failures (auth_rate_key identifier)
  unfolding recent_failures
  nothing_forgotten now s h all = keep_every _ _ (within now _ h all)

  abbrev noted : Limits → List ℕ
  noted s = times_of s.auth_failures (auth_rate_key identifier)

  abbrev cap : ℕ
  cap = max (settings.fail_limit * 2) 16

  noted_once :
      (now : ℕ) (s : Limits)
      → Soon now
      → All Soon (noted s)
      → noted (auth_note_failure settings identifier now s)
        ≡ drop (length (noted s ++ now ∷ []) - cap) (noted s ++ now ∷ [])
  unfolding auth_note_failure
  noted_once now s h all =
      rw (times_of-put s.auth_failures (auth_rate_key identifier))
        (rw (nothing_forgotten now s h all) refl)

  tally :
      (times : List ℕ) (s : Limits)
      → All Soon times
      → All Soon (noted s)
      → length (noted s) ≤ cap
      → (length (noted (note_all settings identifier times s))
          ≡ min (length (noted s) + length times) cap)
        × All Soon (noted (note_all settings identifier times s))
  tally [] s h all few = (omega arith, all)
  tally (now ∷ times) s h all few =
      let t = auth_note_failure settings identifier now s in
      let grown = noted s ++ now ∷ [] in
      let e = noted_once now s h.0 all in
      let soon : All Soon (noted t) = rw e (
        All-drop Soon (length grown - cap) grown
          (All-append Soon (noted s) (now ∷ []) all (h.0, tt))) in
      let size : length (noted t) ≡ min (length (noted s) + 1) cap =
        rw (e, length-drop (length grown - cap) grown)
          (omega (arith, length-append (noted s) (now ∷ []))) in
      let rest = tally times t h.1 soon (omega (arith, size)) in
      (omega (arith, rest.0, size), rest.1)

newest-le : (hi : ℕ) (xs : List ℕ) → All (λ t. t ≤ hi) xs → newest xs ≤ hi
unfolding newest
newest-le hi [] all = omega arith
newest-le hi (x ∷ xs) all = omega (arith, all.0, newest-le hi xs all.1)

newest-ge : (lo : ℕ) (xs : List ℕ) → length xs ≢ 0 → All (λ t. lo ≤ t) xs → lo ≤ newest xs
unfolding newest
newest-ge lo [] some_time all = absurd (some_time refl)
newest-ge lo (x ∷ xs) some_time all = omega (arith, all.0)

All-lo : (lo hi : ℕ) (xs : List ℕ) → All (Between lo hi) xs → All (λ t. lo ≤ t) xs
All-lo lo hi [] all = tt
All-lo lo hi (x ∷ xs) all = (all.0.0, All-lo lo hi xs all.1)

module _ (settings : FailSettings) (identifier : Text) (lo now : ℕ) (times : List ℕ)
    (s : Limits) where
  abbrev failed : Limits
  failed = note_all settings identifier times (auth_note_success identifier s)

  -- From a login that succeeded on, failures within one lockout time lock the identifier out exactly if
  -- there are as many of them as the limit, however many more there are and whatever had happened before.
  pub lockout :
      1 ≤ settings.fail_limit
      → All (Between lo (lo + settings.lockout_seconds)) times
      → Between lo (lo + settings.lockout_seconds) now
      → (auth_is_rate_limited settings identifier now failed).0
        ≡ leb settings.fail_limit (length times)
  unfolding auth_is_rate_limited auth_note_success
  lockout one soon h =
      let start = times_of-erase s.auth_failures (auth_rate_key identifier) in
      let all : All (Between lo (lo + settings.lockout_seconds))
          (noted settings identifier lo (auth_note_success identifier s)) =
        rw start tt in
      let few : length (noted settings identifier lo (auth_note_success identifier s)) ≡ 0 =
        rw start refl in
      let counted =
        tally settings identifier lo times (auth_note_success identifier s) soon all
          (omega (arith, few)) in
      rw (nothing_forgotten settings identifier lo now failed h counted.1)
        (elim (Bool-cases
          (ltb (length (noted settings identifier lo failed)) settings.fail_limit)) [
            | inl e ↦ rw e (ground (arith, counted.0, few))
            | inr e ↦
                (let later =
                    newest-ge lo (noted settings identifier lo failed) (λ z. absurd (ground arith))
                      (All-lo lo (lo + settings.lockout_seconds)
                        (noted settings identifier lo failed) counted.1) in
                  rw e (ground (arith, counted.0, few)))
          ])

keep-All : (P : ℕ → Type 0) (p : ℕ → Bool) (xs : List ℕ) → All P xs → All P (keep p xs)
keep-All P p [] all = tt
keep-All P p (x ∷ xs) all = ground (arith, keep-All P p xs all.1)

module _ (settings : FailSettings) (identifier : Text) (hi : ℕ) where
  abbrev Past : ℕ → Type 0
  Past t = t ≤ hi

  recorded : Limits → List ℕ
  recorded s = times_of s.auth_failures (auth_rate_key identifier)

  old_stays_old :
      (times : List ℕ) (s : Limits)
      → All Past times
      → All Past (recorded s)
      → All Past (recorded (note_all settings identifier times s))
  unfolding auth_note_failure recent_failures recorded
  old_stays_old [] s h all = all
  old_stays_old (now ∷ times) s h all =
      old_stays_old times (auth_note_failure settings identifier now s) h.1 (
        rw (times_of-put s.auth_failures (auth_rate_key identifier))
          (All-drop Past _ _ (All-append Past _ (now ∷ []) (keep-All Past _ _ all) (h.0, tt))))

  -- A lockout ends: when the lockout time has passed since the last failure, a login is not limited any
  -- more, whatever the failures were.
  pub lockout_ends :
      (now : ℕ) (times : List ℕ) (s : Limits)
      → 1 ≤ settings.fail_limit
      → All (λ t. t ≤ hi) times
      → hi + settings.lockout_seconds < now
      → (auth_is_rate_limited settings identifier now
          (note_all settings identifier times (auth_note_success identifier s))).0
        ≡ false
  unfolding auth_is_rate_limited auth_note_success recorded recent_failures
  lockout_ends now times s one h later =
      let cleared = auth_note_success identifier s in
      let start : All Past (recorded cleared) =
        rw (times_of-erase s.auth_failures (auth_rate_key identifier)) tt in
      let failed = note_all settings identifier times cleared in
      let past =
        keep-All Past (λ ts. leb now (ts + fail_window settings)) (recorded failed)
          (old_stays_old times cleared h start) in
      ground
        (arith, newest-le hi (recent_failures settings (auth_rate_key identifier) now failed) past)
