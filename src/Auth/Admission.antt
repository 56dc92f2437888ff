-- ===== src/Auth/Admission.antt =====
-- How many connections are let in.
use nfs_most_wanted_online.Prelude.{
  ℕ, ◌+◌, ◌≤◌, ◌<◌, ◌≡◌, ◌≢◌, ◌⊎◌, refl, true, inl, inr, false, List, [], ◌∷◌, ◌++◌, length, take,
  ltb, leb, if◌then◌else◌, length-append, length-keep-le, arith, Bool-cases,
}
use nfs_most_wanted_online.Prelude.Eq.{◌==◌, nat_eq, text_eq, beq_refl}
use nfs_most_wanted_online.Prelude.Dict.{Dict, put, erase, get-put, get-erase, length-put-le}
use nfs_most_wanted_online.Prelude.Text.{Text}
use nfs_most_wanted_online.Auth.Limits.{
  Limits, RateSettings, rate_key, times_of, times_found, blocked_until, time_found, recent_attempts,
  unblocked, tripped, admitted, forget_stale, stale_keys, erase_all, accepts_new_connection,
}

-- No address has more attempts on record than the limit.
unfoldable pub IsWithin : ℕ → Limits → Type 0
IsWithin limit s = (key : Text) → length (times_of s.connection_rate_attempts key) ≤ limit

times_of-put :
    (d : Dict Text (List ℕ)) (key k : Text) (times : List ℕ)
    → times_of (put d key times) k ≡ (if key == k then times else times_of d k)
unfolding times_of times_found
times_of-put d key k times = ground (arith, get-put d key k times)

times_of-erase :
    (d : Dict Text (List ℕ)) (key k : Text)
    → length (times_of (erase d key) k) ≤ length (times_of d k)
unfolding times_of times_found
times_of-erase d key k = ground (arith, get-erase d key k)

times_of-erase_all :
    (keys : List Text) (d : Dict Text (List ℕ)) (k : Text)
    → length (times_of (erase_all keys d) k) ≤ length (times_of d k)
unfolding erase_all
times_of-erase_all [] d k = omega arith
times_of-erase_all (key ∷ keys) d k =
    omega (arith, times_of-erase_all keys (erase d key) k, times_of-erase d key k)

forget_stale-IsWithin :
    (settings : RateSettings) (limit now : ℕ) (s : Limits)
    → IsWithin limit s
    → IsWithin limit (forget_stale settings now s)
unfolding forget_stale IsWithin
forget_stale-IsWithin settings limit now s h key =
    elim (Bool-cases (ltb 4096 (length s.connection_rate_attempts))) [
      | inl e ↦ rw e (
          omega (
            arith,
            h key,
            times_of-erase_all
                (take 512 (stale_keys now settings.window s.connection_rate_attempts))
                s.connection_rate_attempts key,
          ))
      | inr e ↦ rw e (h key)
    ]

unblocked-IsWithin :
    (limit : ℕ) (key : Text) (s : Limits) → IsWithin limit s → IsWithin limit (unblocked key s)
unfolding unblocked IsWithin
unblocked-IsWithin limit key s h k = elim (Bool-cases (blocked_until s key == 0)) [
  | inl e ↦ rw e (h k)
  | inr e ↦ rw e (h k)
]

tripped-IsWithin :
    (settings : RateSettings) (key : Text) (now limit : ℕ) (s : Limits)
    → IsWithin limit s
    → IsWithin limit (tripped settings key now s)
unfolding tripped IsWithin
tripped-IsWithin settings key now limit s h k = ground (
  arith,
  h k,
  h key,
  times_of-put s.connection_rate_attempts key k (recent_attempts settings key now s),
  length-keep-le (λ ts. ltb now (ts + settings.window)) (times_of s.connection_rate_attempts key),
)

admitted-IsWithin :
    (settings : RateSettings) (key : Text) (now : ℕ) (s : Limits)
    → length (recent_attempts settings key now s) < settings.limit
    → IsWithin settings.limit s
    → IsWithin settings.limit (admitted settings key now s)
unfolding admitted
admitted-IsWithin settings key now s room h =
    let grown = recent_attempts settings key now s ++ now ∷ [] in
    forget_stale-IsWithin settings settings.limit now
      (record s { connection_rate_attempts = put s.connection_rate_attempts key grown })
      (unfold IsWithin in
        λ k. ground (
          arith,
          h k,
          times_of-put s.connection_rate_attempts key k grown,
          length-append (recent_attempts settings key now s) (now ∷ []),
        ))

accepts_new_connection-IsWithin :
    (settings : RateSettings) (ip : Text) (now : ℕ) (s : Limits)
    → IsWithin settings.limit s
    → IsWithin settings.limit (accepts_new_connection settings ip now s).1
unfolding accepts_new_connection
accepts_new_connection-IsWithin settings ip now s h =
    let key = rate_key ip in
    let free = unblocked-IsWithin settings.limit key s h in
    elim (Bool-cases (settings.limit == 0)) [
      | inl a ↦ rw a h
      | inr a ↦ elim (Bool-cases (ltb now (blocked_until s key))) [
        | inl b ↦ rw (a, b) h
        | inr b ↦
            elim (Bool-cases
              (leb settings.limit (length (recent_attempts settings key now (unblocked key s))))) [
                | inl c ↦
                    rw (a, b, c)
                      (tripped-IsWithin settings key now settings.limit (unblocked key s) free)
                | inr c ↦
                    rw (a, b, c)
                      (admitted-IsWithin settings key now (unblocked key s) (ground arith) free)
              ]
      ]
    ]

tripped_until :
    (settings : RateSettings) (key : Text) (now : ℕ) (s : Limits)
    → settings.block ≢ 0
    → blocked_until (tripped settings key now s) key ≡ now + settings.block
unfolding tripped blocked_until time_found
tripped_until settings key now s blocks =
    ground
      (arith, get-put s.connection_rate_blocked_until key key (now + settings.block), beq_refl key)

-- A refusal without a block in force tripped the limit.
refused_trips :
    (settings : RateSettings) (ip : Text) (now : ℕ) (s : Limits)
    → (accepts_new_connection settings ip now s).0 ≡ false
    → ltb now (blocked_until s (rate_key ip)) ≡ false
    → (accepts_new_connection settings ip now s).1
      ≡ tripped settings (rate_key ip) now (unblocked (rate_key ip) s)
unfolding accepts_new_connection
refused_trips settings ip now s refused unblocked_yet = ground arith

still_blocked :
    (settings : RateSettings) (ip : Text) (later : ℕ) (s : Limits)
    → settings.limit ≢ 0
    → later < blocked_until s (rate_key ip)
    → accepts_new_connection settings ip later s ≡ (false, s)
unfolding accepts_new_connection
still_blocked settings ip later s limited soon = ground arith

-- An address whose request tripped the limit is refused until the block is over, and asking meanwhile
-- changes nothing.
tripped_stays_blocked :
    (settings : RateSettings) (ip : Text) (now later : ℕ) (s : Limits)
    → settings.limit ≢ 0
    → (accepts_new_connection settings ip now s).0 ≡ false
    → ltb now (blocked_until s (rate_key ip)) ≡ false
    → now ≤ later
    → later < now + settings.block
    → let after = (accepts_new_connection settings ip now s).1 in
      accepts_new_connection settings ip later after ≡ (false, after)
tripped_stays_blocked settings ip now later s limited refused unblocked_yet order soon =
    let e = refused_trips settings ip now s refused unblocked_yet in
    let until =
      tripped_until settings (rate_key ip) now (unblocked (rate_key ip) s)
        (λ z. absurd (omega arith)) in
    rw e (still_blocked settings ip later _ limited (omega (arith, until)))

-- Requests for connections, each with its address and its time, one after another.
unfoldable pub connect_all : RateSettings → List (Text × ℕ) → Limits → Limits
connect_all settings [] s = s
connect_all settings ((ip, now) ∷ requests) s =
    connect_all settings requests (accepts_new_connection settings ip now s).1

-- However many connections are asked for, no address comes to have more of them on record than the
-- limit, if none had more before.
pub connect_all-IsWithin :
    (settings : RateSettings) (requests : List (Text × ℕ)) (s : Limits)
    → IsWithin settings.limit s
    → IsWithin settings.limit (connect_all settings requests s)
unfolding connect_all
connect_all-IsWithin settings [] s h = h
connect_all-IsWithin settings ((ip, now) ∷ requests) s h =
    connect_all-IsWithin settings requests _ (accepts_new_connection-IsWithin settings ip now s h)

unblocked-attempts :
    (key : Text) (s : Limits)
    → (unblocked key s).connection_rate_attempts ≡ s.connection_rate_attempts
unfolding unblocked
unblocked-attempts key s = elim (Bool-cases (blocked_until s key == 0)) [
  | inl e ↦ rw e refl
  | inr e ↦ rw e refl
]

unblocked-recent :
    (settings : RateSettings) (key : Text) (now : ℕ) (s : Limits)
    → recent_attempts settings key now (unblocked key s) ≡ recent_attempts settings key now s
unblocked-recent settings key now s = rw (unblocked-attempts key s) refl

tripped_times :
    (settings : RateSettings) (key : Text) (now : ℕ) (s : Limits) (k : Text)
    → times_of (tripped settings key now (unblocked key s)).connection_rate_attempts k ≡ (
        if key == k
        then recent_attempts settings key now s
        else times_of s.connection_rate_attempts k)
unfolding tripped
tripped_times settings key now s k =
    rw (unblocked-attempts key s)
      (times_of-put s.connection_rate_attempts key k (recent_attempts settings key now s))

-- While the table is small, nothing is forgotten.
admitted_small :
    (settings : RateSettings) (key : Text) (now : ℕ) (s : Limits)
    → length s.connection_rate_attempts < 4096
    → (admitted settings key now s).connection_rate_attempts
      ≡ put s.connection_rate_attempts key (recent_attempts settings key now s ++ now ∷ [])
unfolding admitted forget_stale
admitted_small settings key now s small =
    let grown =
      put s.connection_rate_attempts key (recent_attempts settings key now s ++ now ∷ []) in
    let few : ltb 4096 (length grown) ≡ false = ground (
      arith,
      length-put-le s.connection_rate_attempts key (recent_attempts settings key now s ++ now ∷ []),
    ) in
    rw few refl

admitted_times :
    (settings : RateSettings) (key : Text) (now : ℕ) (s : Limits) (k : Text)
    → length s.connection_rate_attempts < 4096
    → times_of (admitted settings key now (unblocked key s)).connection_rate_attempts k ≡ (
        if key == k
        then recent_attempts settings key now s ++ now ∷ []
        else times_of s.connection_rate_attempts k)
admitted_times settings key now s k small =
    let same = unblocked-attempts key s in
    let e = admitted_small settings key now (unblocked key s) (rw same small) in
    rw e (
      rw same (
        times_of-put s.connection_rate_attempts key k
          (recent_attempts settings key now s ++ now ∷ [])))

-- With a limit set, and with less than 4096 addresses on record, an address is let in exactly if it is
-- not blocked and fewer of its connections than the limit are recent, and this one then counts as
-- recent too. It is refused without any change while it is blocked. A request above the limit is
-- refused, leaves only the recent connections of the address on record, and blocks it for as long as
-- is set, if that is not 0. The connections of other addresses stay on record as they were.
pub accepts_new_connection_effect :
    (settings : RateSettings) (ip : Text) (now : ℕ) (s : Limits)
    → settings.limit ≢ 0
    → length s.connection_rate_attempts < 4096
    → let key = rate_key ip in
      let recent = recent_attempts settings key now s in
      let out = accepts_new_connection settings ip now s in
      ((now < blocked_until s key) × (out ≡ (false, s)))
      ⊎ ((blocked_until s key ≤ now)
          × (settings.limit ≤ length recent)
          × (out.0 ≡ false)
          × (settings.block ≢ 0 → blocked_until out.1 key ≡ now + settings.block)
          × ((k : Text)
              → times_of out.1.connection_rate_attempts k
                ≡ (if key == k then recent else times_of s.connection_rate_attempts k)))
      ⊎ ((blocked_until s key ≤ now)
          × (length recent < settings.limit)
          × (out.0 ≡ true)
          × ((k : Text)
              → times_of out.1.connection_rate_attempts k
                ≡ (if key == k then recent ++ now ∷ [] else times_of s.connection_rate_attempts k)))
unfolding accepts_new_connection
accepts_new_connection_effect settings ip now s limited small =
    let key = rate_key ip in
    let t = unblocked key s in
    let set : (settings.limit == 0) ≡ false = ground arith in
    let same = unblocked-attempts key s in
    let counted = unblocked-recent settings key now s in
    elim (Bool-cases (ltb now (blocked_until s key))) [
      | inl b ↦ rw (set, b) (inl (ground arith, refl))
      | inr b ↦
          elim (Bool-cases (leb settings.limit (length (recent_attempts settings key now s)))) [
            | inl c ↦
                rw (set, b, counted, c)
                  (inr (
                    inl (
                      ground arith,
                      ground arith,
                      refl,
                      tripped_until settings key now t,
                      λ k. tripped_times settings key now s k,
                    )))
            | inr c ↦
                rw (set, b, counted, c)
                  (inr (
                    inr (
                      ground arith,
                      ground arith,
                      refl,
                      λ k. admitted_times settings key now s k small,
                    )))
          ]
    ]
