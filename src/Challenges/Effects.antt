-- ===== src/Challenges/Effects.antt =====
-- Who can challenge whom, who can answer, and what a sweep removes.
use nfs_most_wanted_online.Prelude.{
  ℕ, ◌+◌, ◌≤◌, ◌≡◌, refl, ◌≢◌, ◌⊎◌, inl, inr, Bool, true, false, not, ◌&&◌, ◌||◌, ltb, leb, Option,
  none, some, List, [], ◌∷◌, arith, Bool-cases, Option-cases, if◌then◌else◌,
}
use nfs_most_wanted_online.Prelude.Eq.{◌==◌, nat_eq}
use nfs_most_wanted_online.Prelude.Sets.{contains}
use nfs_most_wanted_online.Prelude.Dict.{Dict, keys, get, erase, get-put, get-erase, contains-keys}
use nfs_most_wanted_online.Prelude.Text.{Text}
use nfs_most_wanted_online.Users.{User, get_user, get_by_name}
use nfs_most_wanted_online.Challenges.{
  Challenge, ChallengeManager, accepted, rejected, idle, new_challenge, in_state, is_expired,
  challenge, respond, sweep_keys, sweep_expired,
}

-- A challenge is made exactly when both users are there and in one room, which is not 0. It is then
-- pending under the next identifier, between these two, and no other challenge changes; a refused
-- one changes nothing.
pub challenge_effect :
    (m : ChallengeManager) (now uid : ℕ) (name : Text)
    → (((challenge m now uid name).1 ≡ false)
        × ((challenge m now uid name).0 ≡ m)
        × ((get_user m.users uid ≡ none)
            ⊎ (get_by_name m.users name ≡ none)
            ⊎ ((a b : User) × (get_user m.users uid ≡ some a)
                × (get_by_name m.users name ≡ some b)
                × ((a.room ≡ 0) ⊎ (a.room ≢ b.room)))))
      ⊎ ((a b : User) × ((challenge m now uid name).1 ≡ true)
          × (get_user m.users uid ≡ some a)
          × (get_by_name m.users name ≡ some b)
          × (a.room ≢ 0)
          × (a.room ≡ b.room)
          × ((j : ℕ)
              → get (challenge m now uid name).0.chals j ≡ (
                  if m.counter == j
                  then some (new_challenge now m.counter uid b.uid a.room)
                  else get m.chals j)))
unfolding challenge
challenge_effect m now uid name = elim (Option-cases (get_user m.users uid)) [
  | inl e ↦ rw (e, challenge) (inl (refl, refl, inl refl))
  | inr (a, e) ↦ elim (Option-cases (get_by_name m.users name)) [
    | inl f ↦ rw (e, f, challenge) (inl (refl, refl, inr (inl refl)))
    | inr (b, f) ↦ elim (Bool-cases (a.room == 0 || not (a.room == b.room))) [
      | inl apart ↦
          rw (e, f, apart, challenge) (inl (refl, refl, inr (inr (a, b, refl, refl, ground arith))))
      | inr near ↦
          rw (e, f, near, challenge)
            (inr (
              a,
              b,
              refl,
              refl,
              refl,
              ground arith,
              ground arith,
              λ j. get-put m.chals m.counter j _,
            ))
    ]
  ]
]

-- Only the user who was challenged can answer: the call of another, or for a challenge that is not
-- there, returns false and changes nothing. The answer of the user who was challenged is taken within
-- 30 seconds, makes the challenge accepted or rejected and is returned; later the challenge becomes
-- idle and false is returned. No call changes more of the challenge than its state, or another one.
pub respond_effect :
    (m : ChallengeManager) (now ident uid : ℕ) (accept : Bool)
    → let out = respond m now ident uid accept in
      ((get m.chals ident ≡ none) × (out ≡ (m, false)))
      ⊎ ((c : Challenge) × (get m.chals ident ≡ some c) × (c.uid1 ≢ uid) × (out ≡ (m, false)))
      ⊎ ((c : Challenge) × (get m.chals ident ≡ some c)
          × (c.uid1 ≡ uid)
          × (out.1 ≡ (accept && leb now (c.created + 30)))
          × ((j : ℕ)
              → get out.0.chals j ≡ (
                  if ident == j
                  then some (
                      in_state c (
                        if leb now (c.created + 30)
                        then if accept then accepted else rejected
                        else idle))
                  else get m.chals j)))
unfolding respond is_expired
respond_effect m now ident uid accept = elim (Option-cases (get m.chals ident)) [
  | inl e ↦ rw (e, respond) (inl (refl, refl))
  | inr (c, e) ↦ elim (Bool-cases (c.uid1 == uid)) [
    | inr other ↦ rw (e, respond, other) (inr (inl (c, refl, ground arith, refl)))
    | inl same ↦ elim (Bool-cases (ltb (c.created + 30) now)) [
      | inl late ↦
          (let gone : leb now (c.created + 30) ≡ false = ground arith in
            rw (e, respond, same, late)
              (inr (
                inr (
                  c,
                  refl,
                  ground arith,
                  ground arith,
                  λ j. rw gone (get-put m.chals ident j (in_state c idle)),
                ))))
      | inr soon ↦
          (let there : leb now (c.created + 30) ≡ true = ground arith in
            rw (e, respond, same, soon)
              (inr (
                inr (
                  c,
                  refl,
                  ground arith,
                  ground arith,
                  λ j. rw there (
                      get-put m.chals ident j (in_state c (if accept then accepted else rejected))),
                ))))
    ]
  ]
]

-- What a sweep leaves of a lookup.
abbrev pub unexpired : ℕ → Option Challenge → Option Challenge
unexpired now none = none
unexpired now (some c) = if is_expired now c then none else some c

get-sweep_keys :
    (now j : ℕ) (idents : List ℕ) (d : Dict ℕ Challenge)
    → get (sweep_keys now idents d) j
      ≡ (if contains j idents then unexpired now (get d j) else get d j)
unfolding sweep_keys contains
get-sweep_keys now j [] d = refl
get-sweep_keys now j (ident ∷ idents) d = elim (Option-cases (get d ident)) [
  | inl e ↦ rw (e, sweep_keys) (ground (arith, get-sweep_keys now j idents d))
  | inr (c, e) ↦
      rw (e, sweep_keys)
        (elim (Bool-cases (is_expired now c)) [
          | inl old ↦
              rw old
                (ground (arith, get-sweep_keys now j idents (erase d ident), get-erase d ident j))
          | inr young ↦ rw young (ground (arith, get-sweep_keys now j idents d))
        ])
]

-- A sweep removes exactly the challenges that are older than 30 seconds, answered or not.
pub sweep_challenges_effect :
    (m : ChallengeManager) (now j : ℕ)
    → get (sweep_expired m now).chals j ≡ unexpired now (get m.chals j)
unfolding sweep_expired
sweep_challenges_effect m now j =
    ground (arith, get-sweep_keys now j (keys m.chals) m.chals, contains-keys j m.chals)

respond_in_time :
    (m : ChallengeManager) (now ident uid : ℕ) (accept : Bool) (c : Challenge)
    → get m.chals ident ≡ some c
    → c.uid1 ≡ uid
    → now ≤ c.created + 30
    → ((respond m now ident uid accept).1 ≡ accept)
      × (get (respond m now ident uid accept).0.chals ident
          ≡ some (in_state c (if accept then accepted else rejected)))
unfolding respond is_expired
respond_in_time m now ident uid accept c h t l =
    rw (h, respond)
      (
        ground arith,
        ground (
          arith,
          get-put m.chals ident ident (in_state c (if accept then accepted else rejected)),
        ),
      )

-- An answer does not look at the state: within the 30 seconds the user who was challenged can accept
-- a challenge whatever was answered before, also one that the user rejected.
pub respond_again :
    (m : ChallengeManager) (now later ident uid : ℕ) (c : Challenge)
    → get m.chals ident ≡ some c
    → c.uid1 ≡ uid
    → now ≤ later
    → later ≤ c.created + 30
    → let m' = (respond m now ident uid false).0 in
      (get m'.chals ident ≡ some (in_state c rejected))
      × ((respond m' later ident uid true).1 ≡ true)
      × (get (respond m' later ident uid true).0.chals ident ≡ some (in_state c accepted))
respond_again m now later ident uid c h t n l =
    let first = respond_in_time m now ident uid false c h t (omega arith) in
    let second =
      respond_in_time (respond m now ident uid false).0 later ident uid true (in_state c rejected)
        first.1 t l in
    (first.1, second.0, second.1)
