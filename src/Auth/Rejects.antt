-- ===== src/Auth/Rejects.antt =====
-- The rejects that an administrator queues for logins.
use nfs_most_wanted_online.Prelude.{
  ℕ, ◌+◌, ◌-◌, ◌≤◌, ◌≡◌, refl, min, max, Bool, true, false, Bool-cases, inl, inr, not, ◌&&◌, ◌||◌,
  List, [], ◌∷◌, ◌++◌, keep, ltb, leb, if◌then◌else◌, arith, All,
}
use nfs_most_wanted_online.Prelude.Eq.{nat_eq, text_eq}
use nfs_most_wanted_online.Prelude.Sets.{contains}
use nfs_most_wanted_online.Prelude.Text.{Text, codes, truthy, strip, lower}

pub record Reject : Type 0 where
  pub reason : Text
  pub code : ℕ
  pub identifier : Text
  pub target : Text
  pub remaining : ℕ
  pub created_at : ℕ
  pub expires_at : ℕ

unfoldable pub auth_norm : Text → Text
auth_norm value = lower (strip value)

unfoldable pub auth_clear_expired_forced_rejects : ℕ → List Reject → List Reject
auth_clear_expired_forced_rejects now rejects = keep (λ entry. ltb now entry.expires_at) rejects

abbrev pub anyone : List Text
anyone = codes "" ∷ codes "*" ∷ codes "any" ∷ codes "ANY" ∷ []

-- What is queued for a reason and a code that are known, and at least one use.
unfoldable pub new_reject : Text → ℕ → Text → ℕ → ℕ → ℕ → Reject
new_reject reason code identifier uses ttl now =
    let name = strip identifier in
    let target = if contains name anyone then [] else auth_norm name in
    record {
      reason = reason;
      code = code;
      identifier = if truthy target then name else codes "*";
      target = target;
      remaining = max 1 (min 100 uses);
      created_at = now;
      expires_at = now + ttl;
    }

unfoldable pub auth_set_forced_reject : Text → ℕ → Text → ℕ → ℕ → ℕ → List Reject → List Reject
auth_set_forced_reject reason code identifier uses ttl now rejects =
    auth_clear_expired_forced_rejects now rejects
    ++ new_reject reason code identifier uses ttl now ∷ []

-- The loop of `_auth_pop_forced_reject` from the reason found so far: the reason, and what is kept.
unfoldable pub popped : List Text → ℕ → Text → List Reject → Text × List Reject
popped request_ids now matched [] = (matched, [])
popped request_ids now matched (entry ∷ entries) =
    let matches = not (truthy entry.target) || contains entry.target request_ids in
    let skip = popped request_ids now matched entries in
    let used = popped request_ids now entry.reason entries in
    if leb entry.expires_at now
    then skip
    else if matches && not (truthy matched)
    then (
      used.0,
      if ltb 1 entry.remaining
          then record entry { remaining = entry.remaining - 1 } ∷ used.1
          else used.1,
    )
    else (skip.0, entry ∷ skip.1)

unfoldable pub auth_pop_forced_reject : List Text → ℕ → List Reject → Text × List Reject
unfolding popped
auth_pop_forced_reject request_ids now rejects = popped request_ids now [] rejects

-- The uses that are left for a request, when it asks again and again.
abbrev pub matching : List Text → ℕ → List Reject → ℕ
matching request_ids now [] = 0
matching request_ids now (entry ∷ entries) =
    let rest = matching request_ids now entries in
    if ltb now entry.expires_at && (not (truthy entry.target) || contains entry.target request_ids)
    then entry.remaining + rest
    else rest

-- All uses that are in force, whomever they are meant for.
abbrev pub all_uses : ℕ → List Reject → ℕ
all_uses now [] = 0
all_uses now (entry ∷ entries) =
    let rest = all_uses now entries in
    if ltb now entry.expires_at then entry.remaining + rest else rest

-- An entry in force that is not meant for the request.
abbrev pub is_for_others : List Text → ℕ → Reject → Bool
is_for_others request_ids now entry =
    ltb now entry.expires_at && (truthy entry.target && not (contains entry.target request_ids))

-- An entry names a reason and has uses left.
unfoldable pub IsReject : Reject → Type 0
IsReject entry = (truthy entry.reason ≡ true) × (1 ≤ entry.remaining)

popped_matched :
    (request_ids : List Text) (now : ℕ) (matched : Text) (rejects : List Reject)
    → truthy matched ≡ true
    → ((popped request_ids now matched rejects).0 ≡ matched)
      × (matching request_ids now (popped request_ids now matched rejects).1
          ≡ matching request_ids now rejects)
      × (all_uses now (popped request_ids now matched rejects).1 ≡ all_uses now rejects)
unfolding popped
popped_matched request_ids now matched [] h = (refl, refl, refl)
popped_matched request_ids now matched (entry ∷ entries) h =
    ground (arith, popped_matched request_ids now matched entries h)

matching-le-all_uses :
    (request_ids : List Text) (now : ℕ) (rejects : List Reject)
    → matching request_ids now rejects ≤ all_uses now rejects
matching-le-all_uses request_ids now [] = omega arith
matching-le-all_uses request_ids now (entry ∷ entries) =
    ground (arith, matching-le-all_uses request_ids now entries)

-- The entries for others, with their uses and in their order, are kept.
popped-others :
    (request_ids : List Text) (now : ℕ) (matched : Text) (rejects : List Reject)
    → keep (is_for_others request_ids now) (popped request_ids now matched rejects).1
      ≡ keep (is_for_others request_ids now) rejects
unfolding popped
popped-others request_ids now matched [] = refl
popped-others request_ids now matched (entry ∷ entries) = ground (
  arith,
  popped-others request_ids now matched entries,
  popped-others request_ids now entry.reason entries,
)

popped-uses :
    (request_ids : List Text) (now : ℕ) (rejects : List Reject)
    → All IsReject rejects
    → let answer = popped request_ids now [] rejects in
      (truthy answer.0 ≡ ltb 0 (matching request_ids now rejects))
      × (matching request_ids now answer.1 ≡ matching request_ids now rejects - 1)
      × (all_uses now answer.1
          ≡ all_uses now rejects - (if ltb 0 (matching request_ids now rejects) then 1 else 0))
unfolding popped IsReject
popped-uses request_ids now [] all = (refl, refl, refl)
popped-uses request_ids now (entry ∷ entries) all =
    let rest = popped-uses request_ids now entries all.1 in
    let after = popped_matched request_ids now entry.reason entries all.0.0 in
    let fits = matching-le-all_uses request_ids now entries in
    elim (Bool-cases (leb entry.expires_at now)) [
      | inl old ↦ (let off : ltb now entry.expires_at ≡ false = ground arith in rw (old, off) rest)
      | inr live ↦
          (let on : ltb now entry.expires_at ≡ true = ground arith in
            elim (Bool-cases (not (truthy entry.target) || contains entry.target request_ids)) [
              | inl hit ↦ elim (Bool-cases (ltb 1 entry.remaining)) [
                | inl more ↦ rw (live, on, hit, more) (ground (arith, after))
                | inr last ↦ rw (live, on, hit, last) (ground (arith, after))
              ]
              | inr miss ↦ rw (live, on, miss) (ground (arith, rest))
            ])
    ]

-- If every entry names a reason and has uses left: each login that an entry in force is meant for is
-- rejected, and uses up exactly one of all the uses in force, which is one of those for it; a login
-- that none is meant for is let through, and uses up none. The entries in force for others are kept as
-- they are, in their order.
pub auth_pop_forced_reject_lem :
    (request_ids : List Text) (now : ℕ) (rejects : List Reject)
    → All IsReject rejects
    → let answer = auth_pop_forced_reject request_ids now rejects in
      (truthy answer.0 ≡ ltb 0 (matching request_ids now rejects))
      × (matching request_ids now answer.1 ≡ matching request_ids now rejects - 1)
      × (all_uses now answer.1
          ≡ all_uses now rejects - (if ltb 0 (matching request_ids now rejects) then 1 else 0))
      × (keep (is_for_others request_ids now) answer.1
          ≡ keep (is_for_others request_ids now) rejects)
unfolding auth_pop_forced_reject
auth_pop_forced_reject_lem request_ids now rejects all =
    let counted = popped-uses request_ids now rejects all in
    (counted.0, counted.1, counted.2, popped-others request_ids now [] rejects)
