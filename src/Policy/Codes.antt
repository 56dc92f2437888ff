-- ===== src/Policy/Codes.antt =====
-- Every code that the policy answers with is one that the client knows for the command.
use nfs_most_wanted_online.Prelude.{
  ◌≡◌, refl, ap, ◌⊎◌, inl, inr, Bool, true, false, ◌&&◌, ◌||◌, [], length, take, arith, Bool-cases,
  if◌then◌else◌,
}
use nfs_most_wanted_online.Prelude.Eq.{◌==◌, nat_eq, text_eq, text_beq, text_beq_iff}
use nfs_most_wanted_online.Prelude.Sets.{contains}
use nfs_most_wanted_online.Prelude.Text.{Text, codes, truthy}
use nfs_most_wanted_online.Policy.{
  cper_reasons, pers_reasons, normalize_key, command_for, fitting_code, checked_code, stage_reason,
  split_code, parse_code, CodeSettings, blacklist_code,
}

invp_allowed : contains (codes "invp") pers_reasons ≡ true
unfolding contains text_beq
invp_allowed = refl

invp_for_cper : contains (codes "invp") cper_reasons ≡ true
unfolding contains text_beq
invp_for_cper = refl

stage_reason-allowed :
    (at_cper at_pers : Bool) (reason : Text)
    → (at_cper ≡ true → at_pers ≡ false)
    → contains
        (stage_reason at_cper at_pers reason)
        (if at_cper then cper_reasons else pers_reasons)
      ≡ true
stage_reason-allowed true at_pers reason one = elim (Bool-cases (contains reason cper_reasons)) [
  | inl e ↦ rw e e
  | inr e ↦ rw (e, one refl) invp_for_cper
]
stage_reason-allowed false true reason one = elim (Bool-cases (contains reason pers_reasons)) [
  | inl e ↦ rw e e
  | inr e ↦ rw e invp_allowed
]
stage_reason-allowed false false reason one = invp_allowed

-- A code for the stage cper is one of CPER_REASONS and a code for any other stage one of
-- PERS_REASONS, whatever the settings hold.
pub blacklist_code-allowed :
    (cfg : CodeSettings) (stage : Text)
    → contains
        (blacklist_code cfg stage)
        (if normalize_key stage == codes "cper" then cper_reasons else pers_reasons)
      ≡ true
unfolding blacklist_code
blacklist_code-allowed cfg stage =
    stage_reason-allowed _ _ _
      (λ h. rw ((text_beq_iff (normalize_key stage) (codes "cper")).0 h) (unfold text_beq in refl))

abbrev Command : Text → Type 0
Command cmd = (cmd ≡ []) ⊎ (cmd ≡ codes "cper") ⊎ (cmd ≡ codes "pers")

abbrev Allowed : Text × Text → Type 0
Allowed code =
    (code ≡ ([], []))
    ⊎ ((code.0 ≡ codes "cper") × (contains code.1 cper_reasons ≡ true))
    ⊎ ((code.0 ≡ codes "pers") × (contains code.1 pers_reasons ≡ true))

split_code-Command : (text : Text) → Command (split_code text).0
unfolding split_code
split_code-Command text =
    elim (Bool-cases
      (length text == 8 && (take 4 text == codes "cper" || take 4 text == codes "pers"))) [
        | inl e ↦ rw e (elim (Bool-cases (take 4 text == codes "cper")) [
          | inl c ↦ inr (inl ((text_beq_iff (take 4 text) (codes "cper")).0 c))
          | inr c ↦ inr (inr ((text_beq_iff (take 4 text) (codes "pers")).0 (ground arith)))
        ])
        | inr e ↦ rw e (inl refl)
      ]

abbrev Known : Text → Type 0
Known cmd = (cmd ≡ codes "cper") ⊎ (cmd ≡ codes "pers")

Known-truthy : (cmd : Text) → Known cmd → truthy cmd ≡ true
Known-truthy cmd (inl e) = ap truthy e
Known-truthy cmd (inr e) = ap truthy e

command_for-Known : (reason : Text) → Known (command_for reason)
command_for-Known reason = elim (Bool-cases (reason == codes "dupl" || reason == codes "nspc")) [
  | inl e ↦ rw e (inl refl)
  | inr e ↦ rw e (inr refl)
]

fitting_code-Allowed : (cmd reason : Text) → Known cmd → Allowed (fitting_code cmd reason)
unfolding text_beq
fitting_code-Allowed cmd reason (inl e) = rw e (elim (Bool-cases (contains reason cper_reasons)) [
  | inl h ↦ rw h (inr (inl (refl, h)))
  | inr h ↦ rw h (inl refl)
])
fitting_code-Allowed cmd reason (inr e) = rw e (elim (Bool-cases (contains reason pers_reasons)) [
  | inl h ↦ rw h (inr (inr (refl, h)))
  | inr h ↦ rw h (inl refl)
])

-- A command that was given or found, and the reason, are answered only if they go together.
checked_code-Allowed : (cmd reason : Text) → Command cmd → Allowed (checked_code cmd reason)
unfolding checked_code
checked_code-Allowed cmd reason c = elim (Bool-cases (truthy reason)) [
  | inr e ↦ rw e (inl refl)
  | inl e ↦ rw e (elim c [
    | inl empty ↦
        rw empty (fitting_code-Allowed (command_for reason) reason (command_for-Known reason))
    | inr known ↦ rw (Known-truthy cmd known) (fitting_code-Allowed cmd reason known)
  ])
]

-- A text is read as nothing, or as a command and a reason that the command has.
pub parse_code-allowed :
    (value : Text)
    → (parse_code value ≡ ([], []))
      ⊎ (((parse_code value).0 ≡ codes "cper")
          × (contains (parse_code value).1 cper_reasons ≡ true))
      ⊎ (((parse_code value).0 ≡ codes "pers")
          × (contains (parse_code value).1 pers_reasons ≡ true))
unfolding parse_code
parse_code-allowed value = checked_code-Allowed _ _ (split_code-Command _)
