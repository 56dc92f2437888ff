-- ===== src/Policy.antt =====
-- server/persona_policy.py: the codes with which a persona is refused, and the match against the
-- lists of reserved and forbidden names. Settings come in as the texts that the configuration holds,
-- a set as the list of its members in the order in which Python iterates over it.
pub mod Codes
mod Tests
use nfs_most_wanted_online.Prelude.{
  ℕ, suc, Bool, true, false, not, ◌&&◌, ◌||◌, Option, none, some, List, [], ◌∷◌, ◌++◌, map, length,
  keep, take, drop, ltb, leb, if◌then◌else◌,
}
use nfs_most_wanted_online.Prelude.Eq.{◌==◌, nat_eq, nat_beq, text_eq}
use nfs_most_wanted_online.Prelude.Sets.{contains}
use nfs_most_wanted_online.Prelude.Dict.{Dict, get}
use nfs_most_wanted_online.Prelude.Text.{Text, codes, truthy, or_text, strip, lower}

-- CPER_REASONS, PERS_REASONS
abbrev pub cper_reasons : List Text
cper_reasons = codes "dupl" ∷ codes "invp" ∷ codes "nspc" ∷ []

abbrev pub pers_reasons : List Text
pers_reasons = codes "invp" ∷ codes "maut" ∷ codes "pset" ∷ []

-- _REASON_ALIASES
abbrev pub reason_aliases : Dict Text Text
reason_aliases =
    (codes "dupl", codes "dupl")
    ∷ (codes "duplicate", codes "dupl")
    ∷ (codes "already_exists", codes "dupl")
    ∷ (codes "in_use", codes "dupl")
    ∷ (codes "invp", codes "invp")
    ∷ (codes "invalid", codes "invp")
    ∷ (codes "invalid_persona", codes "invp")
    ∷ (codes "nspc", codes "nspc")
    ∷ (codes "no_space", codes "nspc")
    ∷ (codes "slots_full", codes "nspc")
    ∷ (codes "maut", codes "maut")
    ∷ (codes "must_auth", codes "maut")
    ∷ (codes "not_authenticated", codes "maut")
    ∷ (codes "pset", codes "pset")
    ∷ (codes "persona_set", codes "pset")
    ∷ (codes "already_set", codes "pset")
    ∷ []

-- _REASON_TEXT
abbrev pub reason_texts : Dict Text Text
reason_texts =
    (codes "dupl", codes "Persona is already in use.")
    ∷ (codes "invp", codes "Persona is invalid.")
    ∷ (codes "nspc", codes "No persona slots are available.")
    ∷ (codes "maut", codes "Persona selection requires authentication.")
    ∷ (codes "pset", codes "Persona is already set.")
    ∷ []

abbrev pub or_default : Option Text → Text → Text
or_default none d = d
or_default (some t) d = t

unfoldable pub normalize_key : Text → Text
normalize_key value = lower (strip value)

-- `text.replace(old, new)` of one character.
unfoldable pub replaced : ℕ → ℕ → Text → Text
replaced old new text = map (λ c. if c == old then new else c) text

-- The command and the reason that a text names, before they are checked against each other.
unfoldable pub split_code : Text → Text × Text
split_code text =
    if length text == 8 && (take 4 text == codes "cper" || take 4 text == codes "pers")
    then (take 4 text, drop 4 text)
    else ([], text)

abbrev pub command_for : Text → Text
command_for reason =
    if reason == codes "dupl" || reason == codes "nspc" then codes "cper" else codes "pers"

abbrev pub fitting_code : Text → Text → Text × Text
fitting_code cmd reason =
    if cmd == codes "cper" && not (contains reason cper_reasons)
    then ([], [])
    else if cmd == codes "pers" && not (contains reason pers_reasons)
    then ([], [])
    else (cmd, reason)

unfoldable pub checked_code : Text → Text → Text × Text
checked_code cmd reason =
    if not (truthy reason)
    then ([], [])
    else fitting_code (if truthy cmd then cmd else command_for reason) reason

unfoldable pub parse_code : Text → Text × Text
parse_code value =
    let text = replaced b' ' b'_' (replaced b'-' b'_' (normalize_key value)) in
    let (cmd, name) = split_code text in checked_code cmd (or_default (get reason_aliases name) [])

unfoldable pub canonical_reason : Text → Text
canonical_reason value = (parse_code value).1

unfoldable pub reason_text : Text → Text
reason_text value =
    or_default (get reason_texts (canonical_reason value)) (codes "Persona request rejected.")

-- `text.split(",")`
abbrev prepend : ℕ → List Text → List Text
prepend c [] = (c ∷ []) ∷ []
prepend c (t ∷ ts) = (c ∷ t) ∷ ts

unfoldable pub split_commas : Text → List Text
split_commas [] = [] ∷ []
split_commas (c ∷ text) =
    let rest = split_commas text in if c == b',' then [] ∷ rest else prepend c rest

unfoldable pub split_list : Text → List Text
split_list raw =
    if not (truthy (strip raw))
    then []
    else let text = replaced b';' b',' (replaced 10 b',' (replaced 13 b',' raw)) in
      keep truthy (map strip (split_commas text))

-- The settings PERSONA_BLACKLIST_CPER_CODE, PERSONA_BLACKLIST_PERS_CODE and PERSONA_BLACKLIST_CODE,
-- each the empty text where it is missing.
pub record CodeSettings : Type 0 where
  pub cper_code : Text
  pub pers_code : Text
  pub code : Text

abbrev pub stage_reason : Bool → Bool → Text → Text
stage_reason at_cper at_pers reason =
    if at_cper && contains reason cper_reasons
    then reason
    else if at_pers && contains reason pers_reasons
    then reason
    else codes "invp"

unfoldable pub blacklist_code : CodeSettings → Text → Text
blacklist_code cfg stage =
    let stage_text = normalize_key stage in
    let own = strip (if stage_text == codes "cper" then cfg.cper_code else cfg.pers_code) in
    let raw = if truthy own then own else strip (or_text cfg.code (codes "invp")) in
    stage_reason (stage_text == codes "cper") (stage_text == codes "pers") (parse_code raw).1

-- `term in text`
unfoldable pub starts_with : Text → Text → Bool
starts_with [] text = true
starts_with (c ∷ term) [] = false
starts_with (c ∷ term) (d ∷ text) = starts_with term text && c == d

unfoldable pub is_in : Text → Text → Bool
is_in term [] = starts_with term []
is_in term (d ∷ text) = let later = is_in term text in starts_with term (d ∷ text) || later

-- `sorted(terms, key=len, reverse=True)`, which keeps the order of terms of the same length.
unfoldable pub insert_term : Text → List Text → List Text
insert_term t [] = t ∷ []
insert_term t (u ∷ us) =
    let rest = insert_term t us in if ltb (length t) (length u) then u ∷ rest else t ∷ u ∷ us

unfoldable pub sorted_terms : List Text → List Text
sorted_terms [] = []
sorted_terms (t ∷ ts) = insert_term t (sorted_terms ts)

unfoldable pub first_term : Text → List Text → Option Text
first_term persona_key [] = none
first_term persona_key (t ∷ ts) =
    let rest = first_term persona_key ts in if truthy t && is_in t persona_key then some t else rest

abbrev contains_match : Option Text → Text × Text
contains_match none = ([], [])
contains_match (some t) = (codes "contains", t)

unfoldable pub find_blacklist_match : Text → List Text → List Text → Text × Text
find_blacklist_match persona_key exact contained =
    if contains persona_key exact
    then (codes "exact", persona_key)
    else contains_match (first_term persona_key (sorted_terms contained))

-- `blacklist_reject`, from the two sets that `blacklist_terms` collects.
unfoldable pub blacklist_reject :
    CodeSettings → List Text → List Text → Text → Text → Text × Text × Text
blacklist_reject cfg exact contained persona stage =
    let persona_key = normalize_key persona in
    if not (truthy persona_key)
    then ([], [], [])
    else let (match_type, match_value) = find_blacklist_match persona_key exact contained in
      if not (truthy match_type)
      then ([], [], [])
      else (blacklist_code cfg stage, match_type, match_value)
