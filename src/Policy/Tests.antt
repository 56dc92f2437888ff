-- ===== src/Policy/Tests.antt =====
-- The theorems on server/persona_policy.py, applied to codes that a configuration may hold.
use nfs_most_wanted_online.Prelude.{◌≡◌, true, [], if◌then◌else◌}
use nfs_most_wanted_online.Prelude.Eq.{◌==◌, text_eq}
use nfs_most_wanted_online.Prelude.Sets.{contains}
use nfs_most_wanted_online.Prelude.Text.{codes}
use nfs_most_wanted_online.Policy.{
  cper_reasons, pers_reasons, normalize_key, CodeSettings, blacklist_code,
}
use nfs_most_wanted_online.Policy.Codes.{blacklist_code-allowed}

abbrev settings : CodeSettings
settings = record { cper_code = codes "must-auth"; pers_code = codes "persmaut"; code = [] }

blacklist_code-allowed_example :
    contains
      (blacklist_code settings (codes " CPER "))
      (if normalize_key (codes " CPER ") == codes "cper" then cper_reasons else pers_reasons)
    ≡ true
blacklist_code-allowed_example = blacklist_code-allowed settings (codes " CPER ")
