-- ===== src/Social/Handlers.antt =====
-- The connected handlers and the personas they speak for.
use nfs_most_wanted_online.Prelude.{
  Bool, true, false, not, ◌&&◌, ◌||◌, Option, none, some, List, [], ◌∷◌, ℕ, if◌then◌else◌,
}
use nfs_most_wanted_online.Prelude.Eq.{◌==◌, text_eq, nat_eq}
use nfs_most_wanted_online.Prelude.Sets.{add, discard}
use nfs_most_wanted_online.Prelude.Dict.{Dict, get, put, erase}
use nfs_most_wanted_online.Prelude.Text.{Text, codes, truthy, strip, or_text}
use nfs_most_wanted_online.Social.{Presence, Social, Directory, social_key}
use nfs_most_wanted_online.Social.Watch.{Row, social_notify_targets}

unfoldable pub handlers_found : Option (List ℕ) → List ℕ
handlers_found none = []
handlers_found (some handlers) = handlers

-- `self._social_handlers.get(key, set())`
unfoldable pub handlers_of : Social → Text → List ℕ
unfolding handlers_found
handlers_of s key = handlers_found (get s.handlers key)

-- One handler leaves the set of its key; a set that is left empty goes, with the presence.
unfoldable pub emptied : Text → List ℕ → Social → Social
emptied key [] s = record s { handlers = erase s.handlers key; presence = erase s.presence key }
emptied key (h ∷ hs) s = record s { handlers = put s.handlers key (h ∷ hs) }

unfoldable pub dropped : ℕ → Text → Social → Option (List ℕ) → Social
unfolding emptied
dropped handler key s none = s
dropped handler key s (some handlers) = emptied key (discard handler handlers) s

-- `old_key and old_key != key`
unfoldable pub moved_from : ℕ → Text → Social → Option Text → Social
unfolding dropped
moved_from handler key s none = s
moved_from handler key s (some old_key) =
    if truthy old_key && not (old_key == key)
    then dropped handler old_key s (get s.handlers old_key)
    else s

unfoldable pub found_presence : Option Presence → Text → Text → ℕ → Presence
found_presence none display addr now = record {
  user = display;
  addr = addr;
  show = codes "PASS";
  stat = codes "EX%3d0%0aP%3dnfs5%0a";
  prod = codes "is playing Underground 2";
  title = codes "Need for Speed Underground 2 [PC]";
  updated = now;
}
found_presence (some p) display addr now = record p { user = display; addr = addr; updated = now }

abbrev pub is_empty : List ℕ → Bool
is_empty [] = true
is_empty (h ∷ hs) = false

unfoldable pub registered : ℕ → Text → Text → Text → ℕ → Social → Social
unfolding found_presence
registered handler key display addr now s = record s {
  handler_user = put s.handler_user handler key;
  handlers = put s.handlers key (add handler (handlers_of s key));
  display = put s.display key display;
  presence = put s.presence key (found_presence (get s.presence key) display addr now);
}

-- The display name that is returned, the handlers to notify, and the state.
unfoldable pub control_social_register :
    Bool → Bool → Directory → ℕ → Text → Text → ℕ → Social → Text × List (ℕ × Row) × Social
unfolding moved_from
control_social_register enabled all_online dir handler persona addr now s =
    let display = strip persona in
    let key = social_key dir display in
    let left = moved_from handler key s (get s.handler_user handler) in
    let after = registered handler key display addr now left in
    if not enabled || not (truthy key) then (codes "", [], s) else (
      display,
      if is_empty (handlers_of left key) then social_notify_targets all_online key after else [],
      after,
    )

-- The notifications of a persona that goes are found before its handlers are dropped.
unfoldable pub went : Bool → Text → Social → Option (List ℕ) → ℕ → List (ℕ × Row)
went all_online key s none handler = []
went all_online key s (some handlers) handler =
    if is_empty (discard handler handlers)
    then social_notify_targets all_online key (record s { handlers = put s.handlers key [] })
    else []

unfoldable pub unregistered : Bool → ℕ → Social → Option Text → List (ℕ × Row) × Social
unfolding dropped went
unregistered all_online handler s none = ([], s)
unregistered all_online handler s (some key) =
    let popped = record s { handler_user = erase s.handler_user handler } in
    if truthy key
    then (
      went all_online key popped (get s.handlers key) handler,
      dropped handler key popped (get s.handlers key),
    )
    else ([], popped)

unfoldable pub control_social_unregister : Bool → ℕ → Social → List (ℕ × Row) × Social
unfolding unregistered
control_social_unregister all_online handler s =
    unregistered all_online handler s (get s.handler_user handler)

unfoldable pub forget : List ℕ → Dict ℕ Text → Dict ℕ Text
forget [] d = d
forget (handler ∷ handlers) d = forget handlers (erase d handler)

unfoldable pub control_social_unregister_persona :
    Bool → Directory → Text → Social → List (ℕ × Row) × Social
unfolding forget
control_social_unregister_persona all_online dir persona s =
    let key = social_key dir persona in
    let handlers = handlers_of s key in
    let popped = record s { handlers = erase s.handlers key } in
    if truthy key
    then (
      if is_empty handlers then [] else social_notify_targets all_online key popped,
      record popped {
        handler_user = forget handlers s.handler_user;
        presence = erase s.presence key;
      },
    )
    else ([], s)

-- `if value: presence[field] = value`
abbrev given : Text → Text → Text
given value old = or_text value old

-- A presence that is not there starts without fields; an empty field reads like a missing one.
unfoldable pub presence_or_blank : Option Presence → Text → Presence
presence_or_blank (some p) key = p
presence_or_blank none key = record {
  user = key;
  addr = [];
  show = [];
  stat = [];
  prod = [];
  title = [];
  updated = 0;
}

unfoldable pub updated_for :
    Bool → Text → Text → Text → Text → ℕ → Social → Option Text → List (ℕ × Row) × Social
unfolding presence_or_blank
updated_for all_online show stat prod title now s none = ([], s)
updated_for all_online show stat prod title now s (some key) =
    let p = presence_or_blank (get s.presence key) key in
    let after = record s {
      presence = put s.presence key (record p {
        show = given show p.show;
        stat = given stat p.stat;
        prod = given prod p.prod;
        title = given title p.title;
        updated = now;
      });
    } in
    if truthy key then (social_notify_targets all_online key after, after) else ([], s)

unfoldable pub control_social_update_presence :
    Bool → ℕ → Text → Text → Text → Text → ℕ → Social → List (ℕ × Row) × Social
unfolding updated_for
control_social_update_presence all_online handler show stat prod title now s =
    updated_for all_online show stat prod title now s (get s.handler_user handler)
