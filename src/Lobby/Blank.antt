-- ===== src/Lobby/Blank.antt =====
-- A request for a room whose name was left blank.
use nfs_most_wanted_online.Prelude.Eq.{nat_eq, text_eq}
use nfs_most_wanted_online.Prelude.Text.{Text}
