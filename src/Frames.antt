-- ===== src/Frames.antt =====
-- The frames of the lobby protocol in server/client_handler.py: how they are made and parsed, and the
-- loop that takes them off the receive buffer. `latin1` decoding is the identity, and
-- `encode("latin1", errors="ignore")` drops what is not below 256.
pub mod RoundTrip
pub mod Stream
mod Tests
use nfs_most_wanted_online.Prelude.{
  ℕ, zero, suc, ◌+◌, ◌-◌, ◌%◌, Bool, true, false, not, ◌&&◌, ◌||◌, Option, none, some, List, [],
  ◌∷◌, ◌++◌, length, take, drop, keep, ltb, leb, if◌then◌else◌,
}
use nfs_most_wanted_online.Prelude.Eq.{◌==◌, nat_eq, text_eq}
use nfs_most_wanted_online.Prelude.Sets.{contains}
use nfs_most_wanted_online.Prelude.Text.{Text, codes}
use nfs_most_wanted_online.Prelude.Bytes.{Bytes, be32, read_be32, hex}

pub record MwFrame : Type 0 where
  pub command : Text
  pub payload : Bytes
  pub total_len : ℕ
  pub reserved_be32 : ℕ
  pub raw : Bytes
  pub short_tag : Bool

-- SHORT_FRAME_TAGS
abbrev pub short_frame_tags : List Bytes
short_frame_tags = codes "newsbadc" ∷ codes "userbadc" ∷ []

unfoldable pub all_printable : Bytes → Bool
all_printable [] = true
all_printable (b ∷ bs) = leb 32 b && leb b 126 && all_printable bs

unfoldable pub is_printable_cmd4 : Bytes → Bool
unfolding all_printable
is_printable_cmd4 buf = length buf == 4 && all_printable buf

abbrev pub short_frame : Bytes → ℕ → MwFrame
short_frame bs total = record {
  command = take 8 bs;
  payload = [];
  total_len = total;
  reserved_be32 = 0;
  raw = take total bs;
  short_tag = true;
}

abbrev pub long_frame : Bytes → ℕ → MwFrame
long_frame bs total =
    let cmd_raw = take 4 bs in
    let token_reply = not (is_printable_cmd4 cmd_raw) in
    record {
      command = if token_reply then codes "token:" ++ hex cmd_raw else cmd_raw;
      payload = drop 12 (take total bs);
      total_len = total;
      reserved_be32 = if token_reply then read_be32 cmd_raw else read_be32 (take 4 (drop 4 bs));
      raw = take total bs;
      short_tag = false;
    }

-- The bytes from `offset` on.
unfoldable pub parse_bytes : Bytes → Option MwFrame
parse_bytes bs =
    let total = read_be32 (take 4 (drop 8 bs)) in
    if ltb (length bs) 12
    then none
    else if ltb total 12 || (ltb 0x4000 total || ltb (length bs) total)
    then none
    else if contains (take 8 bs) short_frame_tags
    then some (short_frame bs total)
    else some (long_frame bs total)

unfoldable pub parse_mw_frame : Bytes → ℕ → Option MwFrame
parse_mw_frame buf offset = parse_bytes (drop offset buf)

-- The loop of `find_mw_frame_offset` with the rounds that are left.
unfoldable pub found_at : ℕ → Option ℕ → Option MwFrame → Option ℕ
found_at off rest none = rest
found_at off rest (some frame) = some off

unfoldable pub find_from : ℕ → Bytes → ℕ → Option ℕ
unfolding found_at
find_from zero buf off = none
find_from (suc rounds) buf off =
    let rest = find_from rounds buf (suc off) in found_at off rest (parse_mw_frame buf off)

unfoldable pub find_mw_frame_offset : Bytes → ℕ → Option ℕ
find_mw_frame_offset buf start = find_from (suc (length buf - 11) - start) buf start

-- `cmd.encode("latin1", errors="ignore")`
unfoldable pub latin1 : Text → Bytes
latin1 text = keep (λ c. ltb c 256) text

-- `none` where the function raises a ValueError.
unfoldable pub make_20922_binary_message : Text → Bytes → ℕ → Option Bytes
make_20922_binary_message cmd4 payload reserved =
    let raw = latin1 cmd4 in
    if is_printable_cmd4 raw
    then some (raw ++ (be32 (reserved % 0x1_0000_0000) ++ (be32 (12 + length payload) ++ payload)))
    else none

-- `"\t".join(fields)`
unfoldable pub tab_joined : List Text → Text
tab_joined [] = []
tab_joined (field ∷ []) = field
tab_joined (field ∷ next ∷ fields) = field ++ (9 ∷ tab_joined (next ∷ fields))

-- `utf8` is Python's `str.encode("utf-8")`.
unfoldable pub tab_body : (Text → Bytes) → List Text → Bytes
tab_body utf8 [] = 0 ∷ []
tab_body utf8 (field ∷ fields) = utf8 (tab_joined (field ∷ fields)) ++ 0 ∷ []

unfoldable pub make_20922_tab_message : (Text → Bytes) → Text → List Text → Option Bytes
make_20922_tab_message utf8 cmd4 fields =
    let raw = latin1 cmd4 in
    let body = tab_body utf8 fields in
    if is_printable_cmd4 raw
    then some (raw ++ (0 ∷ 0 ∷ 0 ∷ 0 ∷ be32 (12 + length body) ++ body))
    else none

unfoldable pub make_token_tab_reply : (Text → Bytes) → ℕ → List Text → Bytes
make_token_tab_reply utf8 token fields =
    let body = tab_body utf8 fields in
    be32 (token % 0x1_0000_0000) ++ (0 ∷ 0 ∷ 0 ∷ 0 ∷ be32 (12 + length body) ++ body)

unfoldable pub make_short_frame : Text → Option Bytes
make_short_frame tag8 =
    let raw = latin1 tag8 in if length raw == 8 then some (raw ++ be32 12) else none

-- `_consume_bootstrap_frames`: the frames that are handed to `_handle_frame`, in order, and how many
-- bytes are consumed. One round of fuel for each byte suffices.
unfoldable pub consumed_skip : (ℕ → List MwFrame × ℕ) → ℕ → Option ℕ → List MwFrame × ℕ
consumed_skip go consumed none = ([], consumed)
consumed_skip go consumed (some next_off) = go next_off

unfoldable pub consumed_at : (ℕ → List MwFrame × ℕ) → Bytes → ℕ → Option MwFrame → List MwFrame × ℕ
unfolding consumed_skip
consumed_at go buf consumed none =
    consumed_skip go consumed (find_mw_frame_offset buf (suc consumed))
consumed_at go buf consumed (some frame) =
    let rest = go (consumed + frame.total_len) in (frame ∷ rest.0, rest.1)

unfoldable pub consumed_round : (ℕ → List MwFrame × ℕ) → Bytes → ℕ → Bool → List MwFrame × ℕ
unfolding consumed_at
consumed_round go buf consumed false = ([], consumed)
consumed_round go buf consumed true = consumed_at go buf consumed (parse_mw_frame buf consumed)

unfoldable pub consume : ℕ → Bytes → ℕ → List MwFrame × ℕ
unfolding consumed_round
consume zero buf consumed = ([], consumed)
consume (suc fuel) buf consumed =
    consumed_round (consume fuel buf) buf consumed (ltb consumed (length buf))

unfoldable pub consume_bootstrap_frames : Bytes → List MwFrame × ℕ
consume_bootstrap_frames buf = consume (length buf) buf 0
