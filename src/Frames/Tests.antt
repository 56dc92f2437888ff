-- ===== src/Frames/Tests.antt =====
-- Runs of the framing on small buffers.
use nfs_most_wanted_online.Prelude.{◌+◌, ◌≡◌, refl, true, false, some, [], ◌∷◌, ◌++◌, take, arith}
use nfs_most_wanted_online.Prelude.Eq.{nat_eq, text_eq, text_beq}
use nfs_most_wanted_online.Prelude.Sets.{contains}
use nfs_most_wanted_online.Prelude.Text.{codes}
use nfs_most_wanted_online.Prelude.Bytes.{Bytes, be32, read_be32}
use nfs_most_wanted_online.Frames.{
  MwFrame, all_printable, is_printable_cmd4, parse_bytes, parse_mw_frame, find_from,
  find_mw_frame_offset, found_at, latin1, make_20922_binary_message, make_short_frame, consume,
  consume_bootstrap_frames, consumed_round, consumed_at, consumed_skip,
}
use nfs_most_wanted_online.Frames.Stream.{
  binary, tag_only, wire, consume_settled, consume_bootstrap_frames-wire,
}

-- `@tic` with the payload `NAME=x`, reserved word 7.
abbrev tic : Bytes
tic = codes "@tic" ++ 0 ∷ 0 ∷ 0 ∷ 7 ∷ 0 ∷ 0 ∷ 0 ∷ 18 ∷ codes "NAME=x"

made_tic : make_20922_binary_message (codes "@tic") (codes "NAME=x") 7 ≡ some tic
unfolding make_20922_binary_message is_printable_cmd4 all_printable latin1 be32
made_tic = refl

abbrev tic_frame : MwFrame
tic_frame = record {
  command = codes "@tic";
  payload = codes "NAME=x";
  total_len = 18;
  reserved_be32 = 7;
  raw = tic;
  short_tag = false;
}

abbrev news : Bytes
news = codes "newsbadc" ++ 0 ∷ 0 ∷ 0 ∷ 12 ∷ []

made_news : make_short_frame (codes "newsbadc") ≡ some news
unfolding make_short_frame latin1 be32
made_news = refl

abbrev news_frame : MwFrame
news_frame = record {
  command = codes "newsbadc";
  payload = [];
  total_len = 12;
  reserved_be32 = 0;
  raw = news;
  short_tag = true;
}

news_tag : contains (codes "newsbadc") (codes "newsbadc" ∷ codes "userbadc" ∷ []) ≡ true
unfolding contains text_beq
news_tag = refl

tic_untagged : contains (take 8 tic) (codes "newsbadc" ∷ codes "userbadc" ∷ []) ≡ false
unfolding contains text_beq
tic_untagged = refl

-- Token 5 with no fields.
abbrev token_five : Bytes
token_five = 0 ∷ 0 ∷ 0 ∷ 5 ∷ 0 ∷ 0 ∷ 0 ∷ 0 ∷ 0 ∷ 0 ∷ 0 ∷ 13 ∷ 0 ∷ []

stream_example :
    consume_bootstrap_frames (wire (tic_frame ∷ news_frame ∷ tic_frame ∷ []) ++ 64 ∷ 116 ∷ [])
    ≡ (tic_frame ∷ news_frame ∷ tic_frame ∷ [], 48)
unfolding latin1
stream_example =
    consume_bootstrap_frames-wire (64 ∷ 116 ∷ []) (omega arith)
      (tic_frame ∷ news_frame ∷ tic_frame ∷ [])
      (
        binary (codes "@tic") (codes "NAME=x") 7 tic made_tic (omega arith) tic_untagged,
        (
          tag_only (codes "newsbadc") news made_news news_tag,
          (binary (codes "@tic") (codes "NAME=x") 7 tic made_tic (omega arith) tic_untagged, tt),
        ),
      )

consume_settled_example : consume (18 + 100) tic 0 ≡ consume 18 tic 0
consume_settled_example = consume_settled 18 100 tic 0 (omega arith)

-- A message that is cut in two between reads, when a whole frame stands in its payload: the frame in
-- the payload is handed on as a command, and the message around it is lost.
abbrev nested : Bytes
nested = codes "chal" ++ 0 ∷ 0 ∷ 0 ∷ 0 ∷ 0 ∷ 0 ∷ 0 ∷ 32 ∷ tic

cut_frame : consume_bootstrap_frames nested ≡ (tic_frame ∷ [], 30)
unfolding consume_bootstrap_frames consume consumed_round consumed_at consumed_skip
    find_mw_frame_offset find_from found_at parse_mw_frame parse_bytes is_printable_cmd4
    all_printable contains text_beq read_be32
cut_frame = refl
