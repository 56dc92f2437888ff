-- ===== src/Frames/RoundTrip.antt =====
-- What is made is parsed again.
use nfs_most_wanted_online.Prelude.{
  ℕ, ◌+◌, ◌%◌, ◌≤◌, ◌<◌, ◌≡◌, refl, sym, ap, ◌∙◌, inl, inr, ◌⊎◌, true, false, some, List, [], ◌∷◌,
  ◌++◌, arith, length, take, drop, length-append, Bool-cases, if◌then◌else◌,
}
use nfs_most_wanted_online.Prelude.Eq.{◌==◌, nat_eq, text_eq, text_beq, text_beq_iff}
use nfs_most_wanted_online.Prelude.Sets.{contains}
use nfs_most_wanted_online.Prelude.Text.{Text, codes}
use nfs_most_wanted_online.Prelude.Bytes.{
  Bytes, be32, read_be32, read_be32-be32, hex, take-append, drop-append,
}
use nfs_most_wanted_online.Frames.{
  MwFrame, short_frame_tags, is_printable_cmd4, parse_bytes, parse_mw_frame, latin1,
  make_20922_binary_message, tab_body, make_token_tab_reply, make_short_frame,
}

-- Four bytes.
data FourOf (bs : Bytes) : Type 0 where
  four : (a b c d : ℕ) → bs ≡ a ∷ b ∷ c ∷ d ∷ [] → FourOf bs

four_of : (bs : Bytes) → length bs ≡ 4 → FourOf bs
four_of (a ∷ b ∷ c ∷ d ∷ []) h = four a b c d refl
four_of [] h = absurd (omega arith)
four_of (a ∷ []) h = absurd (omega arith)
four_of (a ∷ b ∷ []) h = absurd (omega arith)
four_of (a ∷ b ∷ c ∷ []) h = absurd (omega arith)
four_of (a ∷ b ∷ c ∷ d ∷ e ∷ bs) h = absurd (omega arith)

-- A frame is eight bytes, its length, and a body.
abbrev pub frame_bytes : Bytes → Bytes → Bytes
frame_bytes head8 body = head8 ++ (be32 (12 + length body) ++ body)

module _ (a b c d e f g h : ℕ) (body rest : Bytes) (fits : 12 + length body ≤ 0x4000) where
  abbrev head8 : Bytes
  head8 = a ∷ b ∷ c ∷ d ∷ e ∷ f ∷ g ∷ h ∷ []

  taken : take (12 + length body) (frame_bytes head8 body ++ rest) ≡ frame_bytes head8 body
  unfolding be32
  taken =
      let e : 12 + length body ≡ length (frame_bytes head8 body) = omega arith in
      ap (λ k. take k (frame_bytes head8 body ++ rest)) e
      ∙ take-append (frame_bytes head8 body) rest

  total : read_be32 (take 4 (drop 8 (frame_bytes head8 body ++ rest))) ≡ 12 + length body
  unfolding be32
  total = read_be32-be32 (12 + length body) (omega arith)

  -- The frame that the bytes stand for.
  abbrev sent : MwFrame
  sent =
      if contains head8 short_frame_tags
      then record {
        command = head8;
        payload = [];
        total_len = 12 + length body;
        reserved_be32 = 0;
        raw = frame_bytes head8 body;
        short_tag = true;
      }
      else record {
        command =
            if is_printable_cmd4 (take 4 head8)
            then take 4 head8
            else codes "token:" ++ hex (take 4 head8);
        payload = body;
        total_len = 12 + length body;
        reserved_be32 =
            if is_printable_cmd4 (take 4 head8)
            then read_be32 (drop 4 head8)
            else read_be32 (take 4 head8);
        raw = frame_bytes head8 body;
        short_tag = false;
      }

  parse_sent : parse_bytes (frame_bytes head8 body ++ rest) ≡ some sent
  unfolding parse_bytes be32
  parse_sent = rw (total, taken) (ground (arith, length-append body rest))

  parse_at :
      (pre : Bytes)
      → parse_mw_frame (pre ++ (frame_bytes head8 body ++ rest)) (length pre) ≡ some sent
  unfolding parse_mw_frame
  parse_at pre = rw (drop-append pre (frame_bytes head8 body ++ rest)) parse_sent

-- A frame of four printable bytes and a reserved word, without the tag of a short frame.
tagged_frame :
    (a b c d reserved : ℕ) (body pre rest : Bytes)
    → 12 + length body ≤ 0x4000
    → reserved < 0x1_0000_0000
    → is_printable_cmd4 (a ∷ b ∷ c ∷ d ∷ []) ≡ true
    → contains (a ∷ b ∷ c ∷ d ∷ be32 reserved) short_frame_tags ≡ false
    → parse_mw_frame
        (pre ++ (frame_bytes (a ∷ b ∷ c ∷ d ∷ be32 reserved) body ++ rest))
        (length pre)
      ≡ some (record {
        command = a ∷ b ∷ c ∷ d ∷ [];
        payload = body;
        total_len = 12 + length body;
        reserved_be32 = reserved;
        raw = frame_bytes (a ∷ b ∷ c ∷ d ∷ be32 reserved) body;
        short_tag = false;
      })
unfolding be32
tagged_frame a b c d r body pre rest fits small printable untagged =
    parse_at a b c d _ _ _ _ body rest fits pre
    ∙ rw (untagged, printable) (ground (arith, read_be32-be32 r small))

-- A message is its tag, its reserved word and its payload.
pub make_cases :
    (cmd4 : Text) (payload : Bytes) (reserved : ℕ) (message : Bytes)
    → make_20922_binary_message cmd4 payload reserved ≡ some message
    → (is_printable_cmd4 (latin1 cmd4) ≡ true)
      × (latin1 cmd4 ++ (be32 (reserved % 0x1_0000_0000) ++ (be32 (12 + length payload) ++ payload))
          ≡ message)
unfolding make_20922_binary_message
make_cases cmd4 payload reserved message h = ground arith

pub printable_length : (bs : Bytes) → is_printable_cmd4 bs ≡ true → length bs ≡ 4
unfolding is_printable_cmd4
printable_length bs h = ground arith

-- A binary message that fits the largest frame and does not begin with the tag of a short frame is
-- parsed, wherever it stands in the buffer, to its command, its payload and its reserved word.
pub parse_mw_frame-make_20922_binary_message :
    (cmd4 : Text) (payload : Bytes) (reserved : ℕ) (message pre rest : Bytes)
    → make_20922_binary_message cmd4 payload reserved ≡ some message
    → 12 + length payload ≤ 0x4000
    → contains (take 8 message) short_frame_tags ≡ false
    → parse_mw_frame (pre ++ (message ++ rest)) (length pre)
      ≡ some (record {
        command = latin1 cmd4;
        payload = payload;
        total_len = 12 + length payload;
        reserved_be32 = reserved % 0x1_0000_0000;
        raw = message;
        short_tag = false;
      })
unfolding be32
parse_mw_frame-make_20922_binary_message cmd4 payload reserved message pre rest made fits untagged =
    let parts = make_cases cmd4 payload reserved message made in
    elim (four_of (latin1 cmd4) (printable_length (latin1 cmd4) parts.0)) [
      | four a b c d q ↦
          (let e : a ∷ b ∷ c ∷ d ∷ _ ≡ message = rw q at parts.1 in
            rw (q, ← e)
              (tagged_frame a b c d (reserved % 0x1_0000_0000) payload pre rest fits (omega arith)
                (rw q at parts.0) (rw (← e) at untagged)))
    ]

-- The reply to a token, if it fits the largest frame and its first four bytes are not printable, is
-- parsed, wherever it stands in the buffer, to the command `token:` with the token in hexadecimal,
-- with the token again as the reserved word and the fields as the payload.
pub parse_mw_frame-make_token_tab_reply :
    (utf8 : Text → Bytes) (token : ℕ) (fields : List Text) (pre rest : Bytes)
    → token < 0x1_0000_0000
    → is_printable_cmd4 (be32 token) ≡ false
    → 12 + length (tab_body utf8 fields) ≤ 0x4000
    → contains (be32 token ++ 0 ∷ 0 ∷ 0 ∷ 0 ∷ []) short_frame_tags ≡ false
    → parse_mw_frame (pre ++ (make_token_tab_reply utf8 token fields ++ rest)) (length pre)
      ≡ some (record {
        command = codes "token:" ++ hex (be32 token);
        payload = tab_body utf8 fields;
        total_len = 12 + length (tab_body utf8 fields);
        reserved_be32 = token;
        raw = make_token_tab_reply utf8 token fields;
        short_tag = false;
      })
unfolding make_token_tab_reply be32
parse_mw_frame-make_token_tab_reply utf8 token fields pre rest small unprintable fits untagged =
    let e : token % 0x1_0000_0000 ≡ token = omega arith in
    rw e (
      parse_at _ _ _ _ 0 0 0 0 (tab_body utf8 fields) rest fits pre
      ∙ rw (untagged, unprintable) (ground (arith, read_be32-be32 token small)))

-- The tags that the parser knows.
known_tag :
    (bs : Bytes)
    → contains bs short_frame_tags ≡ true
    → (bs ≡ codes "newsbadc") ⊎ (bs ≡ codes "userbadc")
unfolding contains
known_tag bs h = elim (Bool-cases (codes "newsbadc" == bs)) [
  | inl e ↦ inl (sym ((text_beq_iff (codes "newsbadc") bs).0 e))
  | inr e ↦ inr (sym ((text_beq_iff (codes "userbadc") bs).0 (ground (arith, rw e at h))))
]

-- A short frame is parsed, wherever it stands in the buffer, if its tag is one of those that the
-- parser knows: to the tag as its command and no payload.
pub parse_mw_frame-make_short_frame :
    (tag8 : Text) (message pre rest : Bytes)
    → make_short_frame tag8 ≡ some message
    → contains (latin1 tag8) short_frame_tags ≡ true
    → parse_mw_frame (pre ++ (message ++ rest)) (length pre)
      ≡ some (record {
        command = latin1 tag8;
        payload = [];
        total_len = 12;
        reserved_be32 = 0;
        raw = message;
        short_tag = true;
      })
unfolding be32 make_short_frame contains text_beq
parse_mw_frame-make_short_frame tag8 message pre rest made tagged =
    elim (known_tag (latin1 tag8) tagged) [
      | inl q ↦
          (let e : codes "newsbadc" ++ be32 12 ≡ message = ground (arith, rw q at made) in
            rw (q, ← e) (parse_at _ _ _ _ _ _ _ _ [] rest (omega arith) pre))
      | inr q ↦
          (let e : codes "userbadc" ++ be32 12 ≡ message = ground (arith, rw q at made) in
            rw (q, ← e) (parse_at _ _ _ _ _ _ _ _ [] rest (omega arith) pre))
    ]
