-- ===== src/Frames/Stream.antt =====
-- Frames one after another in the receive buffer, and the loop that takes them off it.
use nfs_most_wanted_online.Prelude.{
  ℕ, zero, suc, ◌+◌, ◌%◌, ◌≤◌, ◌<◌, ◌≡◌, refl, sym, ap, ◌∙◌, inl, inr, true, false, none, some,
  List, [], ◌∷◌, ◌++◌, arith, length, take, drop, ltb, All, length-append, length-drop, Bool-cases,
  Option-cases,
}
use mathlib.Core.List.{append_assoc}
use nfs_most_wanted_online.Prelude.Eq.{nat_eq, text_eq}
use nfs_most_wanted_online.Prelude.Sets.{contains}
use nfs_most_wanted_online.Prelude.Text.{Text}
use nfs_most_wanted_online.Prelude.Bytes.{Bytes, be32, drop-append}
use nfs_most_wanted_online.Frames.{
  MwFrame, short_frame_tags, parse_bytes, parse_mw_frame, find_from, find_mw_frame_offset, latin1,
  make_20922_binary_message, make_short_frame, consume, consume_bootstrap_frames, consumed_round,
  consumed_at, consumed_skip, found_at,
}
use nfs_most_wanted_online.Frames.RoundTrip.{
  make_cases, printable_length, parse_mw_frame-make_20922_binary_message,
  parse_mw_frame-make_short_frame,
}

-- What a parsed frame is measured by.
parsed_size :
    (bs : Bytes) (frame : MwFrame)
    → parse_bytes bs ≡ some frame
    → (12 ≤ frame.total_len) × (frame.total_len ≤ length bs)
unfolding parse_bytes
parsed_size bs frame h = ground arith

unparsed_tail : (bs : Bytes) → length bs < 12 → parse_bytes bs ≡ none
unfolding parse_bytes
unparsed_tail bs h = ground arith

parsed_at :
    (buf : Bytes) (off : ℕ) (frame : MwFrame)
    → parse_mw_frame buf off ≡ some frame
    → (12 ≤ frame.total_len) × (off + frame.total_len ≤ length buf)
unfolding parse_mw_frame
parsed_at buf off frame h = omega (arith, parsed_size (drop off buf) frame h, length-drop off buf)

found_after :
    (rounds : ℕ) (buf : Bytes) (off next_off : ℕ)
    → find_from rounds buf off ≡ some next_off
    → (off ≤ next_off) × (next_off + 12 ≤ length buf)
unfolding find_from found_at
found_after zero buf off next_off h = cc
found_after (suc rounds) buf off next_off h = elim (Option-cases (parse_mw_frame buf off)) [
  | inl e ↦ omega (arith, found_after rounds buf (suc off) next_off (rw e at h))
  | inr (frame, e) ↦
      (let same : off ≡ next_off = ground (arith, rw e at h) in
        omega (arith, parsed_at buf off frame e))
]

found_later :
    (buf : Bytes) (off next_off : ℕ)
    → find_mw_frame_offset buf (suc off) ≡ some next_off
    → (suc off ≤ next_off) × (next_off + 12 ≤ length buf)
unfolding find_mw_frame_offset
found_later buf off next_off f = found_after _ buf (suc off) next_off f

nothing_found :
    (rounds : ℕ) (buf : Bytes) (off : ℕ) → length buf < off + 12 → find_from rounds buf off ≡ none
nothing_found rounds buf off short = elim (Option-cases (find_from rounds buf off)) [
  | inl e ↦ e
  | inr (next_off, e) ↦ absurd (omega (arith, found_after rounds buf off next_off e))
]

-- One round at `off`: the loop ends, takes a frame, or skips ahead.
data Round (buf : Bytes) (off : ℕ) : Type 0 where
  ends : ((fuel : ℕ) → consume fuel buf off ≡ ([], off)) → Round buf off
  takes :
      (frame : MwFrame)
      → 12 ≤ frame.total_len
      → off + frame.total_len ≤ length buf
      → ((fuel : ℕ)
          → let rest = consume fuel buf (off + frame.total_len) in
            consume (suc fuel) buf off ≡ (frame ∷ rest.0, rest.1))
      → Round buf off
  skips :
      (next_off : ℕ)
      → off < next_off
      → next_off + 12 ≤ length buf
      → ((fuel : ℕ) → consume (suc fuel) buf off ≡ consume fuel buf next_off)
      → Round buf off

ended :
    (buf : Bytes) (off : ℕ)
    → ((fuel : ℕ) → consume (suc fuel) buf off ≡ ([], off))
    → (fuel : ℕ) → consume fuel buf off ≡ ([], off)
ended buf off e zero = unfold consume in refl
ended buf off e (suc fuel) = e fuel

unparsed_step :
    (buf : Bytes) (off : ℕ) (e : parse_mw_frame buf off ≡ none)
    → ltb off (length buf) ≡ true
    → Round buf off
unfolding consume consumed_round consumed_at consumed_skip
unparsed_step buf off e h = elim (Option-cases (find_mw_frame_offset buf (suc off))) [
  | inl n ↦ ends (ended buf off (λ fuel. rw (h, e, n) refl))
  | inr (next_off, f) ↦
      (let b = found_later buf off next_off f in
        skips next_off (omega (arith, b)) (omega (arith, b)) (λ fuel. rw (h, e, f) refl))
]

parsed_step :
    (buf : Bytes) (off : ℕ) (frame : MwFrame)
    → parse_mw_frame buf off ≡ some frame
    → ltb off (length buf) ≡ true
    → Round buf off
unfolding consume consumed_round consumed_at
parsed_step buf off frame e h =
    let b = parsed_at buf off frame e in takes frame b.0 b.1 (λ fuel. rw (h, e) refl)

step_at : (buf : Bytes) (off : ℕ) → Round buf off
step_at buf off = elim (Bool-cases (ltb off (length buf))) [
  | inr h ↦ ends (ended buf off (λ fuel. unfold consume consumed_round in rw h refl))
  | inl h ↦ elim (Option-cases (parse_mw_frame buf off)) [
    | inl e ↦ unparsed_step buf off e h
    | inr (frame, e) ↦ parsed_step buf off frame e h
  ]
]

-- The loop takes no more bytes than there are: what it consumes is a front of the buffer.
pub consume_bounded :
    (fuel : ℕ) (buf : Bytes) (off : ℕ) → off ≤ length buf → (consume fuel buf off).1 ≤ length buf
consume_bounded zero buf off h = unfold consume in h
consume_bounded (suc fuel) buf off h = elim (step_at buf off) [
  | ends e ↦ rw e h
  | takes frame big fits e ↦ rw e (consume_bounded fuel buf (off + frame.total_len) fits)
  | skips next_off later fits e ↦ rw e (consume_bounded fuel buf next_off (omega arith))
]

-- The loop ends by itself: with at least as many rounds of fuel as there are bytes left, more fuel
-- changes nothing.
pub consume_settled :
    (fuel more : ℕ) (buf : Bytes) (off : ℕ)
    → length buf ≤ off + fuel
    → consume (fuel + more) buf off ≡ consume fuel buf off
consume_settled zero more buf off h = elim (step_at buf off) [
  | ends e ↦ e (zero + more) ∙ sym (e zero)
  | takes frame big fits e ↦ absurd (omega arith)
  | skips next_off later fits e ↦ absurd (omega arith)
]
consume_settled (suc fuel) more buf off h =
    let s : suc fuel + more ≡ suc (fuel + more) = omega arith in
    rw s (elim (step_at buf off) [
      | ends e ↦ e (suc (fuel + more)) ∙ sym (e (suc fuel))
      | takes frame big fits e ↦
          e (fuel + more)
          ∙ ap (λ (r : List MwFrame × ℕ). (frame ∷ r.0, r.1))
              (consume_settled fuel more buf (off + frame.total_len) (omega arith))
          ∙ sym (e fuel)
      | skips next_off later fits e ↦
          e (fuel + more) ∙ consume_settled fuel more buf next_off (omega arith) ∙ sym (e fuel)
    ])

-- Frames as they stand on the wire, one after another.
abbrev pub wire : List MwFrame → Bytes
wire [] = []
wire (frame ∷ frames) = frame.raw ++ wire frames

-- The parser reads the frame back from its bytes, whatever follows them.
record ReadsBack (frame : MwFrame) : Type 0 where
  parses : (rest : Bytes) → parse_bytes (frame.raw ++ rest) ≡ some frame
  measures : length frame.raw ≡ frame.total_len

-- Frames that the protocol's makers made.
pub data Made : MwFrame → Type 0 where
  binary :
      (cmd4 : Text) (payload : Bytes) (reserved : ℕ) (message : Bytes)
      → make_20922_binary_message cmd4 payload reserved ≡ some message
      → 12 + length payload ≤ 0x4000
      → contains (take 8 message) short_frame_tags ≡ false
      → Made (record {
        command = latin1 cmd4;
        payload = payload;
        total_len = 12 + length payload;
        reserved_be32 = reserved % 0x1_0000_0000;
        raw = message;
        short_tag = false;
      })
  tag_only :
      (tag8 : Text) (message : Bytes)
      → make_short_frame tag8 ≡ some message
      → contains (latin1 tag8) short_frame_tags ≡ true
      → Made (record {
        command = latin1 tag8;
        payload = [];
        total_len = 12;
        reserved_be32 = 0;
        raw = message;
        short_tag = true;
      })

binary_length :
    (cmd4 : Text) (payload : Bytes) (reserved : ℕ) (message : Bytes)
    → make_20922_binary_message cmd4 payload reserved ≡ some message
    → length message ≡ 12 + length payload
unfolding be32
binary_length cmd4 payload reserved message made =
    let parts = make_cases cmd4 payload reserved message made in
    rw (← parts.1) (
      omega (
        arith,
        length-append (latin1 cmd4)
            (be32 (reserved % 0x1_0000_0000) ++ (be32 (12 + length payload) ++ payload)),
        printable_length (latin1 cmd4) parts.0,
      ))

short_length :
    (tag8 : Text) (message : Bytes) → make_short_frame tag8 ≡ some message → length message ≡ 12
unfolding make_short_frame be32
short_length tag8 message made = ground (arith, length-append (latin1 tag8) (be32 12))

Made-ReadsBack : (frame : MwFrame) → Made frame → ReadsBack frame
Made-ReadsBack frame (binary cmd4 payload reserved message made fits untagged) = record {
  parses = λ rest.
      unfold parse_mw_frame in
      parse_mw_frame-make_20922_binary_message cmd4 payload reserved message [] rest made fits
        untagged;
  measures = binary_length cmd4 payload reserved message made;
}
Made-ReadsBack frame (tag_only tag8 message made tagged) = record {
  parses = λ rest.
      unfold parse_mw_frame in parse_mw_frame-make_short_frame tag8 message [] rest made tagged;
  measures = short_length tag8 message made;
}

-- Fewer than twelve bytes at the end of the buffer are left alone.
tail_kept :
    (fuel : ℕ) (pre rest : Bytes)
    → length rest < 12
    → consume fuel (pre ++ rest) (length pre) ≡ ([], length pre)
tail_kept fuel pre rest short =
    let e = length-append pre rest in
    elim (step_at (pre ++ rest) (length pre)) [
      | ends h ↦ h fuel
      | takes frame big fits h ↦ absurd (omega arith)
      | skips next_off later fits h ↦ absurd (omega arith)
    ]

consume_parsed :
    (buf : Bytes) (off fuel : ℕ) (frame : MwFrame)
    → parse_mw_frame buf off ≡ some frame
    → let rest = consume fuel buf (off + frame.total_len) in
      consume (suc fuel) buf off ≡ (frame ∷ rest.0, rest.1)
unfolding consume consumed_round consumed_at
consume_parsed buf off fuel frame e =
    let inside : ltb off (length buf) ≡ true = ground (arith, parsed_at buf off frame e) in
    rw (inside, e) refl

parse_mw_frame-wire :
    (frame : MwFrame) (pre more : Bytes)
    → ReadsBack frame
    → parse_mw_frame (pre ++ (frame.raw ++ more)) (length pre) ≡ some frame
unfolding parse_mw_frame
parse_mw_frame-wire frame pre more r = rw (drop-append pre (frame.raw ++ more)) (r.parses more)

ReadsBack-big : (frame : MwFrame) → ReadsBack frame → 12 ≤ length frame.raw
ReadsBack-big frame r = omega (arith, r.measures, parsed_size (frame.raw ++ []) frame (r.parses []))

module _ (rest : Bytes) (short : length rest < 12) where
  consume-wire :
      (frames : List MwFrame) (fuel : ℕ) (pre : Bytes)
      → All ReadsBack frames
      → length (wire frames) ≤ fuel
      → consume fuel (pre ++ (wire frames ++ rest)) (length pre)
        ≡ (frames, length pre + length (wire frames))
  consume-wire [] fuel pre all enough =
      tail_kept fuel pre rest short ∙ ap (λ n. ([], n)) (omega arith)
  consume-wire (frame ∷ frames) zero pre all enough =
      absurd (omega (arith, ReadsBack-big frame all.0, length-append frame.raw (wire frames)))
  consume-wire (frame ∷ frames) (suc fuel) pre all enough =
      let moved =
        rw
          (
            append_assoc pre frame.raw (wire frames ++ rest),
            length-append pre frame.raw,
            all.0.measures,
          )
          at
          (consume-wire frames fuel (pre ++ frame.raw) all.1
            (omega (arith, ReadsBack-big frame all.0, length-append frame.raw (wire frames)))) in
      rw (append_assoc frame.raw (wire frames) rest) (
        consume_parsed _ (length pre) fuel frame
          (parse_mw_frame-wire frame pre (wire frames ++ rest) all.0)
        ∙ ap (λ (r : List MwFrame × ℕ). (frame ∷ r.0, r.1)) moved
        ∙ ap (λ n. (frame ∷ frames, n))
            (omega (arith, all.0.measures, length-append frame.raw (wire frames))))

  All-ReadsBack : (frames : List MwFrame) → All Made frames → All ReadsBack frames
  All-ReadsBack [] all = tt
  All-ReadsBack (frame ∷ frames) all = (Made-ReadsBack frame all.0, All-ReadsBack frames all.1)

  -- Messages that the makers made, each either a short frame or a binary message of at most 0x4000
  -- bytes in all that does not begin with the tag of a short frame, are all handed on if they arrive
  -- one after another with fewer than twelve bytes of the next: in their order, and with exactly
  -- their bytes consumed.
  pub consume_bootstrap_frames-wire :
      (frames : List MwFrame)
      → All Made frames
      → consume_bootstrap_frames (wire frames ++ rest) ≡ (frames, length (wire frames))
  unfolding consume_bootstrap_frames
  consume_bootstrap_frames-wire frames all =
      consume-wire frames (length (wire frames ++ rest)) [] (All-ReadsBack frames all)
        (omega (arith, length-append (wire frames) rest))
      ∙ ap (λ n. (frames, n)) (omega arith)
