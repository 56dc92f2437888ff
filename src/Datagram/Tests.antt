-- ===== src/Datagram/Tests.antt =====
-- Runs of the wrapping.
use nfs_most_wanted_online.Prelude.{◌≡◌, refl, none, some, [], ◌∷◌, replicate, arith}
use nfs_most_wanted_online.Prelude.Bytes.{Bytes, be16, read_be16, read_le32}
use nfs_most_wanted_online.Datagram.{
  Addr, is_ip_packet, udp_maybe_decode_wrapped, udp_make_wrapped, udp_extract_room,
}
use nfs_most_wanted_online.Datagram.Wrapping.{udp_maybe_decode_wrapped-udp_make_wrapped}

abbrev home : Addr
home = record { ip = 192 ∷ 168 ∷ 0 ∷ 1 ∷ []; port = 3658 }

-- The relay's command 1 for room 7.
abbrev hello : Bytes
hello = 1 ∷ 0 ∷ 0 ∷ 0 ∷ 7 ∷ 0 ∷ 0 ∷ 0 ∷ []

room_of_hello : udp_extract_room hello ≡ some 7
unfolding udp_extract_room read_le32
room_of_hello = refl

unwrap_example : udp_maybe_decode_wrapped (14 ∷ 74 ∷ 192 ∷ 168 ∷ 0 ∷ 1 ∷ hello) ≡ some (home, hello)
unfolding udp_make_wrapped be16 is_ip_packet read_be16
unwrap_example =
    udp_maybe_decode_wrapped-udp_make_wrapped 3658 192 168 0 1 hello
      (14 ∷ 74 ∷ 192 ∷ 168 ∷ 0 ∷ 1 ∷ hello) (omega arith) (omega arith) (omega arith) (omega arith)
      (omega arith) (omega arith) (omega arith) refl refl

-- From a port whose high byte begins with 6, a longer payload is taken for an IPv6 packet.
mistaken : udp_maybe_decode_wrapped (0x61 ∷ 0xa8 ∷ 192 ∷ 168 ∷ 0 ∷ 1 ∷ replicate 40 9) ≡ none
unfolding udp_maybe_decode_wrapped is_ip_packet read_be16
mistaken = refl
