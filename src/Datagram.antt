-- ===== src/Datagram.antt =====
-- The wrapped datagrams of server/server.py: a payload behind the port and the address it came from. An
-- IPv4 address is the list of the numbers between its dots.
pub mod Wrapping
mod Tests
use Prim.Native.Nat.{◌^◌}
use nfs_most_wanted_online.Prelude.{
  ℕ, ◌+◌, ◌*◌, ◌/◌, ◌%◌, Bool, true, false, not, ◌&&◌, ◌||◌, Option, none, some, List, [], ◌∷◌,
  ◌++◌, map, length, take, drop, get_or, ltb, leb, if◌then◌else◌,
}
use nfs_most_wanted_online.Prelude.Eq.{◌==◌, nat_eq, text_eq}
use nfs_most_wanted_online.Prelude.Bytes.{Bytes, be16, read_be16, read_le32}

pub record Addr : Type 0 where
  pub ip : List ℕ
  pub port : ℕ

-- The datagram is an IPv4 or an IPv6 packet that is all there.
unfoldable pub is_ip_packet : Bytes → Bool
is_ip_packet datagram =
    let b0 = get_or datagram 0 0 in
    let ihl = b0 % 16 * 4 in
    let total_len = read_be16 (drop 2 datagram) in
    let payload_len = read_be16 (drop 4 datagram) in
    (b0 / 16 == 4
      && (leb 20 (length datagram)
          && (leb 20 ihl && (leb ihl total_len && leb total_len (length datagram)))))
    || (b0 / 16 == 6 && (leb 40 (length datagram) && leb (40 + payload_len) (length datagram)))

-- The rest of `_udp_maybe_decode_wrapped`.
unfoldable pub unwrap : Bytes → Option (Addr × Bytes)
unwrap datagram =
    let orig_port = read_be16 datagram in
    let orig_ip_raw = take 4 (drop 2 datagram) in
    let octet0 = get_or datagram 2 0 in
    if leb (read_le32 datagram) 0x1000
    then none
    else if orig_port == 0 || orig_ip_raw == (0 ∷ 0 ∷ 0 ∷ 0 ∷ [])
    then none
    else if octet0 == 0 || leb 224 octet0
    then none
    else if orig_ip_raw == (255 ∷ 255 ∷ 255 ∷ 255 ∷ [])
    then none
    else some (record { ip = orig_ip_raw; port = orig_port }, drop 6 datagram)

unfoldable pub udp_maybe_decode_wrapped : Bytes → Option (Addr × Bytes)
udp_maybe_decode_wrapped datagram =
    if leb (length datagram) 10
    then none
    else if is_ip_packet datagram
    then none
    else unwrap datagram

-- `none` where the function raises: a port out of range, or not four numbers.
unfoldable pub udp_make_wrapped : Addr → Bytes → Option Bytes
udp_make_wrapped src payload =
    let ip_raw = map (λ part. part % 256) src.ip in
    if not (length ip_raw == 4)
    then none
    else if ltb src.port (2 ^ 16)
    then some (be16 src.port ++ (ip_raw ++ payload))
    else none

unfoldable pub udp_extract_room : Bytes → Option ℕ
udp_extract_room payload =
    let cmd = read_le32 payload in
    let room = read_le32 (drop 4 payload) in
    if ltb (length payload) 8
    then none
    else if not (cmd == 1 || cmd == 5)
    then none
    else if room == 0 || room == 0xffff_ffff
    then none
    else some room
