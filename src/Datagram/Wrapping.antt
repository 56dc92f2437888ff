-- ===== src/Datagram/Wrapping.antt =====
-- A wrapped datagram is taken apart again.
use nfs_most_wanted_online.Prelude.{
  ℕ, ◌%◌, ◌≤◌, ◌<◌, ◌≡◌, ◌∙◌, false, some, [], ◌∷◌, ◌++◌, length, arith,
}
use nfs_most_wanted_online.Prelude.Eq.{nat_eq, text_eq, text_beq}
use nfs_most_wanted_online.Prelude.Bytes.{Bytes, be16, read_be16, read_le32}
use nfs_most_wanted_online.Datagram.{
  is_ip_packet, unwrap, udp_maybe_decode_wrapped, udp_make_wrapped,
}

module _ (port a b c d : ℕ) (payload : Bytes) (valid_port : 1 ≤ port) (small_port : port < 0x1_0000)
    (unicast : 1 ≤ a) (no_multicast : a < 224) where
  abbrev bytes : Bytes
  bytes = be16 port ++ (a ∷ b ∷ c ∷ d ∷ payload)

  unwrapped : unwrap bytes ≡ some (record { ip = a ∷ b ∷ c ∷ d ∷ []; port = port }, payload)
  unfolding unwrap be16 read_be16 read_le32 text_beq
  unwrapped = ground arith

made_wrapped :
    (port a b c d : ℕ) (payload datagram : Bytes)
    → udp_make_wrapped (record { ip = a ∷ b ∷ c ∷ d ∷ []; port = port }) payload ≡ some datagram
    → (port < 0x1_0000)
      × (be16 port ++ (a % 256 ∷ b % 256 ∷ c % 256 ∷ d % 256 ∷ payload) ≡ datagram)
unfolding udp_make_wrapped
made_wrapped port a b c d payload datagram made = ground arith

unwrap_long :
    (datagram : Bytes)
    → 10 < length datagram
    → is_ip_packet datagram ≡ false
    → udp_maybe_decode_wrapped datagram ≡ unwrap datagram
unfolding udp_maybe_decode_wrapped
unwrap_long datagram long other = ground arith

-- A wrapped datagram is taken apart to the address and the payload it was made of, if the payload has
-- at least five bytes, the port is not zero, the address is an ordinary one (its numbers are bytes, and
-- the first is from 1 to 223), and the whole is not taken for an IP packet.
pub udp_maybe_decode_wrapped-udp_make_wrapped :
    (port a b c d : ℕ) (payload datagram : Bytes)
    → 1 ≤ port
    → 1 ≤ a
    → a < 224
    → b < 256
    → c < 256
    → d < 256
    → 5 ≤ length payload
    → udp_make_wrapped (record { ip = a ∷ b ∷ c ∷ d ∷ []; port = port }) payload ≡ some datagram
    → is_ip_packet datagram ≡ false
    → udp_maybe_decode_wrapped datagram
      ≡ some (record { ip = a ∷ b ∷ c ∷ d ∷ []; port = port }, payload)
unfolding be16
udp_maybe_decode_wrapped-udp_make_wrapped port a b c d payload datagram hp ha hm hb hc hd long made
      other =
    let parts = made_wrapped port a b c d payload datagram made in
    let ea : a % 256 ≡ a = omega arith in
    let eb : b % 256 ≡ b = omega arith in
    let ec : c % 256 ≡ c = omega arith in
    let ed : d % 256 ≡ d = omega arith in
    let e = rw (ea, eb, ec, ed) at parts.1 in
    let size : 10 < length datagram = rw (← e) (omega arith) in
    unwrap_long datagram size other ∙ rw (← e) (unwrapped port a b c d payload hp parts.0 ha hm)
