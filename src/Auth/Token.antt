-- ===== src/Auth/Token.antt =====
-- The pass token: the password's bytes, each mixed with the one before it and with the mask, in
-- hexadecimal behind a `$`.
use Prim.Native.Nat.{bit_or, bit_xor, ◌^◌}
use nfs_most_wanted_online.Prelude.{
  ℕ, suc, ◌+◌, ◌-◌, ◌*◌, ◌/◌, ◌%◌, not, ◌&&◌, ◌||◌, Option, none, some, [], ◌∷◌, length, keep,
  get_or, ltb, leb, if◌then◌else◌,
}
use nfs_most_wanted_online.Prelude.Eq.{◌==◌, nat_eq}
use nfs_most_wanted_online.Prelude.Text.{Text, codes, or_text, strip, is_space, to_lower}
use nfs_most_wanted_online.Prelude.Bytes.{Bytes, hex}
use nfs_most_wanted_online.Frames.{latin1}

unfoldable pub auth_rol8 : ℕ → ℕ → ℕ
auth_rol8 value count =
    let v = value % 256 in let c = count % 8 in bit_or (v * 2 ^ c) (v / 2 ^ (8 - c)) % 256

unfoldable pub auth_ror8 : ℕ → ℕ → ℕ
auth_ror8 value count =
    let v = value % 256 in let c = count % 8 in bit_or (v / 2 ^ c) (v * 2 ^ (8 - c)) % 256

-- `str(mask or "0").encode("ascii", errors="ignore") or b"0"`
unfoldable pub mask_bytes_of : Text → Bytes
mask_bytes_of mask = or_text (keep (λ c. ltb c 128) (or_text mask (codes "0"))) (codes "0")

abbrev pub mask_byte : Bytes → ℕ → ℕ
mask_byte mask_bytes index = get_or mask_bytes (index % length mask_bytes) 0

-- The loop of `_auth_make_pass_token`: the state after each byte.
unfoldable pub token_states : Bytes → ℕ → ℕ → Bytes → Bytes
token_states mask_bytes index state [] = []
token_states mask_bytes index state (ch ∷ rest) =
    let next = bit_xor (auth_rol8 (bit_xor ch state) 3) (mask_byte mask_bytes index) in
    next % 256 ∷ token_states mask_bytes (suc index) next rest

unfoldable pub auth_make_pass_token : Text → Text → Text
auth_make_pass_token password mask =
    b'$' ∷ hex (token_states (mask_bytes_of mask) 0 0 (latin1 password))

unfoldable pub hex_value : ℕ → ℕ
hex_value c =
    if leb b'0' c && leb c b'9'
    then c - b'0'
    else if leb b'a' (to_lower c) && leb (to_lower c) b'f'
    then to_lower c - b'a' + 10
    else 16

-- The low byte of `int(a + b, 16)`, which also reads a blank on either side and a sign. Digits beyond
-- ASCII are left out.
unfoldable pub read_pair : ℕ → ℕ → Option ℕ
unfolding hex_value
read_pair a b =
    let u = hex_value a in
    let v = hex_value b in
    if ltb u 16 && ltb v 16
    then some (u * 16 + v)
    else if (is_space a || a == b'+') && ltb v 16
    then some v
    else if a == b'-' && ltb v 16
    then some ((256 - v) % 256)
    else if ltb u 16 && is_space b
    then some u
    else none

unfoldable pub with_value : Option ℕ → Option Bytes → Option Bytes
with_value none rest = none
with_value (some v) none = none
with_value (some v) (some vs) = some (v ∷ vs)

unfoldable pub hex_values : Text → Option Bytes
unfolding with_value
hex_values [] = some []
hex_values (a ∷ []) = none
hex_values (a ∷ b ∷ rest) = with_value (read_pair a b) (hex_values rest)

-- The loop of `_auth_decode_pass_token`.
unfoldable pub token_chars : Bytes → ℕ → ℕ → Bytes → Bytes
token_chars mask_bytes index state [] = []
token_chars mask_bytes index state (encoded ∷ rest) =
    bit_xor (auth_ror8 (bit_xor encoded (mask_byte mask_bytes index)) 3) state % 256
    ∷ token_chars mask_bytes (suc index) (encoded % 256) rest

unfoldable pub chars_of : Bytes → Option Bytes → Option Text
chars_of mask_bytes none = none
chars_of mask_bytes (some values) = some (token_chars mask_bytes 0 0 values)

-- The token without the blanks around it.
unfoldable pub decode_stripped : Text → Text → Option Text
unfolding chars_of
decode_stripped [] mask = none
decode_stripped (c ∷ hex_part) mask =
    if not (c == b'$') || (ltb (length hex_part) 2 || not (length hex_part % 2 == 0))
    then none
    else chars_of (mask_bytes_of mask) (hex_values hex_part)

unfoldable pub auth_decode_pass_token : Text → Text → Option Text
auth_decode_pass_token token mask = decode_stripped (strip token) mask
