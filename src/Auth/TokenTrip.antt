-- ===== src/Auth/TokenTrip.antt =====
-- A pass token is decoded to the password it was made of.
use Prim.Native.Nat.{bit_xor}
use nfs_most_wanted_online.Prelude.{
  ℕ, zero, suc, ◌*◌, ◌/◌, ◌%◌, ◌≤◌, ◌<◌, ◌≡◌, refl, ap, ◌≢◌, Bool, true, false, not, ◌&&◌, ◌||◌,
  Option, none, some, [], ◌∷◌, length, keep, get_or, ltb, All, arith,
}
use nfs_most_wanted_online.Prelude.Eq.{◌==◌, nat_eq}
use nfs_most_wanted_online.Prelude.Text.{
  Text, codes, or_text, strip_dark, IsDark, is_space, to_lower,
}
use nfs_most_wanted_online.Prelude.Bytes.{Bytes, IsByte, hex, hex_digit}
use nfs_most_wanted_online.Frames.{latin1}
use nfs_most_wanted_online.Auth.Token.{
  auth_rol8, auth_ror8, mask_bytes_of, mask_byte, token_states, auth_make_pass_token, read_pair,
  hex_values, token_chars, with_value, chars_of, auth_decode_pass_token, decode_stripped,
}

-- Over a small range, every value is checked by evaluation.
all_below : ℕ → (ℕ → Bool) → Bool
all_below zero p = true
all_below (suc n) p = p n && all_below n p

all_below_lem : (n : ℕ) (p : ℕ → Bool) (x : ℕ) → all_below n p ≡ true → x < n → p x ≡ true
unfolding all_below
all_below_lem zero p x h lt = absurd (omega arith)
all_below_lem (suc n) p x h lt = ground (arith, all_below_lem n p x)

rotation_table :
    all_below 256 (λ x. auth_ror8 (auth_rol8 x 3) 3 == x && ltb (auth_rol8 x 3) 256) ≡ true
unfolding all_below auth_ror8 auth_rol8
rotation_table = refl

xor_table :
    all_below 256 (λ y. all_below 256 (λ x. bit_xor (bit_xor x y) y == x && ltb (bit_xor x y) 256))
    ≡ true
unfolding all_below
xor_table = refl

rotated_back : (x : ℕ) → x < 256 → (auth_ror8 (auth_rol8 x 3) 3 ≡ x) × (auth_rol8 x 3 < 256)
rotated_back x h = ground (arith, all_below_lem 256 _ x rotation_table h)

mixed_back : (x y : ℕ) → x < 256 → y < 256 → (bit_xor (bit_xor x y) y ≡ x) × (bit_xor x y < 256)
mixed_back x y hx hy = ground (arith, all_below_lem 256 _ x (all_below_lem 256 _ y xor_table hy) hx)

get_or-IsByte : (bs : Bytes) (i : ℕ) → All IsByte bs → get_or bs i 0 < 256
get_or-IsByte [] i all = omega arith
get_or-IsByte (b ∷ bs) zero all = all.0
get_or-IsByte (b ∷ bs) (suc i) all = get_or-IsByte bs i all.1

keep-IsByte : (limit : ℕ) (s : Text) → limit ≤ 256 → All IsByte (keep (λ c. ltb c limit) s)
keep-IsByte limit [] small = tt
keep-IsByte limit (c ∷ s) small = ground (arith, keep-IsByte limit s small)

or_text-IsByte : (s t : Text) → All IsByte s → All IsByte t → All IsByte (or_text s t)
or_text-IsByte [] t hs ht = ht
or_text-IsByte (c ∷ s) t hs ht = hs

mask_bytes-IsByte : (mask : Text) → All IsByte (mask_bytes_of mask)
unfolding mask_bytes_of
mask_bytes-IsByte mask =
    or_text-IsByte (keep (λ c. ltb c 128) (or_text mask (codes "0"))) (codes "0")
      (keep-IsByte 128 (or_text mask (codes "0")) (omega arith)) (omega arith, tt)

latin1-IsByte : (s : Text) → All IsByte (latin1 s)
unfolding latin1
latin1-IsByte s = keep-IsByte 256 s (omega arith)

-- One round: the mixed state is a byte, and it is taken apart again.
round_back :
    (ch state m : ℕ)
    → ch < 256
    → state < 256
    → m < 256
    → let next = bit_xor (auth_rol8 (bit_xor ch state) 3) m in
      (next < 256) × (bit_xor (auth_ror8 (bit_xor next m) 3) state ≡ ch)
round_back ch state m hc hs hm =
    let first = mixed_back ch state hc hs in
    let turned = rotated_back (bit_xor ch state) first.1 in
    let mixed = mixed_back (auth_rol8 (bit_xor ch state) 3) m turned.1 hm in
    (mixed.1, rw (mixed.0, turned.0) first.0)

token_chars-token_states :
    (mask_bytes : Bytes) (index state : ℕ) (bs : Bytes)
    → All IsByte mask_bytes
    → state < 256
    → All IsByte bs
    → (token_chars mask_bytes index state (token_states mask_bytes index state bs) ≡ bs)
      × All IsByte (token_states mask_bytes index state bs)
unfolding token_chars token_states
token_chars-token_states mask_bytes index state [] hm hs hb = (refl, tt)
token_chars-token_states mask_bytes index state (ch ∷ bs) hm hs hb =
    let m = mask_byte mask_bytes index in
    let next = bit_xor (auth_rol8 (bit_xor ch state) 3) m in
    let turn =
      round_back ch state m hb.0 hs (get_or-IsByte mask_bytes (index % length mask_bytes) hm) in
    let rest = token_chars-token_states mask_bytes (suc index) next bs hm turn.0 hb.1 in
    let low : next % 256 ≡ next = omega arith in
    rw (low, low, turn.1) (ground (arith, rest.0, hb.0), (turn.0, rest.1))

pair_is : Option ℕ → ℕ → Bool
pair_is none b = false
pair_is (some v) b = v == b

pair_is_lem : (o : Option ℕ) (b : ℕ) → pair_is o b ≡ true → o ≡ some b
unfolding pair_is
pair_is_lem none b h = cc
pair_is_lem (some v) b h = ground arith

pair_table :
    all_below 256 (λ b. pair_is (read_pair (hex_digit (b / 16)) (hex_digit (b % 16))) b) ≡ true
unfolding all_below read_pair pair_is to_lower
pair_table = refl

read_pair-hex_digit :
    (b : ℕ) → b < 256 → read_pair (hex_digit (b / 16)) (hex_digit (b % 16)) ≡ some b
read_pair-hex_digit b h = pair_is_lem _ b (all_below_lem 256 _ b pair_table h)

hex_values-hex : (bs : Bytes) → All IsByte bs → hex_values (hex bs) ≡ some bs
unfolding hex_values with_value hex
hex_values-hex [] all = refl
hex_values-hex (b ∷ bs) all = rw (read_pair-hex_digit b all.0, hex_values-hex bs all.1) refl

length-hex : (bs : Bytes) → length (hex bs) ≡ 2 * length bs
unfolding hex
length-hex [] = omega arith
length-hex (b ∷ bs) = omega (arith, length-hex bs)

length-token_states :
    (mask_bytes : Bytes) (index state : ℕ) (bs : Bytes)
    → length (token_states mask_bytes index state bs) ≡ length bs
unfolding token_states
length-token_states mask_bytes index state [] = refl
length-token_states mask_bytes index state (ch ∷ bs) =
    ap suc (length-token_states mask_bytes (suc index) _ bs)

hex_digit-IsDark : (d : ℕ) → d < 16 → IsDark (hex_digit d)
unfolding is_space
hex_digit-IsDark d h = ground arith

hex-IsDark : (bs : Bytes) → All IsByte bs → All IsDark (hex bs)
unfolding hex
hex-IsDark [] all = tt
hex-IsDark (b ∷ bs) all = (
  hex_digit-IsDark (b / 16) (omega arith),
  (hex_digit-IsDark (b % 16) (omega arith), hex-IsDark bs all.1),
)

dollar-IsDark : IsDark b'$'
unfolding is_space
dollar-IsDark = refl

-- The token of a password with at least one Latin-1 character is decoded, with the same mask, to the
-- password's Latin-1 characters.
pub auth_decode_pass_token-auth_make_pass_token :
    (password mask : Text)
    → length (latin1 password) ≢ 0
    → auth_decode_pass_token (auth_make_pass_token password mask) mask ≡ some (latin1 password)
unfolding auth_decode_pass_token auth_make_pass_token decode_stripped chars_of
auth_decode_pass_token-auth_make_pass_token password mask some_byte =
    let chars = latin1 password in
    let states = token_states (mask_bytes_of mask) 0 0 chars in
    let back =
      token_chars-token_states (mask_bytes_of mask) 0 0 chars (mask_bytes-IsByte mask) (omega arith)
        (latin1-IsByte password) in
    let long = length-hex states in
    let count = length-token_states (mask_bytes_of mask) 0 0 chars in
    let fits : (ltb (length (hex states)) 2 || not (length (hex states) % 2 == 0)) ≡ false =
      ground arith in
    rw (strip_dark (b'$' ∷ hex states) (dollar-IsDark, hex-IsDark states back.1))
      (rw (fits, hex_values-hex states back.1, back.0) refl)
