-- ===== src/Prelude/Bytes.antt =====
-- Bytes as numbers below 256, with Python's `struct` formats for unsigned integers.
use Prim.Native.Nat.{ℕ, zero, suc, ◌+◌, ◌-◌, ◌*◌, ◌/◌, ◌%◌, ◌^◌, ◌<◌}
use mathlib.Core.Path.{◌≡◌, refl, sym, ap, ◌∙◌}
use mathlib.Core.List.{List, [], ◌∷◌, ◌++◌}
use native.Mathlib.Omega.{arith}
use nfs_most_wanted_online.Prelude.Tests.{ltb, if◌then◌else◌}
use nfs_most_wanted_online.Prelude.Lists.{length, take, drop, get_or}

abbrev pub Bytes : Type 0
Bytes = List ℕ

abbrev pub IsByte : ℕ → Type 0
IsByte b = b < 256

-- `struct.pack(">I", n)`
unfoldable pub be32 : ℕ → Bytes
be32 n = n / 2 ^ 24 % 256 ∷ n / 2 ^ 16 % 256 ∷ n / 2 ^ 8 % 256 ∷ n % 256 ∷ []

-- `struct.unpack(">I", bs)[0]` of four bytes.
unfoldable pub read_be32 : Bytes → ℕ
read_be32 bs =
    get_or bs 0 0 * 2 ^ 24 + get_or bs 1 0 * 2 ^ 16 + get_or bs 2 0 * 2 ^ 8 + get_or bs 3 0

-- `struct.pack("!H", n)`
unfoldable pub be16 : ℕ → Bytes
be16 n = n / 2 ^ 8 % 256 ∷ n % 256 ∷ []

unfoldable pub read_be16 : Bytes → ℕ
read_be16 bs = get_or bs 0 0 * 2 ^ 8 + get_or bs 1 0

-- `struct.unpack_from("<I", bs)[0]`
unfoldable pub read_le32 : Bytes → ℕ
read_le32 bs =
    get_or bs 3 0 * 2 ^ 24 + get_or bs 2 0 * 2 ^ 16 + get_or bs 1 0 * 2 ^ 8 + get_or bs 0 0

pub read_be32-be32 : (n : ℕ) → n < 2 ^ 32 → read_be32 (be32 n) ≡ n
unfolding read_be32 be32
read_be32-be32 n h = omega arith

pub read_be16-be16 : (n : ℕ) → n < 2 ^ 16 → read_be16 (be16 n) ≡ n
unfolding read_be16 be16
read_be16-be16 n h = omega arith

-- `f"{d:x}"` of a digit.
abbrev pub hex_digit : ℕ → ℕ
hex_digit d = if ltb d 10 then b'0' + d else b'a' + (d - 10)

-- `bs.hex()`
unfoldable pub hex : Bytes → List ℕ
hex [] = []
hex (b ∷ bs) = hex_digit (b / 16) ∷ hex_digit (b % 16) ∷ hex bs

module _ {ℓ} {A : Type ℓ} where
  pub drop-append : (xs ys : List A) → drop (length xs) (xs ++ ys) ≡ ys
  drop-append [] ys = refl
  drop-append (x ∷ xs) ys = drop-append xs ys

  pub take-append : (xs ys : List A) → take (length xs) (xs ++ ys) ≡ xs
  take-append [] ys = refl
  take-append (x ∷ xs) ys = ap (◌∷◌ x) (take-append xs ys)

  drop-nil : (n : ℕ) → drop {A = A} n [] ≡ []
  drop-nil zero = refl
  drop-nil (suc n) = refl

  pub drop_add : (m n : ℕ) (xs : List A) → drop (m + n) xs ≡ drop n (drop m xs)
  drop_add zero n xs = let e : zero + n ≡ n = omega arith in ap (λ k. drop k xs) e
  drop_add (suc m) n [] = drop-nil (suc m + n) ∙ sym (drop-nil n)
  drop_add (suc m) n (x ∷ xs) =
      let e : suc m + n ≡ suc (m + n) = omega arith in ap (λ k. drop k (x ∷ xs)) e ∙ drop_add m n xs
