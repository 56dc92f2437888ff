-- ===== src/Prelude/ParseInt.antt =====
-- Python's `int(text, 0)`: an integer literal of Python, with blanks around it and a sign before it.
use Prim.Native.Nat.{ℕ, ◌+◌, ◌-◌, ◌*◌}
use mathlib.Core.Path.{◌≡◌, refl}
use mathlib.Core.Bool.{Bool, true, false, not, ◌&&◌}
use mathlib.Core.Option.{Option, none, some}
use mathlib.Core.List.{[], ◌∷◌}
use nfs_most_wanted_online.Prelude.Tests.{ltb, leb, if◌then◌else◌}
use nfs_most_wanted_online.Prelude.Eq.{nat_beq}
use nfs_most_wanted_online.Prelude.Text.{Text, codes, strip, to_lower}
use nfs_most_wanted_online.Prelude.Int.{ℤ, pos, negsuc}

-- The value of a digit or a letter, 36 for anything else.
digit_value : ℕ → ℕ
digit_value c =
    if leb b'0' c && leb c b'9'
    then c - b'0'
    else if leb b'a' (to_lower c) && leb (to_lower c) b'z'
    then to_lower c - b'a' + 10
    else 36

-- Digits of a base, with single underscores between them; `wanted` says that a digit has to follow.
unfoldable pub read_digits : ℕ → ℕ → Bool → Text → Option ℕ
unfolding digit_value to_lower
read_digits base n wanted [] = if wanted then none else some n
read_digits base n wanted (c ∷ s) =
    let v = digit_value c in
    let more = read_digits base (n * base + v) false s in
    let gap = read_digits base n true s in
    if ltb v base then more else if nat_beq c b'_' && not wanted then gap else none

-- Behind a prefix such as `0x` one underscore may stand.
skip_underscore : Text → Text
skip_underscore [] = []
skip_underscore (c ∷ s) = if nat_beq c b'_' then s else c ∷ s

-- A decimal literal that begins with a zero is zero.
only_zero : Option ℕ → Option ℕ
only_zero none = none
only_zero (some n) = if nat_beq n 0 then some 0 else none

read_prefixed : ℕ → Text → Option ℕ
unfolding read_digits skip_underscore only_zero to_lower
read_prefixed c s =
    if nat_beq (to_lower c) b'x'
    then read_digits 16 0 true (skip_underscore s)
    else if nat_beq (to_lower c) b'o'
    then read_digits 8 0 true (skip_underscore s)
    else if nat_beq (to_lower c) b'b'
    then read_digits 2 0 true (skip_underscore s)
    else only_zero (read_digits 10 0 false (c ∷ s))

read_literal : Text → Option ℕ
unfolding read_prefixed
read_literal (c ∷ d ∷ s) =
    if nat_beq c b'0' then read_prefixed d s else read_digits 10 0 true (c ∷ d ∷ s)
read_literal s = read_digits 10 0 true s

positive : Option ℕ → Option ℤ
positive none = none
positive (some n) = some (pos n)

negate : ℕ → ℤ
negate n = if nat_beq n 0 then pos 0 else negsuc (n - 1)

negative : Option ℕ → Option ℤ
unfolding negate
negative none = none
negative (some n) = some (negate n)

read_signed : Text → Option ℤ
unfolding read_literal positive negative
read_signed [] = none
read_signed (c ∷ s) =
    if nat_beq c b'-'
    then negative (read_literal s)
    else if nat_beq c b'+'
    then positive (read_literal s)
    else positive (read_literal (c ∷ s))

-- `none` stands for the ValueError.
unfoldable pub parse_int : Text → Option ℤ
unfolding read_signed strip
parse_int s = read_signed (strip s)

parse_int_runs :
    (parse_int (codes " 0x1F ") ≡ some (pos 31))
    × (parse_int (codes "-1_000") ≡ some (negsuc 999))
    × (parse_int (codes "010") ≡ none)
    × (parse_int (codes "12a") ≡ none)
    × (parse_int (codes "000") ≡ some (pos 0))
unfolding parse_int
parse_int_runs = (refl, refl, refl, refl, refl)
