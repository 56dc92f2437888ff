-- ===== src/Prelude/Text.antt =====
-- Texts as lists of code points, with the methods of Python's `str` that the server uses on names
-- and keys. `lower` and `upper` act on the ASCII letters only, where Python's act on all
-- of Unicode.
use Prim.Native.Nat.{ℕ, zero, suc, ◌+◌, ◌-◌, ◌/◌, ◌%◌}
use Prim.Native.Char.{code}
use Prim.Native.String.{String}
use mathlib.Core.Path.{◌≡◌, refl}
use mathlib.Core.Bool.{Bool, true, false, ◌&&◌, ◌||◌}
use mathlib.Core.List.{List, [], ◌∷◌, map, reverse, reverse_aux, reverse-reverse}
use native.Mathlib.Omega.{arith}
use nfs_most_wanted_online.Prelude.Tests.{ltb, leb, if◌then◌else◌}
use nfs_most_wanted_online.Prelude.Lists.{All}
use nfs_most_wanted_online.Prelude.Eq.{nat_beq}

abbrev pub Text : Type 0
Text = List ℕ

abbrev pub codes : String → Text
codes String.[] = []
codes (String.◌∷◌ c s) = code c ∷ codes s

-- The truth value of a text, as in `if s:`.
abbrev pub truthy : Text → Bool
truthy [] = false
truthy (c ∷ s) = true

-- `s or t`
abbrev pub or_text : Text → Text → Text
or_text [] t = t
or_text (c ∷ s) t = c ∷ s

abbrev between : ℕ → ℕ → ℕ → Bool
between lo hi c = leb lo c && leb c hi

-- `str.isspace` of one character.
unfoldable pub is_space : ℕ → Bool
is_space c =
    between 9 13 c
    || between 28 32 c
    || nat_beq c 0x85
    || nat_beq c 0xa0
    || nat_beq c 0x1680
    || between 0x2000 0x200a c
    || between 0x2028 0x2029 c
    || nat_beq c 0x202f
    || nat_beq c 0x205f
    || nat_beq c 0x3000

unfoldable pub lstrip : Text → Text
lstrip [] = []
lstrip (c ∷ s) = let rest = lstrip s in if is_space c then rest else c ∷ s

unfoldable pub strip : Text → Text
unfolding lstrip is_space
strip s = reverse (lstrip (reverse (lstrip s)))

unfoldable pub to_lower : ℕ → ℕ
to_lower c = if between b'A' b'Z' c then c + 32 else c

unfoldable pub to_upper : ℕ → ℕ
to_upper c = if between b'a' b'z' c then c - 32 else c

unfoldable pub lower : Text → Text
unfolding to_lower
lower = map to_lower

unfoldable pub upper : Text → Text
unfolding to_upper
upper = map to_upper

-- `str(n)` of a number: fuel `n + 1` suffices, since each round divides by ten.
unfoldable pub show_digits : ℕ → ℕ → Text → Text
show_digits zero n acc = acc
show_digits (suc f) n acc =
    let rest = show_digits f (n / 10) ((b'0' + n % 10) ∷ acc) in
    if ltb n 10 then (b'0' + n) ∷ acc else rest

unfoldable pub show : ℕ → Text
unfolding show_digits
show n = show_digits (suc n) n []

pub lower-lower : (s : Text) → lower (lower s) ≡ lower s
unfolding lower
lower-lower [] = refl
lower-lower (c ∷ s) = ground (arith, lower-lower s)

is_space-to_lower : (c : ℕ) → is_space (to_lower c) ≡ is_space c
unfolding is_space to_lower
is_space-to_lower c = ground arith

lstrip-lower : (s : Text) → lstrip (lower s) ≡ lower (lstrip s)
unfolding lstrip lower
lstrip-lower [] = refl
lstrip-lower (c ∷ s) = unfold to_lower in ground (arith, lstrip-lower s, is_space-to_lower c)

lstrip-lstrip : (s : Text) → lstrip (lstrip s) ≡ lstrip s
unfolding lstrip
lstrip-lstrip [] = refl
lstrip-lstrip (c ∷ s) = ground (arith, lstrip-lstrip s)

-- A text without blanks has none to strip.
abbrev pub IsDark : ℕ → Type 0
IsDark c = is_space c ≡ false

reverse_aux-IsDark : (s t : Text) → All IsDark s → All IsDark t → All IsDark (reverse_aux s t)
reverse_aux-IsDark [] t hs ht = ht
reverse_aux-IsDark (c ∷ s) t hs ht = reverse_aux-IsDark s (c ∷ t) hs.1 (hs.0, ht)

lstrip_dark : (s : Text) → All IsDark s → lstrip s ≡ s
unfolding lstrip
lstrip_dark [] h = refl
lstrip_dark (c ∷ s) h = rw h.0 refl

pub strip_dark : (s : Text) → All IsDark s → strip s ≡ s
unfolding strip
strip_dark s h =
    rw (lstrip_dark s h, lstrip_dark (reverse s) (reverse_aux-IsDark s [] h tt)) (reverse-reverse s)

show_runs : show 20922 ≡ codes "20922"
unfolding show
show_runs = refl

strip_runs : strip (codes " \t Night Run\r\n") ≡ codes "Night Run"
unfolding strip
strip_runs = refl
