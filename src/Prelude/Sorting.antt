-- ===== src/Prelude/Sorting.antt =====
-- Python's `sorted` on texts: a stable insertion sort by code points.
use mathlib.Core.Path.{◌≡◌, refl}
use mathlib.Core.Bool.{Bool, true, false, ◌&&◌, ◌||◌}
use mathlib.Core.List.{List, [], ◌∷◌}
use native.Mathlib.Omega.{arith}
use nfs_most_wanted_online.Prelude.Tests.{ltb, if◌then◌else◌}
use nfs_most_wanted_online.Prelude.Lists.{keep}
use nfs_most_wanted_online.Prelude.Eq.{◌==◌, text_eq, text_beq_iff, nat_beq}
use nfs_most_wanted_online.Prelude.Sets.{contains}
use nfs_most_wanted_online.Prelude.Text.{Text}

unfoldable pub text_ltb : Text → Text → Bool
text_ltb [] [] = false
text_ltb [] (d ∷ t) = true
text_ltb (c ∷ s) [] = false
text_ltb (c ∷ s) (d ∷ t) = let rest = text_ltb s t in if ltb c d then true else nat_beq c d && rest

unfoldable pub insert_text : Text → List Text → List Text
insert_text a [] = a ∷ []
insert_text a (b ∷ bs) =
    let rest = insert_text a bs in if text_ltb b a then b ∷ rest else a ∷ b ∷ bs

unfoldable pub sorted_texts : List Text → List Text
unfolding insert_text
sorted_texts [] = []
sorted_texts (a ∷ as_) = insert_text a (sorted_texts as_)

contains-insert_text :
    (k a : Text) (bs : List Text) → contains k (insert_text a bs) ≡ (a == k || contains k bs)
unfolding insert_text contains
contains-insert_text k a [] = refl
contains-insert_text k a (b ∷ bs) = ground (arith, contains-insert_text k a bs)

pub contains-sorted_texts :
    (k : Text) (as_ : List Text) → contains k (sorted_texts as_) ≡ contains k as_
unfolding sorted_texts contains
contains-sorted_texts k [] = refl
contains-sorted_texts k (a ∷ as_) =
    ground (arith, contains-insert_text k a (sorted_texts as_), contains-sorted_texts k as_)

pub contains-keep :
    (p : Text → Bool) (k : Text) (as_ : List Text)
    → contains k (keep p as_) ≡ (contains k as_ && p k)
unfolding contains
contains-keep p k [] = refl
contains-keep p k (a ∷ as_) = ground (arith, contains-keep p k as_, same a)
  where
    same : (a : Text) → (a == k) ≡ true → p a ≡ p k
    same a e = rw ((text_beq_iff a k).0 e) refl
