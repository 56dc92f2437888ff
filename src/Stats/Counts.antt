-- ===== src/Stats/Counts.antt =====
-- What `bump_result` counts, and that writes to the 35 values do not disturb each other.
use nfs_most_wanted_online.Prelude.{
  ℕ, zero, suc, ◌+◌, ◌-◌, ◌*◌, ◌≤◌, ◌<◌, ◌≡◌, refl, sym, ap, ◌∙◌, inl, inr, ◌&&◌, ◌||◌, List, [],
  ◌∷◌, arith, length, get_or, set, length-set, Bool-cases, if◌then◌else◌,
}
use nfs_most_wanted_online.Prelude.Eq.{◌==◌, nat_eq, text_eq, text_beq}
use nfs_most_wanted_online.Prelude.Text.{Text}
use nfs_most_wanted_online.Prelude.Int.{ℤ, pos, negsuc}
use nfs_most_wanted_online.Stats.{
  PlayerStats, category_of, offset, index_in, get_stat, set_stat, Result, won, dropped, lost,
  result_of, bump_one, bump_result,
}

get_or-set :
    {A : Type 0} (xs : List A) (i j : ℕ) (v d : A)
    → i < length xs
    → get_or (set xs i v) j d ≡ (if i == j then v else get_or xs j d)
get_or-set [] i j v d h = absurd (omega arith)
get_or-set (x ∷ xs) zero zero v d h = refl
get_or-set (x ∷ xs) zero (suc j) v d h = ground arith
get_or-set (x ∷ xs) (suc i) zero v d h = ground arith
get_or-set (x ∷ xs) (suc i) (suc j) v d h = ground (arith, get_or-set xs i j v d (omega arith))

-- The value at a place of a category.
abbrev at : PlayerStats → ℕ → ℕ → ℕ
at s k i = get_or s.values (k * 7 + i) 0

set_at : PlayerStats → ℕ → ℕ → ℕ → PlayerStats
set_at s k i v = record s { values = set s.values (k * 7 + i) v }

at-set_at :
    (s : PlayerStats) (k i k' i' v : ℕ)
    → length s.values ≡ 35
    → k ≤ 4
    → i < 7
    → i' < 7
    → at (set_at s k i v) k' i' ≡ (if k == k' && i == i' then v else at s k' i')
unfolding set_at
at-set_at s k i k' i' v len hk hi hi' =
    ground (arith, get_or-set s.values (k * 7 + i) (k' * 7 + i') v 0 (omega arith))

-- What a result adds to the fields by their places: 1 wins, 2 losses, 3 disconnects, 4 rep.
abbrev pub after : Result → ℕ → ℕ → ℕ
after won i v = if i == 1 then v + 1 else if i == 4 then v + 100 else v
after dropped i v = if i == 3 then v + 1 else if i == 4 then v - 25 else v
after lost i v = if i == 2 then v + 1 else if i == 4 then v - 5 else v

bump_one-length :
    (o : Result) (s : PlayerStats) (cat : ℤ)
    → length s.values ≡ 35
    → length (bump_one o s cat).values ≡ 35
unfolding bump_one set_stat index_in text_beq
bump_one-length won s cat h = rw (length-set, length-set) h
bump_one-length dropped s cat h = rw (length-set, length-set) h
bump_one-length lost s cat h = rw (length-set, length-set) h

-- Two writes to one category: a count goes up, then `rep` changes.
counted_at : PlayerStats → ℕ → ℕ → (ℕ → ℕ) → PlayerStats
unfolding set_at
counted_at s k f g = let s₁ = set_at s k f (at s k f + 1) in set_at s₁ k 4 (g (at s₁ k 4))

at-counted_at :
    (s : PlayerStats) (k f k' i : ℕ) (g : ℕ → ℕ)
    → length s.values ≡ 35
    → k ≤ 4
    → f < 4
    → i < 7
    → at (counted_at s k f g) k' i ≡ (
        if k == k'
        then (if i == f then at s k' i + 1 else if i == 4 then g (at s k' i) else at s k' i)
        else at s k' i)
unfolding counted_at
at-counted_at s k f k' i g len hk hf hi =
    let s₁ = set_at s k f (at s k f + 1) in
    let len₁ : length s₁.values ≡ 35 =
      unfold set_at in length-set s.values (k * 7 + f) (at s k f + 1) ∙ len in
    let second = at-set_at s₁ k 4 k' i (g (at s₁ k 4)) len₁ hk (omega arith) hi in
    let first = at-set_at s k f k' i (at s k f + 1) len hk (omega arith) hi in
    let rep = at-set_at s k f k 4 (at s k f + 1) len hk (omega arith) (omega arith) in
    let kept : at s₁ k 4 ≡ at s k 4 = ground (arith, rep) in
    elim (Bool-cases (k == k')) [
      | inl same ↦
          (let e : k ≡ k' = (nat_eq.beq_iff k k').0 same in
            elim (Bool-cases (i == f)) [
              | inl at_f ↦
                  (let ef : i ≡ f = (nat_eq.beq_iff i f).0 at_f in
                    let here : at s k f ≡ at s k' i =
                      ap (λ c. at s c f) e ∙ ap (at s k') (sym ef) in
                    ground (arith, second, first, here))
              | inr other ↦ elim (Bool-cases (i == 4)) [
                | inl at_4 ↦
                    (let e4 : i ≡ 4 = (nat_eq.beq_iff i 4).0 at_4 in
                      let here : g (at s₁ k 4) ≡ g (at s k' i) =
                        ap g (kept ∙ ap (λ c. at s c 4) e ∙ ap (at s k') (sym e4)) in
                      ground (arith, second, here))
                | inr neither ↦ ground (arith, second, first)
              ]
            ])
      | inr apart ↦ ground (arith, second, first)
    ]

at-bump_one :
    (o : Result) (s : PlayerStats) (k k' i : ℕ)
    → length s.values ≡ 35
    → k ≤ 4
    → i < 7
    → at (bump_one o s (pos k)) k' i ≡ (if k == k' then after o i (at s k' i) else at s k' i)
unfolding bump_one set_stat get_stat index_in offset category_of text_beq counted_at set_at
at-bump_one won s k k' i len hk hi =
    ap (λ c. at (counted_at s c 1 (λ rep. rep + 100)) k' i) (omega arith)
    ∙ at-counted_at s k 1 k' i (λ rep. rep + 100) len hk (omega arith) hi
at-bump_one dropped s k k' i len hk hi =
    ap (λ c. at (counted_at s c 3 (λ rep. rep - 25)) k' i) (omega arith)
    ∙ at-counted_at s k 3 k' i (λ rep. rep - 25) len hk (omega arith) hi
at-bump_one lost s k k' i len hk hi =
    ap (λ c. at (counted_at s c 2 (λ rep. rep - 5)) k' i) (omega arith)
    ∙ at-counted_at s k 2 k' i (λ rep. rep - 5) len hk (omega arith) hi

category_of-le : (category_index : ℤ) → category_of category_index ≤ 4
unfolding category_of
category_of-le (pos n) = omega arith
category_of-le (negsuc n) = omega arith

-- A result of a race counts in the overall category and in its own, once where they are the same, and
-- leaves every other value as it was: a win adds 100 to the reputation, a disconnect takes 25 and a
-- loss 5, but not below 0.
pub bump_result_effect :
    (s : PlayerStats) (category_index : ℤ) (outcome : Text) (k i : ℕ)
    → length s.values ≡ 35
    → k ≤ 4
    → i < 7
    → get_or (bump_result s category_index outcome).values (k * 7 + i) 0 ≡ (
        if k == 0 || k == category_of category_index
        then after (result_of outcome) i (get_or s.values (k * 7 + i) 0)
        else get_or s.values (k * 7 + i) 0)
unfolding bump_result
bump_result_effect s category_index outcome k i len hk hi =
    let o = result_of outcome in
    let c = category_of category_index in
    let once = at-bump_one o s 0 k i len (omega arith) hi in
    let twice =
      at-bump_one o (bump_one o s (pos 0)) c k i (bump_one-length o s (pos 0) len)
        (category_of-le category_index) hi in
    elim (Bool-cases (c == 0)) [
      | inl same ↦ rw same (ground (arith, once))
      | inr apart ↦ rw apart (ground (arith, once, twice))
    ]
