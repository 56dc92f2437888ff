-- ===== src/Prelude/Sets.antt =====
-- Python's `set` (and a `list` used as one): a list of its members in order of insertion.
use Prim.Native.Nat.{suc, ◌+◌, ◌≤◌}
use mathlib.Core.Path.{◌≡◌, refl}
use mathlib.Core.Logic.{◌↔◌, ◌≢◌, inl, inr}
use mathlib.Core.Bool.{Bool, false, ◌||◌}
use mathlib.Core.List.{List, [], ◌∷◌, ◌++◌}
use native.Mathlib.Omega.{arith}
use nfs_most_wanted_online.Prelude.Tests.{if◌then◌else◌, Bool-cases}
use nfs_most_wanted_online.Prelude.Lists.{length, length-append}
use nfs_most_wanted_online.Prelude.Eq.{Eq, ◌==◌}

module _ {ℓ} {A : Type ℓ} ⦃e : Eq A⦄ where
  -- `a in xs`
  unfoldable pub contains : A → List A → Bool
  contains a [] = false
  contains a (x ∷ xs) = x == a || contains a xs

  -- `xs.add(a)`
  unfoldable pub add : A → List A → List A
  unfolding contains
  add a xs = if contains a xs then xs else xs ++ a ∷ []

  -- `xs.discard(a)`
  unfoldable pub discard : A → List A → List A
  discard a [] = []
  discard a (x ∷ xs) = let rest = discard a xs in if x == a then rest else x ∷ rest

  -- `xs.remove(a)` of a list, which takes out the first occurrence
  unfoldable pub remove : A → List A → List A
  remove a [] = []
  remove a (x ∷ xs) = if x == a then xs else x ∷ remove a xs

  -- No member stands in the list twice.
  abbrev pub Distinct : List A → Type 0
  Distinct [] = Unit
  Distinct (x ∷ xs) = (contains x xs ≡ false) × Distinct xs

  pub contains-append :
      (a : A) (xs ys : List A) → contains a (xs ++ ys) ≡ (contains a xs || contains a ys)
  unfolding contains
  contains-append a [] ys = refl
  contains-append a (x ∷ xs) ys = ground (arith, contains-append a xs ys)

  pub contains-add : (a b : A) (xs : List A) → contains b (add a xs) ≡ (a == b || contains b xs)
  unfolding add
  contains-add a b xs = ground (arith, contains-append b xs (a ∷ []), e.beq_iff a b)

  pub contains-discard :
      (a b : A) (xs : List A)
      → contains b (discard a xs) ≡ (if a == b then false else contains b xs)
  unfolding contains discard
  contains-discard a b [] = ground arith
  contains-discard a b (x ∷ xs) =
      ground (arith, contains-discard a b xs, e.beq_iff x a, e.beq_iff x b, e.beq_iff a b)

  pub Distinct-append_one :
      (a : A) (xs : List A) → Distinct xs → contains a xs ≡ false → Distinct (xs ++ a ∷ [])
  unfolding contains
  Distinct-append_one a [] d h = (refl, tt)
  Distinct-append_one a (x ∷ xs) d h = ground (
    arith,
    Distinct-append_one a xs d.1,
    contains-append x xs (a ∷ []),
    e.beq_iff x a,
    e.beq_iff a x,
  )

  pub add-Distinct : (a : A) (xs : List A) → Distinct xs → Distinct (add a xs)
  unfolding add
  add-Distinct a xs d = ground (arith, Distinct-append_one a xs d)

  pub discard-Distinct : (a : A) (xs : List A) → Distinct xs → Distinct (discard a xs)
  unfolding discard
  discard-Distinct a [] d = tt
  discard-Distinct a (x ∷ xs) d = ground (arith, discard-Distinct a xs d.1, contains-discard a x xs)

  pub contains-remove :
      (a b : A) (xs : List A)
      → Distinct xs
      → contains b (remove a xs) ≡ (if a == b then false else contains b xs)
  unfolding contains remove
  contains-remove a b [] d = ground arith
  contains-remove a b (x ∷ xs) d =
      ground (arith, contains-remove a b xs d.1, e.beq_iff x a, e.beq_iff x b, e.beq_iff a b)

  pub remove-Distinct : (a : A) (xs : List A) → Distinct xs → Distinct (remove a xs)
  unfolding remove
  remove-Distinct a [] d = tt
  remove-Distinct a (x ∷ xs) d =
      ground (arith, remove-Distinct a xs d.1, contains-remove a x xs d.1)

  pub length-add :
      (a : A) (xs : List A)
      → length (add a xs) ≡ (if contains a xs then length xs else length xs + 1)
  unfolding add
  length-add a xs = ground (arith, length-append xs (a ∷ []))

  pub length-discard-le : (a : A) (xs : List A) → length (discard a xs) ≤ length xs
  unfolding discard
  length-discard-le a [] = omega arith
  length-discard-le a (x ∷ xs) = ground (arith, length-discard-le a xs)

  pub length-remove :
      (a : A) (xs : List A)
      → (if contains a xs then suc (length (remove a xs)) else length (remove a xs)) ≡ length xs
  unfolding contains remove
  length-remove a [] = refl
  length-remove a (x ∷ xs) = ground (arith, length-remove a xs)

  pub length-remove-le : (a : A) (xs : List A) → length (remove a xs) ≤ length xs
  unfolding remove
  length-remove-le a [] = omega arith
  length-remove-le a (x ∷ xs) = ground (arith, length-remove-le a xs)

  -- What is left after `discard` is empty exactly when there was no other member.
  pub discard_empty :
      (a : A) (xs : List A)
      → (length (discard a xs) ≡ 0) ↔ ((b : A) → b ≢ a → contains b xs ≡ false)
  unfolding discard contains
  discard_empty a [] = ((λ h b ne. refl), λ h. refl)
  discard_empty a (x ∷ xs) = elim (Bool-cases (x == a)) [
    | inl same ↦ rw same (
      (λ h b ne. ground (arith, e.beq_iff x b, e.beq_iff x a, (discard_empty a xs).0 h b ne)),
      λ h. (discard_empty a xs).1 (λ b ne. ground (arith, h b ne)),
    )
    | inr other ↦ rw other (
      (λ h. absurd (omega arith)),
      λ h. absurd (ground (arith, h x (λ q. ground (arith, e.beq_iff x a)), e.beq_iff x x)),
    )
  ]

  pub no_members : (xs : List A) → (length xs ≡ 0) ↔ ((b : A) → contains b xs ≡ false)
  unfolding contains
  no_members [] = ((λ h b. refl), λ h. refl)
  no_members (x ∷ xs) =
      ((λ h. absurd (omega arith)), λ h. absurd (ground (arith, h x, e.beq_iff x x)))
