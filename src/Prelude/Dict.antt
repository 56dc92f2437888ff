-- ===== src/Prelude/Dict.antt =====
-- Python's `dict`: the entries in order of insertion; a write to a key that is there keeps its place.
use Prim.Native.Nat.{◌+◌, ◌≤◌}
use mathlib.Core.Path.{◌≡◌, refl}
use mathlib.Core.Bool.{◌||◌}
use mathlib.Core.Option.{Option, none, some}
use mathlib.Core.Logic.{inl, inr}
use nfs_most_wanted_online.Prelude.Sets.{contains, Distinct}
use mathlib.Core.List.{List, [], ◌∷◌}
use native.Mathlib.Omega.{arith}
use nfs_most_wanted_online.Prelude.Tests.{if◌then◌else◌, is_some, Bool-cases}
use nfs_most_wanted_online.Prelude.Lists.{length, In, All}
use nfs_most_wanted_online.Prelude.Eq.{Eq, ◌==◌}

abbrev pub Dict {ℓ κ} : Type ℓ → Type κ → Type (ℓ ⊔ κ)
Dict K V = List (K × V)

abbrev pub keys {ℓ κ} : {K : Type ℓ} {V : Type κ} → Dict K V → List K
keys [] = []
keys ((k, v) ∷ d) = k ∷ keys d

abbrev pub values {ℓ κ} : {K : Type ℓ} {V : Type κ} → Dict K V → List V
values [] = []
values ((k, v) ∷ d) = v ∷ values d

module _ {ℓ κ} {K : Type ℓ} {V : Type κ} ⦃e : Eq K⦄ where
  -- `d.get(k)`
  unfoldable pub get : Dict K V → K → Option V
  get [] k = none
  get ((j, v) ∷ d) k = if j == k then some v else get d k

  -- `d[k] = v`
  unfoldable pub put : Dict K V → K → V → Dict K V
  put [] k v = (k, v) ∷ []
  put ((j, w) ∷ d) k v = if j == k then (k, v) ∷ d else (j, w) ∷ put d k v

  -- `d.pop(k, None)`, what stays
  unfoldable pub erase : Dict K V → K → Dict K V
  erase [] k = []
  erase ((j, w) ∷ d) k = let rest = erase d k in if j == k then rest else (j, w) ∷ rest

  pub get-put :
      (d : Dict K V) (k j : K) (v : V) → get (put d k v) j ≡ (if k == j then some v else get d j)
  unfolding get put
  get-put [] k j v = refl
  get-put ((i, w) ∷ d) k j v =
      ground (arith, e.beq_iff k j, e.beq_iff i k, e.beq_iff i j, get-put d k j v)

  pub get-erase : (d : Dict K V) (k j : K) → get (erase d k) j ≡ (if k == j then none else get d j)
  unfolding get erase
  get-erase [] k j = ground arith
  get-erase ((i, w) ∷ d) k j =
      ground (arith, e.beq_iff k j, e.beq_iff i k, e.beq_iff i j, get-erase d k j)

  pub length-put :
      (d : Dict K V) (k : K) (v : V)
      → length (put d k v) ≡ (if is_some (get d k) then length d else length d + 1)
  unfolding get put
  length-put [] k v = refl
  length-put ((i, w) ∷ d) k v = ground (arith, length-put d k v)

  pub length-put-le : (d : Dict K V) (k : K) (v : V) → length (put d k v) ≤ length d + 1
  length-put-le d k v = ground (arith, length-put d k v)

  pub length-erase-le : (d : Dict K V) (k : K) → length (erase d k) ≤ length d
  unfolding erase
  length-erase-le [] k = omega arith
  length-erase-le ((i, w) ∷ d) k = ground (arith, length-erase-le d k)

module _ {ℓ} {K : Type ℓ} {V : Type 0} ⦃e : Eq K⦄ where
  pub contains-keys : (k : K) (d : Dict K V) → contains k (keys d) ≡ is_some (get d k)
  unfolding contains get
  contains-keys k [] = refl
  contains-keys k ((j, v) ∷ d) = ground (arith, contains-keys k d)

  pub In-values : (k : K) (v : V) (d : Dict K V) → get d k ≡ some v → In v (values d)
  unfolding get
  In-values k v [] h = cc
  In-values k v ((j, w) ∷ d) h = elim (Bool-cases (j == k)) [
    | inl e ↦ inl (ground (arith, rw e at h))
    | inr e ↦ inr (In-values k v d (rw e at h))
  ]

-- Every entry that a lookup finds has the property.
abbrev pub Every {ℓ κ} :
    {K : Type ℓ} {V : Type κ} ⦃e : Eq K⦄ → (K → V → Type 0) → Dict K V → Type (ℓ ⊔ κ)
Every {K} {V} P d = (k : K) (v : V) → get d k ≡ some v → P k v

module _ {K V : Type 0} ⦃e : Eq K⦄ where
  pub put-Every :
      (P : K → V → Type 0) (d : Dict K V) (k : K) (v : V) → Every P d → P k v → Every P (put d k v)
  put-Every P d k v all h j w q = elim (Bool-cases (k == j)) [
    | inl same ↦
        (let kj : k ≡ j = (e.beq_iff k j).0 same in
          let vw : v ≡ w = ground (arith, get-put d k j v) in rw (← kj, ← vw) h)
    | inr other ↦ all j w (ground (arith, get-put d k j v))
  ]

  pub erase-Every : (P : K → V → Type 0) (d : Dict K V) (k : K) → Every P d → Every P (erase d k)
  erase-Every P d k all j w q = all j w (ground (arith, get-erase d k j))

-- The same, of the entries themselves, and of the values only.
module _ {K V : Type 0} ⦃e : Eq K⦄ (P : V → Type 0) where
  pub put-All : (d : Dict K V) (k : K) (v : V) → All P (values d) → P v → All P (values (put d k v))
  unfolding put
  put-All [] k v h p = (p, tt)
  put-All ((j, w) ∷ d) k v h p = ground (arith, put-All d k v h.1 p)

  pub erase-All : (d : Dict K V) (k : K) → All P (values d) → All P (values (erase d k))
  unfolding erase
  erase-All [] k h = tt
  erase-All ((j, w) ∷ d) k h = ground (arith, erase-All d k h.1)

  pub get-All : (d : Dict K V) (k : K) (v : V) → All P (values d) → get d k ≡ some v → P v
  unfolding get
  get-All [] k v h q = cc
  get-All ((j, w) ∷ d) k v h q = elim (Bool-cases (j == k)) [
    | inl same ↦ (let wv : w ≡ v = ground arith in rw (← wv) h.0)
    | inr other ↦ get-All d k v h.1 (ground arith)
  ]

-- A dictionary has each key once.
module _ {K : Type 0} {V : Type 0} ⦃e : Eq K⦄ where
  pub contains-keys-put :
      (d : Dict K V) (k j : K) (v : V)
      → contains j (keys (put d k v)) ≡ (k == j || contains j (keys d))
  unfolding contains put
  contains-keys-put [] k j v = refl
  contains-keys-put ((i, w) ∷ d) k j v =
      ground (arith, contains-keys-put d k j v, e.beq_iff i k, e.beq_iff i j, e.beq_iff k j)

  pub put-Distinct :
      (d : Dict K V) (k : K) (v : V) → Distinct (keys d) → Distinct (keys (put d k v))
  unfolding put
  put-Distinct [] k v h = (unfold contains in refl, tt)
  put-Distinct ((i, w) ∷ d) k v h =
      ground
        (arith, put-Distinct d k v h.1, contains-keys-put d k i v, e.beq_iff i k, e.beq_iff k i)

pub ruleset dict_laws = (get-put, get-erase)
