-- ===== src/Matchmaking/Pairing.antt =====
-- The pairing of the queue: its pairs fit, share nobody, and leave no two entries that fit.
use nfs_most_wanted_online.Prelude.{
  ℕ, ◌≤◌, ◌≡◌, refl, ◌≢◌, inl, inr, true, false, ◌||◌, none, some, List, [], ◌∷◌, ap, ◌∙◌, arith,
  Bool-cases, Option-cases, All, In,
}
use nfs_most_wanted_online.Prelude.Eq.{◌==◌, nat_eq}
use nfs_most_wanted_online.Prelude.Sets.{contains, add, contains-add, Distinct}
use nfs_most_wanted_online.Matchmaking.{QueueEntry, compatible, find_partner, pair_with, pair_up}

abbrev pub uids : List QueueEntry → List ℕ
uids [] = []
uids (e ∷ q) = e.uid ∷ uids q

-- The uids of the entries that were paired.
abbrev pub pair_uids : List (QueueEntry × QueueEntry) → List ℕ
pair_uids [] = []
pair_uids ((a, b) ∷ pairs) = a.uid ∷ b.uid ∷ pair_uids pairs

In-uids : (b : QueueEntry) (q : List QueueEntry) → In b q → contains b.uid (uids q) ≡ true
unfolding contains
In-uids b [] h = absurd h
In-uids b (a ∷ q) (inl e) = ground arith
In-uids b (a ∷ q) (inr i) = ground (arith, In-uids b q i)

abbrev Fits : List ℕ → QueueEntry → List QueueEntry → QueueEntry → Type 0
Fits used a later b = In b later × (contains b.uid used ≡ false) × (compatible a b ≡ true)

find_partner-some :
    (used : List ℕ) (a b : QueueEntry) (later : List QueueEntry)
    → find_partner used a later ≡ some b
    → Fits used a later b
unfolding find_partner
find_partner-some used a b [] h = cc
find_partner-some used a b (c ∷ later) h = elim (Bool-cases (contains c.uid used)) [
  | inl taken ↦ (let r = find_partner-some used a b later (ground arith) in (inr r.0, r.1, r.2))
  | inr free ↦ elim (Bool-cases (compatible a c)) [
    | inl fits ↦ (let cb : c ≡ b = ground arith in (inl cb, rw (← cb) free, rw (← cb) fits))
    | inr unfit ↦ (let r = find_partner-some used a b later (ground arith) in (inr r.0, r.1, r.2))
  ]
]

find_partner-none :
    (used : List ℕ) (a : QueueEntry) (later : List QueueEntry)
    → find_partner used a later ≡ none
    → (y : QueueEntry) → In y later
    → contains y.uid used ≡ false
    → compatible a y ≡ false
unfolding find_partner
find_partner-none used a [] h y i f = absurd i
find_partner-none used a (c ∷ later) h y (inl e) f =
    rw (← e) (let f' = rw (← e) at f in ground arith)
find_partner-none used a (c ∷ later) h y (inr i) f =
    find_partner-none used a later (ground arith) y i f

compatible_comm : (a b : QueueEntry) → compatible a b ≡ compatible b a
unfolding compatible
compatible_comm a b = ground arith

-- What `pair_up` does with its first entry.
pair_up_cases :
    (P : List (QueueEntry × QueueEntry) → Type 0) (used : List ℕ) (a : QueueEntry)
    (later : List QueueEntry)
    → (contains a.uid used ≡ true → P (pair_up used later))
    → (contains a.uid used ≡ false → find_partner used a later ≡ none → P (pair_up used later))
    → ((b : QueueEntry)
        → contains a.uid used ≡ false
        → Fits used a later b
        → P ((a, b) ∷ pair_up (add b.uid (add a.uid used)) later))
    → P (pair_up used (a ∷ later))
unfolding pair_up
pair_up_cases P used a later skip alone paired = elim (Bool-cases (contains a.uid used)) [
  | inl taken ↦ rw (taken, pair_up) (skip taken)
  | inr free ↦
      rw (free, pair_up)
        (elim (Option-cases (find_partner used a later)) [
          | inl e ↦ rw (e, pair_with) (alone free e)
          | inr (b, e) ↦ rw (e, pair_with) (paired b free (find_partner-some used a b later e))
        ])
]

abbrev pub FitsPair : QueueEntry × QueueEntry → Type 0
FitsPair (a, b) =
    (a.criteria.skill_min ≤ b.criteria.skill_max)
    × (b.criteria.skill_min ≤ a.criteria.skill_max)
    × (50 ≤ a.criteria.ping_max)
    × (50 ≤ b.criteria.ping_max)

compatible-FitsPair : (a b : QueueEntry) → compatible a b ≡ true → FitsPair (a, b)
unfolding compatible
compatible-FitsPair a b h = (ground arith, ground arith, ground arith, ground arith)

-- Every pair that is made fits: the skill ranges overlap and both accept a ping of 50 or more.
pub pair_up-FitsPair : (used : List ℕ) (q : List QueueEntry) → All FitsPair (pair_up used q)
unfolding pair_up
pair_up-FitsPair used [] = tt
pair_up-FitsPair used (a ∷ later) =
    pair_up_cases (All FitsPair) used a later (λ _. pair_up-FitsPair used later)
      (λ _ _. pair_up-FitsPair used later)
      (λ b _ f. (compatible-FitsPair a b f.2, pair_up-FitsPair (add b.uid (add a.uid used)) later))

-- Nobody who is used already is paired, and nobody is paired twice.
abbrev Fresh : List ℕ → List (QueueEntry × QueueEntry) → Type 0
Fresh used pairs =
    Distinct (pair_uids pairs)
    × ((u : ℕ) → contains u used ≡ true → contains u (pair_uids pairs) ≡ false)

extend-Fresh :
    (used : List ℕ) (a b : QueueEntry) (pairs : List (QueueEntry × QueueEntry))
    → contains a.uid used ≡ false
    → contains b.uid used ≡ false
    → a.uid ≢ b.uid
    → Fresh (add b.uid (add a.uid used)) pairs
    → Fresh used ((a, b) ∷ pairs)
unfolding contains
extend-Fresh used a b pairs fa fb ne r =
    let now_used = λ (u : ℕ).
      contains-add b.uid u (add a.uid used) ∙ ap (◌||◌ (b.uid == u)) (contains-add a.uid u used) in
    (
      (ground (arith, r.1 a.uid, now_used a.uid), (ground (arith, r.1 b.uid, now_used b.uid), r.0)),
      λ u h. ground (arith, r.1 u, now_used u),
    )

apart :
    (a b : QueueEntry) (q : List QueueEntry)
    → contains a.uid (uids q) ≡ false
    → In b q
    → a.uid ≢ b.uid
apart a b q h i e = ground (arith, In-uids b q i)

pair_up-Fresh :
    (used : List ℕ) (q : List QueueEntry) → Distinct (uids q) → Fresh used (pair_up used q)
unfolding pair_up
pair_up-Fresh used [] d = (tt, unfold contains in λ u h. refl)
pair_up-Fresh used (a ∷ later) d =
    pair_up_cases (Fresh used) used a later (λ _. pair_up-Fresh used later d.1)
      (λ _ _. pair_up-Fresh used later d.1)
      (λ b free f.
        extend-Fresh used a b _ free f.1 (apart a b later d.0 f.0)
          (pair_up-Fresh (add b.uid (add a.uid used)) later d.1))

-- If everybody is queued once, the pairs that a round makes share nobody.
pub pair_up-Distinct :
    (q : List QueueEntry) → Distinct (uids q) → Distinct (pair_uids (pair_up [] q))
pair_up-Distinct q d = (pair_up-Fresh [] q d).0

-- Two entries that were left out do not fit.
abbrev LeftOut : List ℕ → List (QueueEntry × QueueEntry) → QueueEntry → Type 0
LeftOut used pairs x = (contains x.uid used ≡ false) × (contains x.uid (pair_uids pairs) ≡ false)

abbrev Exhausted : List ℕ → List QueueEntry → List (QueueEntry × QueueEntry) → Type 0
Exhausted used q pairs =
    (x y : QueueEntry)
    → In x q
    → In y q
    → x.uid ≢ y.uid
    → LeftOut used pairs x
    → LeftOut used pairs y
    → compatible x y ≡ false

skip-Exhausted :
    (used : List ℕ) (a : QueueEntry) (later : List QueueEntry)
    (pairs : List (QueueEntry × QueueEntry))
    → contains a.uid used ≡ true
    → Exhausted used later pairs
    → Exhausted used (a ∷ later) pairs
skip-Exhausted used a later pairs taken h x y (inl e) j ne lx ly = absurd (ground arith)
skip-Exhausted used a later pairs taken h x y (inr i) (inl e) ne lx ly = absurd (ground arith)
skip-Exhausted used a later pairs taken h x y (inr i) (inr j) ne lx ly = h x y i j ne lx ly

alone-Exhausted :
    (used : List ℕ) (a : QueueEntry) (later : List QueueEntry)
    (pairs : List (QueueEntry × QueueEntry))
    → find_partner used a later ≡ none
    → Exhausted used later pairs
    → Exhausted used (a ∷ later) pairs
alone-Exhausted used a later pairs e h x y (inl i) (inl j) ne lx ly = absurd (ground arith)
alone-Exhausted used a later pairs e h x y (inl i) (inr j) ne lx ly =
    rw (← i) (find_partner-none used a later e y j ly.0)
alone-Exhausted used a later pairs e h x y (inr i) (inl j) ne lx ly =
    rw (← j) (compatible_comm x a ∙ find_partner-none used a later e x i lx.0)
alone-Exhausted used a later pairs e h x y (inr i) (inr j) ne lx ly = h x y i j ne lx ly

-- What is left out beside a new pair was left out with its two uids used.
unused :
    (used : List ℕ) (a b x : QueueEntry) (pairs : List (QueueEntry × QueueEntry))
    → LeftOut used ((a, b) ∷ pairs) x
    → LeftOut (add b.uid (add a.uid used)) pairs x
unfolding contains
unused used a b x pairs l =
    ground (arith, contains-add b.uid x.uid (add a.uid used), contains-add a.uid x.uid used)

paired-Exhausted :
    (used : List ℕ) (a b : QueueEntry) (later : List QueueEntry)
    (pairs : List (QueueEntry × QueueEntry))
    → Exhausted (add b.uid (add a.uid used)) later pairs
    → Exhausted used (a ∷ later) ((a, b) ∷ pairs)
unfolding contains
paired-Exhausted used a b later pairs h x y (inl i) j ne lx ly = absurd (ground arith)
paired-Exhausted used a b later pairs h x y (inr i) (inl j) ne lx ly = absurd (ground arith)
paired-Exhausted used a b later pairs h x y (inr i) (inr j) ne lx ly =
    h x y i j ne (unused used a b x pairs lx) (unused used a b y pairs ly)

pair_up-Exhausted : (used : List ℕ) (q : List QueueEntry) → Exhausted used q (pair_up used q)
unfolding pair_up
pair_up-Exhausted used [] = λ x y i. absurd i
pair_up-Exhausted used (a ∷ later) =
    pair_up_cases (Exhausted used (a ∷ later)) used a later
      (λ taken. skip-Exhausted used a later _ taken (pair_up-Exhausted used later))
      (λ _ e. alone-Exhausted used a later _ e (pair_up-Exhausted used later))
      (λ b _ _.
        paired-Exhausted used a b later _ (pair_up-Exhausted (add b.uid (add a.uid used)) later))

-- A round of pairing leaves no two users waiting who fit each other.
pub pair_up_maximal :
    (q : List QueueEntry) (x y : QueueEntry)
    → In x q
    → In y q
    → x.uid ≢ y.uid
    → contains x.uid (pair_uids (pair_up [] q)) ≡ false
    → contains y.uid (pair_uids (pair_up [] q)) ≡ false
    → compatible x y ≡ false
pair_up_maximal q x y i j ne hx hy =
    pair_up-Exhausted [] q x y i j ne (unfold contains in refl, hx) (unfold contains in refl, hy)
