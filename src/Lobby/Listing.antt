-- ===== src/Lobby/Listing.antt =====
-- The list of rooms that `rooms_reply_lines` sends.
use nfs_most_wanted_online.Prelude.{
  ℕ, zero, suc, ◌≤◌, ◌≡◌, refl, ap, ◌∙◌, ◌⊎◌, inl, inr, ◌↔◌, List, [], ◌∷◌, All, In, arith, length,
  take, ltb, length-take, Bool-cases,
}
use nfs_most_wanted_online.Prelude.Dict.{values}
use nfs_most_wanted_online.Lobby.State.{FilterState, LobbyRoom, LobbyCore}
use nfs_most_wanted_online.Lobby.Replies.{insert_by, sorted_by, listed_rooms}

module _ {A : Type 0} (key : A → ℕ) where
  -- No element has a smaller number than one before it.
  abbrev pub IsAscending : List A → Type 0
  IsAscending [] = Unit
  IsAscending (x ∷ xs) = All (λ y. key x ≤ key y) xs × IsAscending xs

  All-later : (m n : ℕ) (xs : List A) → m ≤ n → All (λ y. n ≤ key y) xs → All (λ y. m ≤ key y) xs
  All-later m n [] h a = tt
  All-later m n (x ∷ xs) h a = (ground (arith, a.0), All-later m n xs h a.1)

  insert_by-All :
      (n : ℕ) (a : A) (xs : List A)
      → n ≤ key a
      → All (λ y. n ≤ key y) xs
      → All (λ y. n ≤ key y) (insert_by key a xs)
  unfolding insert_by
  insert_by-All n a [] h all = (h, tt)
  insert_by-All n a (x ∷ xs) h all = elim (Bool-cases (ltb (key x) (key a))) [
    | inl e ↦ rw e (all.0, insert_by-All n a xs h all.1)
    | inr e ↦ rw e (h, all)
  ]

  insert_by-IsAscending : (a : A) (xs : List A) → IsAscending xs → IsAscending (insert_by key a xs)
  unfolding insert_by
  insert_by-IsAscending a [] s = (tt, tt)
  insert_by-IsAscending a (x ∷ xs) s = elim (Bool-cases (ltb (key x) (key a))) [
    | inl e ↦ rw e (insert_by-All (key x) a xs (ground arith) s.0, insert_by-IsAscending a xs s.1)
    | inr e ↦
        rw e
          (let le : key a ≤ key x = ground arith in ((le, All-later (key a) (key x) xs le s.0), s))
  ]

  sorted_by-IsAscending : (xs : List A) → IsAscending (sorted_by key xs)
  unfolding sorted_by
  sorted_by-IsAscending [] = tt
  sorted_by-IsAscending (x ∷ xs) =
      insert_by-IsAscending x (sorted_by key xs) (sorted_by-IsAscending xs)

  In-insert_by : (a b : A) (xs : List A) → In b (insert_by key a xs) ↔ ((a ≡ b) ⊎ In b xs)
  unfolding insert_by
  In-insert_by a b [] = ((λ h. h), λ h. h)
  In-insert_by a b (x ∷ xs) =
      let rest = In-insert_by a b xs in
      elim (Bool-cases (ltb (key x) (key a))) [
        | inl e ↦ rw e (
          (λ h. elim h [
            | inl here ↦ inr (inl here)
            | inr later ↦ elim (rest.0 later) [ inl new ↦ inl new | inr old ↦ inr (inr old) ]
          ]),
          λ h. elim h [
            | inl new ↦ inr (rest.1 (inl new))
            | inr old ↦ elim old [ inl here ↦ inl here | inr later ↦ inr (rest.1 (inr later)) ]
          ],
        )
        | inr e ↦ rw e ((λ h. h), λ h. h)
      ]

  In-sorted_by : (b : A) (xs : List A) → In b (sorted_by key xs) ↔ In b xs
  unfolding sorted_by
  In-sorted_by b [] = ((λ h. h), λ h. h)
  In-sorted_by b (x ∷ xs) =
      let first = In-insert_by x b (sorted_by key xs) in
      let rest = In-sorted_by b xs in
      (
        (λ h. elim (first.0 h) [ inl here ↦ inl here | inr later ↦ inr (rest.0 later) ]),
        λ h. elim h [ inl here ↦ first.1 (inl here) | inr later ↦ first.1 (inr (rest.1 later)) ],
      )

  length-insert_by : (a : A) (xs : List A) → length (insert_by key a xs) ≡ suc (length xs)
  unfolding insert_by
  length-insert_by a [] = refl
  length-insert_by a (x ∷ xs) = ground (arith, length-insert_by a xs)

  length-sorted_by : (xs : List A) → length (sorted_by key xs) ≡ length xs
  unfolding sorted_by
  length-sorted_by [] = refl
  length-sorted_by (x ∷ xs) = length-insert_by x (sorted_by key xs) ∙ ap suc (length-sorted_by xs)

  take-All : (n m : ℕ) (xs : List A) → All (λ y. m ≤ key y) xs → All (λ y. m ≤ key y) (take n xs)
  take-All zero m xs a = tt
  take-All (suc n) m [] a = tt
  take-All (suc n) m (x ∷ xs) a = (a.0, take-All n m xs a.1)

  take-IsAscending : (n : ℕ) (xs : List A) → IsAscending xs → IsAscending (take n xs)
  take-IsAscending zero xs s = tt
  take-IsAscending (suc n) [] s = tt
  take-IsAscending (suc n) (x ∷ xs) s = (take-All n (key x) xs s.0, take-IsAscending n xs s.1)

take_all : {A : Type 0} (n : ℕ) (xs : List A) → length xs ≤ n → take n xs ≡ xs
take_all zero [] h = refl
take_all zero (x ∷ xs) h = absurd (omega arith)
take_all (suc n) [] h = refl
take_all (suc n) (x ∷ xs) h = ap (◌∷◌ x) (take_all n xs (omega arith))

-- The rooms are listed in the order of their identifiers, at most as many as the client has slots,
-- and if there are no more rooms than slots, exactly the rooms of the table are listed.
pub listed_rooms_effect :
    (l : LobbyCore) (state : FilterState)
    → IsAscending (λ (r : LobbyRoom). r.ident) (listed_rooms l state)
      × (length (listed_rooms l state) ≤ state.slots)
      × (length (values l.rooms_by_id) ≤ state.slots
          → (r : LobbyRoom) → In r (listed_rooms l state) ↔ In r (values l.rooms_by_id))
unfolding listed_rooms
listed_rooms_effect l state =
    let ident = λ (r : LobbyRoom). r.ident in
    let rooms = values l.rooms_by_id in
    let sorted = sorted_by ident rooms in
    (
      take-IsAscending ident state.slots sorted (sorted_by-IsAscending ident rooms),
      rw (length-take state.slots sorted) (omega arith),
      λ h r.
          let all = take_all state.slots sorted (rw (length-sorted_by ident rooms) h) in
          rw all (In-sorted_by ident r rooms),
    )
