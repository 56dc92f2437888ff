-- ===== src/Matchmaking/Choice.antt =====
-- `find_best_room`: the room that it picks, and when there is none.
use nfs_most_wanted_online.Prelude.{
  ◌≡◌, refl, ◌≢◌, ◌⊎◌, ◌↔◌, inl, inr, true, false, not, ◌&&◌, Option, none, some, List, [], ◌∷◌,
  arith, Bool-cases, Option-cases, In,
}
use nfs_most_wanted_online.Prelude.Eq.{text_eq, text_beq, text_beq_iff}
use nfs_most_wanted_online.Prelude.Dict.{values}
use nfs_most_wanted_online.Prelude.Text.{Text, codes, strip, upper, truthy}
use nfs_most_wanted_online.Prelude.Int.{ℤ, pos, negsuc, ◌≤ℤ◌, ltb_ℤ, is_negative}
use nfs_most_wanted_online.Rooms
use nfs_most_wanted_online.Rooms.{Room, room_count}
use nfs_most_wanted_online.Matchmaking.{
  MatchCriteria, PlayModule, type_refused, score_room, best_room, find_best_room,
}

-- A room that may be picked: it is not full, and it is no refused choice.
pub record IsChoice (c : MatchCriteria) (r : Room) : Type 0 where
  pub free : Rooms.full r ≡ false
  pub scored : is_negative (score_room r c) ≡ false

-- The result is a room whose score is at least `s`.
abbrev Beats : MatchCriteria → Option Room → ℤ → Type 0
Beats c out s = (r : Room) × (out ≡ some r) × (s ≤ℤ score_room r c)

le-trans : (a b d : ℤ) → a ≤ℤ b → b ≤ℤ d → a ≤ℤ d
le-trans a b d h k = omega arith

ltb-trans : (a b d : ℤ) → ltb_ℤ a b ≡ true → b ≤ℤ d → a ≤ℤ d
ltb-trans a b d h k = ground arith

no_choice : (a : ℤ) → is_negative a ≡ false → ¬ (a ≤ℤ negsuc 0)
no_choice (pos n) h k = omega arith
no_choice (negsuc n) h k = cc

worse_score :
    (c : MatchCriteria) (score : ℤ) (x : Room)
    → IsChoice c x
    → (not (Rooms.full x) && not (is_negative (score_room x c)) && ltb_ℤ score (score_room x c))
      ≡ false
    → score_room x c ≤ℤ score
worse_score c score x ch h = ground (arith, ch.free, ch.scored)

-- One round of the loop: the room replaces the best one so far, or it does not.
best_room_cases :
    (P : Option Room → Type 0) (c : MatchCriteria) (best : Option Room) (score : ℤ) (x : Room)
    (rooms : List Room)
    → (IsChoice c x
        → ltb_ℤ score (score_room x c) ≡ true
        → P (best_room c (some x) (score_room x c) rooms))
    → ((IsChoice c x → score_room x c ≤ℤ score) → P (best_room c best score rooms))
    → P (best_room c best score (x ∷ rooms))
unfolding best_room
best_room_cases P c best score x rooms taken passed =
    elim (Bool-cases
      (not (Rooms.full x) && not (is_negative (score_room x c)) && ltb_ℤ score (score_room x c))) [
        | inl better ↦
            rw better (taken (record { free = ground arith; scored = ground arith }) (ground arith))
        | inr worse ↦ rw worse (passed (λ ch. worse_score c score x ch worse))
      ]

best_room-grows :
    (c : MatchCriteria) (b : Room) (rooms : List Room)
    → Beats c (best_room c (some b) (score_room b c) rooms) (score_room b c)
unfolding best_room
best_room-grows c b [] = (b, refl, omega arith)
best_room-grows c b (x ∷ rooms) =
    best_room_cases (λ out. Beats c out (score_room b c)) c (some b) (score_room b c) x rooms
      (λ ch better.
        let g = best_room-grows c x rooms in
        (g.0, g.1, ltb-trans (score_room b c) (score_room x c) (score_room g.0 c) better g.2))
      (λ _. best_room-grows c b rooms)

-- The two variables of the loop belong together.
abbrev Holds : MatchCriteria → Option Room → ℤ → Type 0
Holds c best score =
    ((best ≡ none) × (score ≡ negsuc 0)) ⊎ ((b : Room) × (best ≡ some b) × (score ≡ score_room b c))

kept :
    (c : MatchCriteria) (best : Option Room) (score : ℤ) (y : Room) (rooms : List Room)
    → Holds c best score
    → IsChoice c y
    → score_room y c ≤ℤ score
    → Beats c (best_room c best score rooms) (score_room y c)
kept c best score y rooms (inl h) ch le =
    absurd (no_choice (score_room y c) ch.scored (rw h.1 at le))
kept c best score y rooms (inr (b, e, s)) ch le =
    rw (e, s)
      (let g = best_room-grows c b rooms in
        (g.0, g.1, le-trans (score_room y c) (score_room b c) (score_room g.0 c) (rw s at le) g.2))

best_room-Beats :
    (c : MatchCriteria) (best : Option Room) (score : ℤ) (rooms : List Room)
    → Holds c best score
    → (x : Room) → In x rooms
    → IsChoice c x
    → Beats c (best_room c best score rooms) (score_room x c)
unfolding best_room
best_room-Beats c best score [] h x i ch = absurd i
best_room-Beats c best score (y ∷ rooms) h x (inl e) ch = rw (← e) (
    best_room_cases (λ out. Beats c out (score_room y c)) c best score y rooms
      (λ _ _. best_room-grows c y rooms)
      (λ passed. kept c best score y rooms h (rw (← e) at ch) (passed (rw (← e) at ch))))
best_room-Beats c best score (y ∷ rooms) h x (inr i) ch =
    best_room_cases (λ out. Beats c out (score_room x c)) c best score y rooms
      (λ _ _. best_room-Beats c (some y) (score_room y c) rooms (inr (y, refl, refl)) x i ch)
      (λ _. best_room-Beats c best score rooms h x i ch)

came_from :
    (c : MatchCriteria) (y r : Room) (rooms : List Room) (before : Option Room)
    → IsChoice c y
    → (some y ≡ some r) ⊎ (In r rooms × IsChoice c r)
    → (before ≡ some r) ⊎ (In r (y ∷ rooms) × IsChoice c r)
came_from c y r rooms before ch (inl e) =
    let yr : y ≡ r = ground arith in inr (inl yr, rw (← yr) ch)
came_from c y r rooms before ch (inr (i, k)) = inr (inr i, k)

came_later :
    (c : MatchCriteria) (y r : Room) (rooms : List Room) (best : Option Room)
    → (best ≡ some r) ⊎ (In r rooms × IsChoice c r)
    → (best ≡ some r) ⊎ (In r (y ∷ rooms) × IsChoice c r)
came_later c y r rooms best (inl e) = inl e
came_later c y r rooms best (inr (i, k)) = inr (inr i, k)

best_room-source :
    (c : MatchCriteria) (best : Option Room) (score : ℤ) (rooms : List Room) (r : Room)
    → best_room c best score rooms ≡ some r
    → (best ≡ some r) ⊎ (In r rooms × IsChoice c r)
unfolding best_room
best_room-source c best score [] r = λ h. inl h
best_room-source c best score (y ∷ rooms) r =
    best_room_cases (λ out. out ≡ some r → (best ≡ some r) ⊎ (In r (y ∷ rooms) × IsChoice c r)) c
      best score y rooms
      (λ ch _ h.
        came_from c y r rooms best ch (best_room-source c (some y) (score_room y c) rooms r h))
      (λ _ h. came_later c y r rooms best (best_room-source c best score rooms r h))

found :
    (c : MatchCriteria) (rooms : List Room) (r : Room)
    → best_room c none (negsuc 0) rooms ≡ some r
    → In r rooms × IsChoice c r
found c rooms r e = elim (best_room-source c none (negsuc 0) rooms r e) [ inl h ↦ cc | inr h ↦ h ]

-- A search for a room picks one that may be picked and scores as high as any such room, or finds none
-- because there is no such room.
pub find_best_room_optimal :
    (m : PlayModule) (c : MatchCriteria)
    → ((find_best_room m c ≡ none) × ((x : Room) → In x (values m.rooms.rooms) → ¬ IsChoice c x))
      ⊎ ((r : Room) × (find_best_room m c ≡ some r.id)
          × In r (values m.rooms.rooms)
          × IsChoice c r
          × ((x : Room)
              → In x (values m.rooms.rooms)
              → IsChoice c x
              → score_room x c ≤ℤ score_room r c))
unfolding find_best_room
find_best_room_optimal m c =
    let rooms = values m.rooms.rooms in
    let beats = best_room-Beats c none (negsuc 0) rooms (inl (refl, refl)) in
    elim (Option-cases (best_room c none (negsuc 0) rooms)) [
      | inl e ↦ inl (rw e refl, λ x i ch. cc (e, (beats x i ch).1))
      | inr (r, e) ↦ inr (
        r,
        rw e refl,
        (found c rooms r e).0,
        (found c rooms r e).1,
        λ x i ch. let b = beats x i ch in let br : b.0 ≡ r = ground (arith, b.1) in rw br at b.2,
      )
    ]

-- No type is wanted, or the room has none, or the wanted type is the room's or a word for any type.
abbrev pub WantsType : Text → Text → Type 0
WantsType wanted offered =
    (wanted ≡ [])
    ⊎ (offered ≡ [])
    ⊎ (wanted ≡ offered)
    ⊎ (wanted ≡ codes "ANY")
    ⊎ (wanted ≡ codes "ALL")

type_refused_iff : (w o : Text) → (type_refused w o ≡ false) ↔ WantsType w o
type_refused_iff [] o = ((λ h. inl refl), λ h. refl)
type_refused_iff (x ∷ w) [] = ((λ h. inr (inl refl)), λ h. refl)
type_refused_iff (x ∷ w) (y ∷ o) = (
  (λ h. elim (Bool-cases (text_beq (x ∷ w) (y ∷ o))) [
    | inl e ↦ inr (inr (inl ((text_beq_iff (x ∷ w) (y ∷ o)).0 e)))
    | inr n ↦ elim (Bool-cases (text_beq (x ∷ w) (codes "ANY"))) [
      | inl e ↦ inr (inr (inr (inl ((text_beq_iff (x ∷ w) (codes "ANY")).0 e))))
      | inr k ↦ inr (inr (inr (inr ((text_beq_iff (x ∷ w) (codes "ALL")).0 (ground arith)))))
    ]
  ]),
  wanted,
)
  where
    wanted : WantsType (x ∷ w) (y ∷ o) → type_refused (x ∷ w) (y ∷ o) ≡ false
    wanted (inl e) = cc
    wanted (inr (inl e)) = cc
    wanted (inr (inr (inl e))) = ground (arith, text_beq_iff (x ∷ w) (y ∷ o))
    wanted (inr (inr (inr (inl e)))) = ground (arith, text_beq_iff (x ∷ w) (codes "ANY"))
    wanted (inr (inr (inr (inr e)))) = ground (arith, text_beq_iff (x ∷ w) (codes "ALL"))

secret_known : (s t : Text) → s ≢ [] → (truthy s && not (text_beq t s)) ≡ false → t ≡ s
secret_known [] t n h = absurd (n refl)
secret_known (x ∷ s) t n h = ground (arith, text_beq_iff t (x ∷ s))

secret_passed : (s t : Text) → (s ≢ [] → t ≡ s) → (truthy s && not (text_beq t s)) ≡ false
secret_passed [] t h = refl
secret_passed (x ∷ s) t h = let e = h (λ q. cc) in ground (arith, text_beq_iff t (x ∷ s))

accepted :
    (r : Room) (c : MatchCriteria)
    → (r.private ≡ true → c.allow_private ≡ true)
    → (truthy r.secret && not (text_beq c.password r.secret)) ≡ false
    → (c.require_matched ≡ true → r.matched ≡ true)
    → type_refused (upper (strip c.game_type)) (upper (strip r.type)) ≡ false
    → is_negative (score_room r c) ≡ false
unfolding score_room
accepted r c p s q t = ground arith

-- A room is accepted by its score exactly when it is not private or private rooms are allowed, it has
-- no password or the one given, it is matched if it has to be, and its type is wanted.
pub score_room_iff :
    (r : Room) (c : MatchCriteria)
    → (is_negative (score_room r c) ≡ false) ↔ (
        (r.private ≡ true → c.allow_private ≡ true)
        × (r.secret ≢ [] → c.password ≡ r.secret)
        × (c.require_matched ≡ true → r.matched ≡ true)
        × WantsType (upper (strip c.game_type)) (upper (strip r.type)))
unfolding score_room
score_room_iff r c =
    let wanted = type_refused_iff (upper (strip c.game_type)) (upper (strip r.type)) in
    (
      (λ h. (
        (λ p. ground arith),
        (λ n. secret_known r.secret c.password n (ground arith)),
        (λ p. ground arith),
        wanted.0 (ground arith),
      )),
      λ h. accepted r c h.0 (secret_passed r.secret c.password h.1) h.2 (wanted.1 h.3),
    )
