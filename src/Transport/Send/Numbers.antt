-- ===== src/Transport/Send/Numbers.antt =====
-- internal/transport/sender.go: a number of a sent state stands for one state of the user's input, cut
-- at the front by `rationalizeStates` but never changed.
use gosh.Base.Prefixes.{
  IsPrefix-refl, IsPrefix, append-drop_prefix, get_elem?-append, get_elem?-snoc, drop-snoc,
}
use gosh.Base.{
  ◌<◌, ℕ, suc, ◌+◌, ◌-◌, List, [], ◌∷◌, ◌++◌, map, append_assoc, length, length-append, take, drop,
  get_elem?, All, ltb, Bool-cases, inl, inr, some, ◌≡◌, refl, sym, ap, subst, ◌∙◌, arith,
}
use gosh.Wire.Messages.{UserEvent}
use gosh.Statesync.UserStream.{subtract}
use gosh.Transport.Sender.{Sender, TimestampedState, state_at, back, rationalize_states}
use gosh.Transport.Send.{add_sent_state, touch_back}
use gosh.Transport.Send.Chain.{IsChain, All-snoc, All-erase}

-- The states that the numbers from 0 on stand for.
abbrev pub History : Type 0
History = List (List UserEvent)

-- The state is what its number stands for, without the events that have been cut.
abbrev pub Means : History → List UserEvent → TimestampedState → Type 0
Means hist cut x = get_elem? hist x.num ≡ some (cut ++ x.state.events)

abbrev pub EndsWith : List TimestampedState → TimestampedState → Type 0
EndsWith xs y = (front : List TimestampedState) × (xs ≡ front ++ y ∷ [])

-- Each sent state is what its number stands for, and the last one has the last number.
abbrev pub AreNumbered : History → List UserEvent → List TimestampedState → Type 0
AreNumbered hist cut xs =
    All (Means hist cut) xs × (y : TimestampedState) × EndsWith xs y × (length hist ≡ y.num + 1)

abbrev pub IsNumbered : History → List UserEvent → Sender → Type 0
IsNumbered hist cut s = AreNumbered hist cut s.sent_states

state_at-length :
    (front : List TimestampedState) (y : TimestampedState)
    → state_at (front ++ y ∷ []) (length front) ≡ y
unfolding state_at
state_at-length [] y = refl
state_at-length (x ∷ front) y = state_at-length front y

state_at-last :
    (front : List TimestampedState) (y : TimestampedState)
    → state_at (front ++ y ∷ []) (length (front ++ y ∷ []) - 1) ≡ y
state_at-last front y =
    let last : length (front ++ y ∷ []) - 1 ≡ length front =
      omega (arith, length-append front (y ∷ [])) in
    ap (state_at (front ++ y ∷ [])) last ∙ state_at-length front y

pub back-EndsWith : (s : Sender) (y : TimestampedState) → EndsWith s.sent_states y → back s ≡ y
back-EndsWith s y (front, e) = ap (λ xs. state_at xs (length xs - 1)) e ∙ state_at-last front y

All-Means-extend :
    (hist more : History) (cut : List UserEvent) (xs : List TimestampedState)
    → All (Means hist cut) xs
    → All (Means (hist ++ more) cut) xs
All-Means-extend hist more cut [] h = tt
All-Means-extend hist more cut (x ∷ xs) (p, h) =
    (get_elem?-append hist more x.num p, All-Means-extend hist more cut xs h)

-- A new state is sent, under the number behind the last.
AreNumbered-snoc :
    (hist : History) (cut : List UserEvent) (xs : List TimestampedState) (y : TimestampedState)
    → AreNumbered hist cut xs
    → y.num ≡ length hist
    → AreNumbered (hist ++ (cut ++ y.state.events) ∷ []) cut (xs ++ y ∷ [])
AreNumbered-snoc hist cut xs y (h, _, _, _) e =
    let whole = cut ++ y.state.events in
    (
      All-snoc (Means (hist ++ whole ∷ []) cut) xs y (All-Means-extend hist (whole ∷ []) cut xs h)
          (rw e (get_elem?-snoc hist whole)),
      y,
      (xs, refl),
      length-append hist (whole ∷ []) ∙ ap (λ n. n + 1) (sym e),
    )

-- One of the older states is taken out.
AreNumbered-erase :
    (hist : History) (cut : List UserEvent) (k : ℕ) (xs : List TimestampedState)
    → AreNumbered hist cut xs
    → k + 1 < length xs
    → AreNumbered hist cut (take k xs ++ drop (k + 1) xs)
AreNumbered-erase hist cut k xs (h, y, (front, e), n) small = (
  subst (λ m. All (Means hist cut) (take k xs ++ drop m xs)) {x = suc k} (omega arith)
      (All-erase (Means hist cut) k xs h),
  y,
  (
    take k xs ++ drop (k + 1) front,
    ap (λ l. take k xs ++ drop (k + 1) l) e
        ∙ ap (λ l. take k xs ++ l)
            (drop-snoc (k + 1) front y
              (omega (arith, ap (length {A = TimestampedState}) e, length-append front (y ∷ []))))
        ∙ sym (append_assoc (take k xs) (drop (k + 1) front) (y ∷ [])),
  ),
  n,
)

pub add_sent_state-IsNumbered :
    (hist : History) (cut : List UserEvent) (s : Sender) (now num : ℕ)
    → IsNumbered hist cut s
    → num ≡ length hist
    → IsNumbered (hist ++ (cut ++ s.current_state.events) ∷ []) cut (add_sent_state s now num)
unfolding add_sent_state
add_sent_state-IsNumbered hist cut s now num h e =
    let sent : TimestampedState = record { sent_at = now; num = num; state = s.current_state } in
    let states = s.sent_states ++ sent ∷ [] in
    let grown = AreNumbered-snoc hist cut s.sent_states sent h e in
    elim (Bool-cases (ltb 32 (length states))) [
      | inl many ↦ rw many (
          AreNumbered-erase (hist ++ (cut ++ s.current_state.events) ∷ []) cut (length states - 16)
            states grown (ground arith))
      | inr few ↦ rw few grown
    ]

touch_back-snoc :
    (front : List TimestampedState) (y : TimestampedState) (now : ℕ)
    → touch_back (front ++ y ∷ []) now ≡ front ++ record y { sent_at = now } ∷ []
unfolding touch_back
touch_back-snoc [] y now = refl
touch_back-snoc (x ∷ []) y now = refl
touch_back-snoc (x ∷ x' ∷ front) y now = ap (◌∷◌ x) (touch_back-snoc (x' ∷ front) y now)

All-touch_back :
    (hist : History) (cut : List UserEvent) (xs : List TimestampedState) (now : ℕ)
    → All (Means hist cut) xs
    → All (Means hist cut) (touch_back xs now)
unfolding touch_back
All-touch_back hist cut [] now h = tt
All-touch_back hist cut (x ∷ []) now h = h
All-touch_back hist cut (x ∷ y ∷ xs) now (p, h) = (p, All-touch_back hist cut (y ∷ xs) now h)

pub AreNumbered-touch_back :
    (hist : History) (cut : List UserEvent) (xs : List TimestampedState) (now : ℕ)
    → AreNumbered hist cut xs
    → AreNumbered hist cut (touch_back xs now)
AreNumbered-touch_back hist cut xs now (h, y, (front, e), n) = (
  All-touch_back hist cut xs now h,
  record y { sent_at = now },
  (front, ap (λ l. touch_back l now) e ∙ touch_back-snoc front y now),
  n,
)

-- What the front state holds is cut from all, and counted as cut.
All-Means-cut :
    (hist : History) (cut known : List UserEvent) (xs : List TimestampedState)
    → All (Means hist cut) xs
    → All (λ x. IsPrefix known x.state.events) xs
    → All (Means hist (cut ++ known)) (
        map {A = TimestampedState}
          (λ x. record x { state = subtract x.state (record { events = known }) })
          xs)
unfolding subtract
All-Means-cut hist cut known [] h p = tt
All-Means-cut hist cut known (x ∷ xs) (m, h) (q, p) = (
  m
      ∙ ap (λ l. some (cut ++ l)) (sym (append-drop_prefix known x.state.events q))
      ∙ ap some (sym (append_assoc cut known (drop (length known) x.state.events))),
  All-Means-cut hist cut known xs h p,
)

map-snoc :
    (f : TimestampedState → TimestampedState) (front : List TimestampedState) (y : TimestampedState)
    → map f (front ++ y ∷ []) ≡ map f front ++ f y ∷ []
map-snoc f [] y = refl
map-snoc f (x ∷ front) y = ap (◌∷◌ (f x)) (map-snoc f front y)

front-begins :
    (xs : List TimestampedState) (now : List UserEvent)
    → IsChain xs now
    → All (λ x. IsPrefix (state_at xs 0).state.events x.state.events) xs
unfolding state_at
front-begins [] now h = tt
front-begins (x ∷ xs) now (p, b, h) = (IsPrefix-refl x.state.events, b)

pub rationalize_states-IsNumbered :
    (hist : History) (cut : List UserEvent) (s : Sender)
    → IsChain s.sent_states s.current_state.events
    → IsNumbered hist cut s
    → IsNumbered hist (cut ++ (state_at s.sent_states 0).state.events) (rationalize_states s)
unfolding rationalize_states subtract
rationalize_states-IsNumbered hist cut s chain (h, y, (front, e), n) =
    let known = (state_at s.sent_states 0).state in
    let f : TimestampedState → TimestampedState =
      λ x. record x { state = subtract x.state known } in
    (
      All-Means-cut hist cut known.events s.sent_states h
          (front-begins s.sent_states s.current_state.events chain),
      f y,
      (map f front, ap (map f) e ∙ map-snoc f front y),
      n,
    )
