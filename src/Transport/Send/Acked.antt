-- ===== src/Transport/Send/Acked.antt =====
-- internal/transport/sender.go: an acknowledgment leaves the numbers of the states that are kept.
use gosh.Transport.Send.Numbers.{History, Means, EndsWith, IsNumbered}
use gosh.Base.{
  Option-cases, none, Option, ℕ, List, [], ◌∷◌, ◌++◌, All, ◌==◌, Bool-cases, inl, inr, some, ◌≡◌,
  refl, sym, ap, subst, ◌∙◌,
}
use gosh.Transport.Send.{process_acknowledgment_through, acknowledged}
use gosh.Wire.Messages.{UserEvent}
use gosh.Transport.Sender.{Sender, TimestampedState}

acknowledged-EndsWith :
    (ack : ℕ) (front kept : List TimestampedState) (y : TimestampedState)
    → acknowledged ack (front ++ y ∷ []) ≡ some kept
    → EndsWith kept y
unfolding acknowledged
acknowledged-EndsWith ack [] kept y e = elim (Bool-cases (y.num == ack)) [
  | inl q ↦ let found : some (y ∷ []) ≡ some kept = sym (rw q refl) ∙ e in ([], cc)
  | inr q ↦
      let never : Path (Option (List TimestampedState)) none (some kept) = sym (rw q refl) ∙ e in
      absurd cc
]
acknowledged-EndsWith ack (x ∷ front) kept y e = elim (Bool-cases (x.num == ack)) [
  | inl q ↦
      let found : some (x ∷ (front ++ y ∷ [])) ≡ some kept = sym (rw q refl) ∙ e in (x ∷ front, cc)
  | inr q ↦ acknowledged-EndsWith ack front kept y (sym (rw q refl) ∙ e)
]

acknowledged-All :
    (P : TimestampedState → Type 0) (ack : ℕ) (xs kept : List TimestampedState)
    → acknowledged ack xs ≡ some kept
    → All P xs
    → All P kept
unfolding acknowledged
acknowledged-All P ack [] kept e h = absurd cc
acknowledged-All P ack (x ∷ xs) kept e h = elim (Bool-cases (x.num == ack)) [
  | inl q ↦
      let found : some (x ∷ xs) ≡ some kept = sym (rw q refl) ∙ e in
      subst (All P) {x = x ∷ xs} (cc) h
  | inr q ↦ acknowledged-All P ack xs kept (sym (rw q refl) ∙ e) h.1
]

pub acknowledgment-IsNumbered :
    (hist : History) (cut : List UserEvent) (s : Sender) (ack : ℕ)
    → IsNumbered hist cut s
    → IsNumbered hist cut (process_acknowledgment_through s ack)
unfolding process_acknowledgment_through
acknowledgment-IsNumbered hist cut s ack (h, y, (front, e), n) =
    elim (Option-cases (acknowledged ack s.sent_states)) [
      | inl q ↦ rw q (h, y, (front, e), n)
      | inr (kept, q) ↦ rw q (
        acknowledged-All (Means hist cut) ack s.sent_states kept q h,
        y,
        acknowledged-EndsWith ack front kept y (ap (acknowledged ack) (sym e) ∙ q),
        n,
      )
    ]
