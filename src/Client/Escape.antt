-- ===== src/Client/Escape.antt =====
-- internal/client/client.go: `processEscapes`, the quit sequence in local input.
use gosh.Base.{
  ℕ, [], ◌∷◌, ◌++◌, append-nil, append_assoc, Bytes, Bool, true, false, ◌==◌, if◌then◌else◌, ◌≡◌,
  refl, sym, ap, ◌∙◌, Bool-cases, inl, inr, ==_iff,
}

abbrev pub escape_key : ℕ
escape_key = 0x1E

-- The loop, on what is forwarded so far: that, whether to quit, and whether an escape key is
-- pending.
unfoldable pub process_escapes_loop : Bytes → Bytes → Bool → Bytes × Bool × Bool
process_escapes_loop out [] pending = (out, false, pending)
process_escapes_loop out (c ∷ b) true =
    let literal = process_escapes_loop (out ++ escape_key ∷ []) b false in
    let other = process_escapes_loop (out ++ escape_key ∷ c ∷ []) b false in
    if c == b'.' then (out, true, false) else if c == escape_key then literal else other
process_escapes_loop out (c ∷ b) false =
    let waiting = process_escapes_loop out b true in
    let plain = process_escapes_loop (out ++ c ∷ []) b false in
    if c == escape_key then waiting else plain

unfoldable pub process_escapes : Bytes → Bool → Bytes × Bool × Bool
unfolding process_escapes_loop
process_escapes b pending = process_escapes_loop [] b pending

-- Input typed so that it arrives as it is: the escape key doubled.
unfoldable pub typed : Bytes → Bytes
typed [] = []
typed (c ∷ b) = if c == escape_key then escape_key ∷ escape_key ∷ typed b else c ∷ typed b

process_escapes_loop-typed :
    (out b rest : Bytes)
    → process_escapes_loop out (typed b ++ rest) false ≡ process_escapes_loop (out ++ b) rest false
unfolding process_escapes_loop typed
process_escapes_loop-typed out [] rest =
    ap (λ o. process_escapes_loop o rest false) (sym (append-nil out))
process_escapes_loop-typed out (c ∷ b) rest = elim (Bool-cases (c == escape_key)) [
  | inl e ↦
      let key : c ≡ escape_key = (==_iff c escape_key).0 e in
      rw e (
        process_escapes_loop-typed (out ++ escape_key ∷ []) b rest
        ∙ ap (λ o. process_escapes_loop o rest false) (append_assoc out (escape_key ∷ []) b)
        ∙ ap (λ k. process_escapes_loop (out ++ k ∷ b) rest false) (sym key))
  | inr e ↦
      rw (e, e)
        (process_escapes_loop-typed (out ++ c ∷ []) b rest
          ∙ ap (λ o. process_escapes_loop o rest false) (append_assoc out (c ∷ []) b))
]

-- Input whose escape keys are doubled is forwarded as it was meant, up to an escape key and a dot,
-- which ask to quit and cut off what follows; without them nothing is left pending.
pub process_escapes-typed :
    (b rest : Bytes)
    → (process_escapes (typed b) false ≡ (b, false, false))
      × (process_escapes (typed b ++ escape_key ∷ b'.' ∷ rest) false ≡ (b, true, false))
unfolding process_escapes process_escapes_loop
process_escapes-typed b rest = (
  ap (λ t. process_escapes_loop [] t false) (sym (append-nil (typed b)))
      ∙ process_escapes_loop-typed [] b [],
  process_escapes_loop-typed [] b (escape_key ∷ b'.' ∷ rest),
)

-- The rest of the input behind a piece that does not ask to quit.
abbrev pub resume : Bytes × Bool × Bool → Bytes → Bytes × Bool × Bool
resume (out, true, pending) rest = (out, true, pending)
resume (out, false, pending) rest = process_escapes_loop out rest pending

process_escapes_loop-append :
    (out a b : Bytes) (pending : Bool)
    → process_escapes_loop out (a ++ b) pending ≡ resume (process_escapes_loop out a pending) b
unfolding process_escapes_loop
process_escapes_loop-append out [] b pending = refl
process_escapes_loop-append out (c ∷ a) b true = elim (Bool-cases (c == b'.')) [
  | inl e ↦ rw e refl
  | inr e ↦ elim (Bool-cases (c == escape_key)) [
    | inl k ↦ rw (e, k) (process_escapes_loop-append (out ++ escape_key ∷ []) a b false)
    | inr k ↦ rw (e, k) (process_escapes_loop-append (out ++ escape_key ∷ c ∷ []) a b false)
  ]
]
process_escapes_loop-append out (c ∷ a) b false = elim (Bool-cases (c == escape_key)) [
  | inl k ↦ rw k (process_escapes_loop-append out a b true)
  | inr k ↦ rw k (process_escapes_loop-append (out ++ c ∷ []) a b false)
]
