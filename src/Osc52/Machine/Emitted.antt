-- ===== src/Osc52/Machine/Emitted.antt =====
-- What `emit` appends does not depend on the output before it.
use gosh.Osc52.Filter.{
  is_off, Filter, index_byte, reset, emit, emit_body, after_number, emit_parts, append_sequence,
}
use gosh.Osc52.Policy.{Policy, full}
use gosh.Base.{
  ℕ, ◌+◌, [], ◌∷◌, ◌++◌, Bytes, take, drop, ◌||◌, Bool-cases, ◌≡◌, sym, ap, append-nil,
  append_assoc, arith, Option, none, some, inl, inr, Option-cases,
}
use gosh.Osc52.Machine.{emits}

append_sequence-dst :
    (dst : Bytes) (pc : Option Bytes) (pd : Bytes) (term : ℕ)
    → append_sequence dst pc pd term ≡ dst ++ append_sequence [] pc pd term
unfolding append_sequence
append_sequence-dst dst none pd term = append_assoc dst _ _
append_sequence-dst dst (some pc) pd term = append_assoc dst _ _

emit_parts-dst :
    (p : Policy) (dst pc pd : Bytes) (term : ℕ)
    → emit_parts p dst pc pd term ≡ dst ++ emit_parts p [] pc pd term
unfolding emit_parts
emit_parts-dst full dst pc pd term = ground (
  arith,
  append_sequence-dst dst (some pc) pd term,
  append_sequence-dst dst (some (b'c' ∷ [])) pd term,
)
emit_parts-dst _ dst pc pd term = ground (
  arith,
  append-nil dst,
  append_sequence-dst dst (some pc) pd term,
  append_sequence-dst dst (some (b'c' ∷ [])) pd term,
)

emit_body-dst :
    (p : Policy) (dst body : Bytes) (term : ℕ)
    → emit_body p dst body term ≡ dst ++ emit_body p [] body term
emit_body-dst p dst body term = elim (Option-cases (index_byte body b';')) [
  | inl e ↦ rw e (append_sequence-dst dst none body term)
  | inr (sep, e) ↦ rw e (emit_parts-dst p dst (take sep body) (drop (sep + 1) body) term)
]

pub emit-dst : (f : Filter) (dst : Bytes) (term : ℕ) → emit f dst term ≡ emits (emit f [] term) dst
unfolding emit
emit-dst f dst term = elim (Bool-cases (f.dropping || is_off f.policy)) [
  | inl gone ↦ rw gone (ap (λ b. (reset f, b)) (sym (append-nil dst)))
  | inr kept ↦
      rw kept
        (ap (λ b. (reset f, b)) (emit_body-dst f.policy dst (after_number (drop 2 f.buf)) term))
]
