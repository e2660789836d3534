-- ===== src/Termenv/Restored.antt =====
-- internal/termenv: what `Restore` undoes, and what `MakeRaw` leaves behind where it fails.
use gosh.Base.{
  ℕ, true, ◌||◌, Option, none, some, Result, ok, err, Bool-cases, inl, inr, ◌≡◌, refl, arith,
}
use gosh.Base.Int.{ℤ, pos}
use gosh.Termenv.{
  Terminal, System, State, TermError, Platform, unix, windows, restore_vt, make_raw, restore, size,
  try_size, at_most_zero, sized, with_raw, with_vt, enable_vt_on, enable_vt_windows, vt_mode,
  and_not, disable_newline_auto_return,
}

-- A call that succeeds is undone, once and for all, and one that fails leaves nothing.
abbrev pub Undone : System → Terminal → Terminal × Result TermError State → Type 0
Undone sys t (t', ok s) =
    (restore sys t' (some s) ≡ (t, none)) × (restore sys t (some s) ≡ (t, none))
Undone sys t (t', err e) = t' ≡ t

module _ (sys : System) (t : Terminal) (takes : sys.restores ≡ true)
    (kept : sys.sets t.output ≡ true) where
  -- The output stands at any mode where it is to be restored, and at its old one elsewhere.
  IsPending : Terminal → Option ℕ → Type 0
  IsPending t' none = t' ≡ t
  IsPending t' (some orig) = (t'.input ≡ t.input) × (orig ≡ t.output)

  with_raw-Undone :
      (t' : Terminal) (vt : Option ℕ) (mode : Option ℕ)
      → IsPending t' vt
      → Undone sys t (with_raw sys t' vt mode)
  unfolding restore restore_vt IsPending
  with_raw-Undone t' none none p = p
  with_raw-Undone t' none (some mode) p = ground (arith, p)
  with_raw-Undone t' (some orig) none p = ground arith
  with_raw-Undone t' (some orig) (some mode) p = ground arith

  enable_vt_windows-Undone : Undone sys t (with_vt sys (enable_vt_windows sys t))
  unfolding IsPending restore_vt restore
  enable_vt_windows-Undone = elim (Bool-cases sys.is_console) [
    | inl there ↦ elim (Bool-cases (sys.sets (vt_mode t.output))) [
      | inl full ↦
          rw (there, full)
            (with_raw-Undone (record t { output = vt_mode t.output }) (some t.output) _
              (refl, refl))
      | inr old ↦
          elim (Bool-cases (sys.sets (and_not (vt_mode t.output) disable_newline_auto_return))) [
            | inl part ↦
                rw (there, old, part)
                  (with_raw-Undone
                    (record t { output = and_not (vt_mode t.output) disable_newline_auto_return })
                    (some t.output) _ (refl, refl))
            | inr not_at_all ↦ rw (there, old, not_at_all) refl
          ]
    ]
    | inr redirected ↦ rw redirected (with_raw-Undone t none (sys.raw t.input) refl)
  ]

  enable_vt_on-Undone : (p : Platform) → Undone sys t (with_vt sys (enable_vt_on p sys t))
  unfolding IsPending
  enable_vt_on-Undone unix = with_raw-Undone t none (sys.raw t.input) refl
  enable_vt_on-Undone windows = enable_vt_windows-Undone

-- Where the system takes back the modes that it had, a call of `MakeRaw` that succeeds is undone by
-- `Restore`, the output of a Windows console included, a second call of it changes nothing, and a
-- `MakeRaw` that fails has changed nothing.
pub make_raw-Undone :
    (sys : System) (t : Terminal)
    → sys.restores ≡ true
    → sys.sets t.output ≡ true
    → Undone sys t (make_raw sys t)
unfolding make_raw
make_raw-Undone sys t takes kept = enable_vt_on-Undone sys t takes kept sys.platform

-- A terminal that reports a size of both more than zero has it, for both functions; any other is
-- taken for one of 80 by 24 by `Size`, and is skipped by `TrySize`.
pub size-try_size :
    (sys : System)
    → ((s : ℤ × ℤ) → try_size sys ≡ some s → (size sys ≡ s) × (sys.size ≡ some s))
      × (try_size sys ≡ none → size sys ≡ (pos 80, pos 24))
unfolding size try_size
size-try_size sys = sizes sys.size
  where
    sizes :
        (o : Option (ℤ × ℤ))
        → ((s : ℤ × ℤ)
            → sized none some o ≡ some s
            → (sized (pos 80, pos 24) (λ s. s) o ≡ s) × (o ≡ some s))
          × (sized none some o ≡ none → sized (pos 80, pos 24) (λ s. s) o ≡ (pos 80, pos 24))
    sizes none = (λ s e. absurd cc, λ e. refl)
    sizes (some (w, h)) = elim (Bool-cases (at_most_zero w || at_most_zero h)) [
      | inl q ↦ rw q ((λ s e. absurd cc), (λ e. refl))
      | inr q ↦ rw q ((λ s e. (cc, e)), (λ e. absurd cc))
    ]
