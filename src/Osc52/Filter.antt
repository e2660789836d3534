-- ===== src/Osc52/Filter.antt =====
-- internal/osc52/osc52.go: `Filter` and its methods. The capacity of the held buffer, which
-- `reset` looks at to release memory, is not modelled: the buffer is its contents.
use gosh.Base.{
  ℕ, zero, suc, ◌+◌, ◌-◌, ◌*◌, [], ◌∷◌, ◌++◌, Bytes, length, take, drop, equal, Bool, true, false,
  not, ◌&&◌, ◌||◌, ltb, leb, ◌==◌, if◌then◌else◌, Option, none, some,
}
use gosh.Osc52.Policy.{Policy, write, full, off}
use mathlib.Core.Option

abbrev pub esc : ℕ
esc = 0x1B

abbrev pub bel : ℕ
bel = 0x07

abbrev pub can : ℕ
can = 0x18

abbrev pub sub : ℕ
sub = 0x1A

abbrev pub osc_number : ℕ
osc_number = 52

abbrev pub max_digits : ℕ
max_digits = 8

abbrev pub max_sequence : ℕ
max_sequence = 65536

pub data State : Type 0 where
  text in_esc in_prefix in_body in_body_esc : State

pub record Filter : Type 0 where
  pub policy : Policy
  pub state : State
  pub buf : Bytes
  pub num : ℕ
  pub digits : ℕ
  pub dropping : Bool

unfoldable pub new : Policy → Filter
new p = record { policy = p; state = text; buf = []; num = 0; digits = 0; dropping = false }

-- `bytes.IndexByte`, with `none` for -1.
unfoldable pub index_byte : Bytes → ℕ → Option ℕ
index_byte [] c = none
index_byte (x ∷ b) c = if x == c then some 0 else Option.map suc (index_byte b c)

unfoldable pub reset : Filter → Filter
reset f = record f { buf = []; state = text; dropping = false }

-- `release`: the held bytes behind `dst`, and the filter in the text state.
unfoldable pub release : Filter → Bytes → Filter × Bytes
unfolding reset
release f dst = (reset f, dst ++ f.buf)

abbrev pub close : ℕ → Bytes
close term = if term == esc then esc ∷ b'\\' ∷ [] else bel ∷ []

-- `pc` is none where the source passes nil.
unfoldable pub append_sequence : Bytes → Option Bytes → Bytes → ℕ → Bytes
append_sequence dst none pd term = dst ++ (esc ∷ b']' ∷ b'5' ∷ b'2' ∷ b';' ∷ pd) ++ close term
append_sequence dst (some pc) pd term =
    dst ++ (esc ∷ b']' ∷ b'5' ∷ b'2' ∷ b';' ∷ (pc ++ b';' ∷ pd)) ++ close term

-- What `emit` appends for the selection `pc` and the payload `pd`.
unfoldable pub emit_parts : Policy → Bytes → Bytes → Bytes → ℕ → Bytes
unfolding append_sequence
emit_parts full dst pc pd term =
    if equal pd (b'?' ∷ [])
    then append_sequence dst (some pc) pd term
    else if length pc == 0
    then append_sequence dst (some (b'c' ∷ [])) pd term
    else append_sequence dst (some pc) pd term
emit_parts p dst pc pd term =
    if equal pd (b'?' ∷ [])
    then dst
    else if length pc == 0
    then append_sequence dst (some (b'c' ∷ [])) pd term
    else append_sequence dst (some pc) pd term

abbrev pub after_at : Bytes → Option ℕ → Bytes
after_at body none = body
after_at body (some n) = drop (n + 1) body

-- `body[bytes.IndexByte(body, ';')+1:]`; with no ';' the index is -1.
abbrev pub after_number : Bytes → Bytes
after_number body = after_at body (index_byte body b';')

-- `pc` and `pd` are cut at the ';' of the body; with none the body is one part.
abbrev pub emit_at : Policy → Bytes → Bytes → ℕ → Option ℕ → Bytes
emit_at p dst body term none = append_sequence dst none body term
emit_at p dst body term (some sep) = emit_parts p dst (take sep body) (drop (sep + 1) body) term

abbrev pub emit_body : Policy → Bytes → Bytes → ℕ → Bytes
emit_body p dst body term = emit_at p dst body term (index_byte body b';')

abbrev pub is_off : Policy → Bool
is_off off = true
is_off write = false
is_off full = false

unfoldable pub emit : Filter → Bytes → ℕ → Filter × Bytes
unfolding reset emit_parts
emit f dst term =
    if f.dropping || is_off f.policy
    then (reset f, dst)
    else (reset f, emit_body f.policy dst (after_number (drop 2 f.buf)) term)

abbrev is_digit : ℕ → Bool
is_digit c = leb b'0' c && leb c b'9'

-- `src` up to the ESC at `n` goes out at once; with no ESC all of it does.
abbrev pub copy_run : Filter → Bytes → Bytes → Option ℕ → Filter × Bytes × Bytes
copy_run f dst src none = (f, dst ++ src, [])
copy_run f dst src (some n) =
    (record f { buf = esc ∷ []; state = in_esc }, dst ++ take n src, drop (n + 1) src)

-- One round of the loop of `Filter` in each state, at the byte `c` with `src` behind it: the
-- filter, the output, and what is still to be read. Where that is `c ∷ src` the byte is read again.
unfoldable pub round_text : Filter → Bytes → Bytes → Filter × Bytes × Bytes
round_text f dst src = copy_run f dst src (index_byte src esc)

abbrev pub again : Filter × Bytes → Bytes → Filter × Bytes × Bytes
again (f, dst) src = (f, dst, src)

unfoldable pub round_esc : Filter → Bytes → ℕ → Bytes → Filter × Bytes × Bytes
unfolding release
round_esc f dst c src =
    if c == b']'
    then (record f { buf = f.buf ++ c ∷ []; num = 0; digits = 0; state = in_prefix }, dst, src)
    else again (release f dst) (c ∷ src)

unfoldable pub round_prefix : Filter → Bytes → ℕ → Bytes → Filter × Bytes × Bytes
unfolding release
round_prefix f dst c src =
    if is_digit c && ltb f.digits max_digits
    then (
      record f { num = f.num * 10 + (c - b'0'); digits = f.digits + 1; buf = f.buf ++ c ∷ [] },
      dst,
      src,
    )
    else if c == b';' && (ltb 0 f.digits && f.num == osc_number)
    then (record f { buf = f.buf ++ c ∷ []; state = in_body }, dst, src)
    else again (release f dst) (c ∷ src)

unfoldable pub round_body : Filter → Bytes → ℕ → Bytes → Filter × Bytes × Bytes
unfolding emit reset
round_body f dst c src =
    if c == bel
    then again (emit f dst bel) src
    else if c == esc
    then (record f { state = in_body_esc }, dst, src)
    else if c == can || c == sub
    then (reset f, dst, src)
    else if not f.dropping && leb max_sequence (length f.buf)
    then (record f { dropping = true; buf = [] }, dst, c ∷ src)
    else if not f.dropping
    then (record f { buf = f.buf ++ c ∷ [] }, dst, src)
    else (f, dst, src)

unfoldable pub round_body_esc : Filter → Bytes → ℕ → Bytes → Filter × Bytes × Bytes
unfolding emit reset
round_body_esc f dst c src =
    if c == b'\\'
    then again (emit f dst esc) src
    else (record (reset f) { buf = esc ∷ []; state = in_esc }, dst, c ∷ src)

unfoldable pub round : State → Filter → Bytes → ℕ → Bytes → Filter × Bytes × Bytes
round text f dst c src = round_text f dst (c ∷ src)
round in_esc f dst c src = round_esc f dst c src
round in_prefix f dst c src = round_prefix f dst c src
round in_body f dst c src = round_body f dst c src
round in_body_esc f dst c src = round_body_esc f dst c src

-- The loop of `Filter`, on the rounds left; `none` means that they ran out.
unfoldable pub filter_loop : ℕ → Filter → Bytes → Bytes → Option (Filter × Bytes)
filter_loop fuel f dst [] = some (f, dst)
filter_loop zero f dst (c ∷ src) = none
filter_loop (suc fuel) f dst (c ∷ src) =
    let (f', dst', src') = round f.state f dst c src in filter_loop fuel f' dst' src'

-- A byte is looked at three times at most.
unfoldable pub filter : Filter → Bytes → Bytes → Option (Filter × Bytes)
unfolding filter_loop round round_text round_esc round_prefix round_body round_body_esc index_byte
filter f dst src = filter_loop (3 * length src + 3) f dst src

abbrev is_text : State → Bool
is_text text = true
is_text _ = false

abbrev is_body_esc : State → Bool
is_body_esc in_body_esc = true
is_body_esc _ = false

unfoldable pub flush : Filter → Bytes → Filter × Bytes
unfolding release reset
flush f dst =
    if is_text f.state
    then (f, dst)
    else if f.dropping
    then (reset f, dst)
    else if is_body_esc f.state
    then release (record f { buf = f.buf ++ esc ∷ [] }) dst
    else release f dst

unfoldable pub filter_chunk : Filter → Bytes → Bytes → Option (Filter × Bytes)
unfolding filter flush
filter_chunk f dst src = Option.map (λ (g, out). flush g out) (filter f dst src)
