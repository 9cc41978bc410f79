-- ===== src/Observer/Bounds.antt =====
-- What eventObserver holds and observes stays within maxEventBytes.
use airgate_sdk.Prelude.{
  after_prefix, ℕ, zero, suc, ◌+◌, ◌≤◌, ◌≡◌, refl, sym, subst, inl, inr, Bool, not, ◌&&◌, true,
  false, some, List, [], ◌∷◌, ◌++◌, length, ltb, arith, Bool-cases, Option-cases, if◌then◌else◌,
  ◌==◌, All, All-append, length-append, ltb-false,
}
use airgate_sdk.Outcome.{Bytes}
use airgate_sdk.Trace.{max_event_bytes}
use airgate_sdk.Observer.{
  EventObserver, new_observer, cut_line, take_line, take_cut, extend_line, end_line, write_round,
  write_loop, write, flush, finish_line, add_data, consume_line, trim_newline, trim_space,
  data_field, finish,
}

abbrev pub IsShort : Bytes → Type 0
IsShort p = length p ≤ max_event_bytes

pub record IsBounded (s : EventObserver) : Type 0 where
  pub line_short : IsShort s.line
  pub event_short : IsShort s.event_data
  pub observed_short : All IsShort s.observed

pub new_observer-IsBounded : IsBounded new_observer
new_observer-IsBounded = record {
  line_short = omega arith;
  event_short = omega arith;
  observed_short = _;
}

trim_newline-length : (p : Bytes) → length (trim_newline p) ≤ length p
unfolding trim_newline
trim_newline-length [] = omega arith
trim_newline-length (b ∷ []) = ground arith
trim_newline-length (b ∷ c ∷ p) = omega (arith, trim_newline-length (c ∷ p))

All-if :
    (b : Bool) (xs ys : List Bytes)
    → All IsShort xs
    → All IsShort ys
    → All IsShort (if b then xs else ys)
All-if true xs ys hx hy = hx
All-if false xs ys hx hy = hy

flush-IsBounded : (s : EventObserver) → IsBounded s → IsBounded (flush s)
unfolding flush
flush-IsBounded s h = record {
  line_short = h.line_short;
  event_short = omega arith;
  observed_short =
      All-if _ _ _
        (All-append IsShort s.observed (trim_newline s.event_data ∷ []) h.observed_short
          (omega (arith, h.event_short, trim_newline-length s.event_data), _))
        h.observed_short;
}

add_data-IsBounded : (s : EventObserver) (p : Bytes) → IsBounded s → IsBounded (add_data s p)
unfolding add_data
add_data-IsBounded s p h =
    elim (Bool-cases (ltb max_event_bytes (length s.event_data + length p + 1))) [
      | inl long ↦
          rw (long, add_data)
            (record {
              line_short = h.line_short;
              event_short = omega arith;
              observed_short = h.observed_short;
            })
      | inr fits ↦
          rw (fits, add_data)
            (record {
              line_short = h.line_short;
              event_short = omega (
                arith,
                ltb-false _ _ fits,
                length-append s.event_data (p ++ b'\n' ∷ []),
                length-append p (b'\n' ∷ []),
              );
              observed_short = h.observed_short;
            })
    ]

consume_line-IsBounded :
    (s : EventObserver) (p : Bytes) → IsBounded s → IsBounded (consume_line s p)
unfolding consume_line
consume_line-IsBounded s [] h = flush-IsBounded s h
consume_line-IsBounded s (b ∷ p) h = elim (Option-cases (after_prefix data_field (b ∷ p))) [
  | inl other ↦ rw (other, consume_line) h
  | inr (rest, found) ↦ elim (Bool-cases s.skip_event) [
    | inl skipped ↦ subst IsBounded (sym (data_skipped s b p rest found skipped)) h
    | inr kept ↦
        subst IsBounded (sym (data_kept s b p rest found kept))
          (add_data-IsBounded s (trim_space rest) h)
  ]
]
  where
    data_skipped :
        (s : EventObserver) (b : ℕ) (p rest : Bytes)
        → after_prefix data_field (b ∷ p) ≡ some rest
        → s.skip_event ≡ true
        → consume_line s (b ∷ p) ≡ s
    data_skipped s b p rest found skipped = ground arith

    data_kept :
        (s : EventObserver) (b : ℕ) (p rest : Bytes)
        → after_prefix data_field (b ∷ p) ≡ some rest
        → s.skip_event ≡ false
        → consume_line s (b ∷ p) ≡ add_data s (trim_space rest)
    data_kept s b p rest found skipped = ground arith

IsBounded-if :
    (b : Bool) (s t : EventObserver) → IsBounded s → IsBounded t → IsBounded (if b then s else t)
IsBounded-if true s t hs ht = hs
IsBounded-if false s t hs ht = ht

-- Where only the line and the flags change.
with_line :
    {s t : EventObserver}
    → IsBounded s
    → IsShort t.line
    → s.event_data ≡ t.event_data
    → s.observed ≡ t.observed
    → IsBounded t
with_line h short e o = record {
  line_short = short;
  event_short = subst IsShort e h.event_short;
  observed_short = subst (All IsShort) o h.observed_short;
}

pub extend_line-IsBounded :
    (s : EventObserver) (p : Bytes) → IsBounded s → IsBounded (extend_line s p)
unfolding extend_line
extend_line-IsBounded s p h =
    IsBounded-if s.skip_line _ _ h
      (elim (Bool-cases (ltb max_event_bytes (length s.line + length p))) [
        | inl long ↦ rw long (with_line h (omega arith) refl refl)
        | inr fits ↦
            rw fits
              (with_line h (omega (arith, ltb-false _ _ fits, length-append s.line p)) refl refl)
      ])

pub end_line-IsBounded : (s : EventObserver) (b : ℕ) → IsBounded s → IsBounded (end_line s b)
unfolding end_line
end_line-IsBounded s b h =
    with_line
      (IsBounded-if s.skip_line s (consume_line s s.line) h (consume_line-IsBounded s s.line h))
      (omega arith) refl refl

take_cut-IsBounded :
    (s : EventObserver) (chunk rest : Bytes) → IsBounded s → IsBounded (take_cut s chunk rest).0
unfolding take_cut
take_cut-IsBounded s chunk [] h = extend_line-IsBounded s chunk h
take_cut-IsBounded s chunk (b ∷ after) h =
    end_line-IsBounded (extend_line s chunk) b (extend_line-IsBounded s chunk h)

pub take_line-IsBounded :
    (s : EventObserver) (p : Bytes) → IsBounded s → IsBounded (take_line s p).0
unfolding take_line
take_line-IsBounded s p h = take_cut-IsBounded s (cut_line p).0 (cut_line p).1 h

state-if-IsBounded :
    (b : Bool) (x y : EventObserver × Bytes)
    → IsBounded x.0
    → IsBounded y.0
    → IsBounded (if b then x else y).0
state-if-IsBounded true x y hx hy = hx
state-if-IsBounded false x y hx hy = hy

pub write_round-IsBounded :
    (s : EventObserver) (p : Bytes) → IsBounded s → IsBounded (write_round s p).0
unfolding write_round
write_round-IsBounded s [] h = h
write_round-IsBounded s (b ∷ p) h =
    let settled : IsBounded (record s { skip_lf = false }) = with_line h h.line_short refl refl in
    state-if-IsBounded s.skip_lf _ _
      (state-if-IsBounded (b == b'\n') _ _ settled (take_line-IsBounded _ (b ∷ p) settled))
      (take_line-IsBounded s (b ∷ p) h)

write_loop-IsBounded :
    (fuel : ℕ) (s : EventObserver) (p : Bytes) → IsBounded s → IsBounded (write_loop fuel s p)
unfolding write_loop
write_loop-IsBounded zero s p h = h
write_loop-IsBounded (suc fuel) s p h = write_loop-IsBounded fuel _ _ (write_round-IsBounded s p h)

pub write-IsBounded : (s : EventObserver) (p : Bytes) → IsBounded s → IsBounded (write s p)
unfolding write
write-IsBounded s p h = IsBounded-if s.closed _ _ h (write_loop-IsBounded (length p) s p h)

pub finish-IsBounded : (s : EventObserver) → IsBounded s → IsBounded (finish s)
unfolding finish finish_line
finish-IsBounded s h =
    let line_done =
      IsBounded-if (not s.skip_line && ltb 0 (length s.line)) _ _
        (consume_line-IsBounded s s.line h) h in
    let flushed : IsBounded (flush (record (finish_line s) { line = [] })) =
      flush-IsBounded _ (with_line line_done (omega arith) refl refl) in
    IsBounded-if s.closed _ _ h (record {
      line_short = omega arith;
      event_short = omega arith;
      observed_short = flushed.observed_short;
    })
