-- ===== src/Observer/Bytewise.antt =====
-- eventObserver.write against a machine that takes one byte at a time.
use airgate_sdk.Prelude.{
  ℕ, zero, suc, ◌≤◌, ◌≡◌, refl, sym, ap, ◌∙◌, inl, inr, ◌⊎◌, true, false, [], ◌∷◌, ◌++◌, length,
  arith, Bool-cases, if◌then◌else◌, ◌==◌, length-append, append_assoc, append-nil,
}
use airgate_sdk.Outcome.{Bytes}
use airgate_sdk.Observer.{
  EventObserver, cut_line, ends_line, take_line, take_cut, extend_line, end_line, write_round,
  write_loop, write,
}
use airgate_sdk.Observer.Bounds.{IsBounded, extend_line-IsBounded, write_round-IsBounded}
use airgate_sdk.Observer.Rounds.{write_open, write_round_left}

-- One byte, when no LF is swallowed.
unfoldable pub take_byte : EventObserver → ℕ → EventObserver
take_byte s b = if ends_line b then end_line s b else extend_line s (b ∷ [])

unfoldable pub observe_byte : EventObserver → ℕ → EventObserver
observe_byte s b =
    if s.skip_lf
    then (if b == b'\n'
        then record s { skip_lf = false }
        else take_byte (record s { skip_lf = false }) b)
    else take_byte s b

unfoldable pub observe_bytes : EventObserver → Bytes → EventObserver
unfolding observe_byte
observe_bytes s [] = s
observe_bytes s (b ∷ p) = observe_bytes (observe_byte s b) p

pub observe_bytes-append :
    (p q : Bytes) (s : EventObserver)
    → observe_bytes s (p ++ q) ≡ observe_bytes (observe_bytes s p) q
unfolding observe_bytes
observe_bytes-append [] q s = refl
observe_bytes-append (b ∷ p) q s = observe_bytes-append p q (observe_byte s b)

pub extend_nil : (s : EventObserver) → IsBounded s → extend_line s [] ≡ s
unfolding extend_line
extend_nil s h = ground (arith, h.line_short, append-nil s.line)

pub extend-extend :
    (s : EventObserver) (p q : Bytes) → extend_line (extend_line s p) q ≡ extend_line s (p ++ q)
unfolding extend_line
extend-extend s p q =
    ground (arith, length-append s.line p, length-append p q, append_assoc s.line p q)

extend_line_lf : (s : EventObserver) (p : Bytes) → (extend_line s p).skip_lf ≡ s.skip_lf
unfolding extend_line
extend_line_lf s p = ground arith

pub observe_plain :
    (s : EventObserver) (b : ℕ) → s.skip_lf ≡ false → observe_byte s b ≡ take_byte s b
unfolding observe_byte
observe_plain s b plain = ground arith

take_cut-extend :
    (s : EventObserver) (chunk more rest : Bytes)
    → take_cut s (chunk ++ more) rest ≡ take_cut (extend_line s chunk) more rest
unfolding take_cut
take_cut-extend s chunk more [] = ap (λ t. (t, [])) (sym (extend-extend s chunk more))
take_cut-extend s chunk more (b ∷ after) =
    ap (λ t. (end_line t b, after)) (sym (extend-extend s chunk more))

-- A byte that ends no line only makes the chunk longer.
take_line_cons :
    (s : EventObserver) (b : ℕ) (p : Bytes)
    → ends_line b ≡ false
    → take_line s (b ∷ p) ≡ take_line (extend_line s (b ∷ [])) p
unfolding take_line cut_line
take_line_cons s b p e = rw (e, cut_line) (take_cut-extend s (b ∷ []) (cut_line p).0 (cut_line p).1)

take_line_end :
    (s : EventObserver) (b : ℕ) (p : Bytes)
    → IsBounded s
    → ends_line b ≡ true
    → take_line s (b ∷ p) ≡ (end_line s b, p)
unfolding take_line cut_line take_cut
take_line_end s b p h e = rw (e, cut_line) (ap (λ t. (end_line t b, p)) (extend_nil s h))

take_line_nil : (s : EventObserver) → IsBounded s → take_line s [] ≡ (s, [])
unfolding take_line cut_line take_cut
take_line_nil s h = ap (λ t. (t, [])) (extend_nil s h)

take_byte_end : (s : EventObserver) (b : ℕ) → ends_line b ≡ true → take_byte s b ≡ end_line s b
unfolding take_byte
take_byte_end s b e = ground arith

pub take_byte_more :
    (s : EventObserver) (b : ℕ) → ends_line b ≡ false → take_byte s b ≡ extend_line s (b ∷ [])
unfolding take_byte
take_byte_more s b e = ground arith

-- The bytes of a round, one at a time.
take_line-observe_bytes :
    (p : Bytes) (s : EventObserver)
    → IsBounded s
    → s.skip_lf ≡ false
    → observe_bytes s p ≡ observe_bytes (take_line s p).0 (take_line s p).1
unfolding observe_bytes
take_line-observe_bytes [] s h plain = rw (take_line_nil s h) refl
take_line-observe_bytes (b ∷ p) s h plain = elim (Bool-cases (ends_line b)) [
  | inl e ↦ rw (take_line_end s b p h e, observe_plain s b plain, take_byte_end s b e) refl
  | inr e ↦
      rw (take_line_cons s b p e, observe_plain s b plain, take_byte_more s b e)
        (take_line-observe_bytes p (extend_line s (b ∷ [])) (extend_line-IsBounded s (b ∷ []) h)
          (extend_line_lf s (b ∷ []) ∙ plain))
]

settled-IsBounded : (s : EventObserver) → IsBounded s → IsBounded (record s { skip_lf = false })
settled-IsBounded s h = record {
  line_short = h.line_short;
  event_short = h.event_short;
  observed_short = h.observed_short;
}

module _ (s : EventObserver) (b : ℕ) where
  -- Whether a LF is swallowed is decided in the same way.
  round_cases :
      (p : Bytes)
      → ((write_round s (b ∷ p) ≡ (record s { skip_lf = false }, p))
          × (observe_byte s b ≡ record s { skip_lf = false }))
        ⊎ ((write_round s (b ∷ p) ≡ take_line (record s { skip_lf = false }) (b ∷ p))
            × (observe_byte s b ≡ take_byte (record s { skip_lf = false }) b))
        ⊎ ((write_round s (b ∷ p) ≡ take_line s (b ∷ p)) × (s.skip_lf ≡ false))
  unfolding write_round observe_byte
  round_cases p = elim (Bool-cases s.skip_lf) [
    | inr plain ↦ inr (inr (ground arith, plain))
    | inl lf ↦ elim (Bool-cases (b == b'\n')) [
      | inl e ↦ inl (ground arith, ground arith)
      | inr e ↦ inr (inl (ground arith, ground arith))
    ]
  ]

write_round-observe_bytes :
    (s : EventObserver) (p : Bytes)
    → IsBounded s
    → observe_bytes s p ≡ observe_bytes (write_round s p).0 (write_round s p).1
unfolding write_round observe_bytes
write_round-observe_bytes s [] h = refl
write_round-observe_bytes s (b ∷ p) h = elim (round_cases s b p) [
  | inl (w, o) ↦ rw (w, o) refl
  | inr (inl (w, o)) ↦
      let settled = record s { skip_lf = false } in
      rw (w, o)
        (sym (ap (λ t. observe_bytes t p) (observe_plain settled b refl))
          ∙ take_line-observe_bytes (b ∷ p) settled (settled-IsBounded s h) refl)
  | inr (inr (w, plain)) ↦ rw w (take_line-observe_bytes (b ∷ p) s h plain)
]

write_loop-observe_bytes :
    (fuel : ℕ) (s : EventObserver) (p : Bytes)
    → IsBounded s
    → length p ≤ fuel
    → write_loop fuel s p ≡ observe_bytes s p
unfolding write_loop observe_bytes
write_loop-observe_bytes zero s [] h enough = refl
write_loop-observe_bytes zero s (b ∷ p) h enough = absurd (omega arith)
write_loop-observe_bytes (suc fuel) s p h enough =
    let (s', q) = write_round s p in
    write_loop-observe_bytes fuel s' q (write_round-IsBounded s p h)
      (omega (arith, write_round_left s p))
    ∙ sym (write_round-observe_bytes s p h)

-- An open observer whose line and event are within the bounds is after a write of any size as a
-- machine that takes the same bytes one at a time.
pub write-observe_bytes :
    (s : EventObserver) (p : Bytes) → IsBounded s → s.closed ≡ false → write s p ≡ observe_bytes s p
write-observe_bytes s p h opened =
    write_open s p opened ∙ write_loop-observe_bytes (length p) s p h (omega arith)
