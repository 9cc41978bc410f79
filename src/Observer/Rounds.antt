-- ===== src/Observer/Rounds.antt =====
-- Each round of eventObserver.write leaves fewer bytes than it was given, so the loop ends.
use airgate_sdk.Prelude.{
  ℕ, zero, suc, ◌-◌, ◌≤◌, ◌<◌, ◌≡◌, refl, sym, subst, inl, inr, false, [], ◌∷◌, length, arith,
  Bool-cases,
}
use airgate_sdk.Outcome.{Bytes}
use airgate_sdk.Observer.{
  EventObserver, cut_line, ends_line, take_line, write_round, write_loop, write,
}

-- The rounds from a state and the bytes in hand to the state in which the loop ends.
pub data Rounds : EventObserver → Bytes → EventObserver → Type 0 where
  ended : {s : EventObserver} → Rounds s [] s
  next :
      {s t : EventObserver} {b : ℕ} {p : Bytes}
      → length (write_round s (b ∷ p)).1 < length (b ∷ p)
      → Rounds (write_round s (b ∷ p)).0 (write_round s (b ∷ p)).1 t
      → Rounds s (b ∷ p) t

cut_line-length : (p : Bytes) → length (cut_line p).1 ≤ length p
unfolding cut_line
cut_line-length [] = omega arith
cut_line-length (b ∷ p) = elim (Bool-cases (ends_line b)) [
  | inl e ↦ rw (e, cut_line) (omega arith)
  | inr e ↦ rw (e, cut_line) (omega (arith, cut_line-length p))
]

take_line_left :
    (s : EventObserver) (b : ℕ) (p : Bytes) → length (take_line s (b ∷ p)).1 < length (b ∷ p)
unfolding take_line
take_line_left s b p = ground (arith, cut_line-length (b ∷ p))

write_round_less :
    (s : EventObserver) (b : ℕ) (p : Bytes) → length (write_round s (b ∷ p)).1 < length (b ∷ p)
unfolding write_round
write_round_less s b p =
    ground (arith, take_line_left s b p, take_line_left (record s { skip_lf = false }) b p)

pub write_round_left : (s : EventObserver) (p : Bytes) → length (write_round s p).1 ≤ length p - 1
unfolding write_round
write_round_left s [] = omega arith
write_round_left s (b ∷ p) = omega (arith, write_round_less s b p)

write_loop_ended : (fuel : ℕ) (s : EventObserver) → write_loop fuel s [] ≡ s
unfolding write_loop write_round
write_loop_ended zero s = refl
write_loop_ended (suc fuel) s = write_loop_ended fuel s

write_loop-Rounds :
    (fuel : ℕ) (s : EventObserver) (p : Bytes) → length p ≤ fuel → Rounds s p (write_loop fuel s p)
unfolding write_loop
write_loop-Rounds zero s [] h = ended
write_loop-Rounds zero s (b ∷ p) h = absurd (omega arith)
write_loop-Rounds (suc fuel) s [] h = rw (write_loop_ended (suc fuel) s) ended
write_loop-Rounds (suc fuel) s (b ∷ p) h =
    let left = write_round_less s b p in
    next left (
      write_loop-Rounds fuel (write_round s (b ∷ p)).0 (write_round s (b ∷ p)).1
        (omega (arith, left)))

pub write_open :
    (s : EventObserver) (p : Bytes) → s.closed ≡ false → write s p ≡ write_loop (length p) s p
unfolding write
write_open s p opened = ground arith

-- A write on an open observer runs the rounds of its loop until no byte is left: each round leaves
-- fewer bytes than it was given, and the result is the state after the last round.
pub write-Rounds : (s : EventObserver) (p : Bytes) → s.closed ≡ false → Rounds s p (write s p)
write-Rounds s p opened =
    subst (Rounds s p) (sym (write_open s p opened))
      (write_loop-Rounds (length p) s p (omega arith))
