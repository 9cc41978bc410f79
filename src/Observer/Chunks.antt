-- ===== src/Observer/Chunks.antt =====
-- Cutting the bytes into several writes changes nothing.
use airgate_sdk.Prelude.{
  ℕ, ◌≡◌, refl, sym, ap, ◌∙◌, inl, inr, true, false, [], ◌∷◌, ◌++◌, arith, Bool-cases,
}
use airgate_sdk.Outcome.{Bytes}
use airgate_sdk.Observer.{
  EventObserver, extend_line, end_line, write, consume_line, flush, add_data,
}
use airgate_sdk.Observer.Bounds.{IsBounded, write-IsBounded}
use airgate_sdk.Observer.Bytewise.{
  take_byte, observe_byte, observe_bytes, observe_bytes-append, write-observe_bytes,
}

consume_line-closed : (s : EventObserver) (p : Bytes) → (consume_line s p).closed ≡ s.closed
unfolding consume_line flush add_data
consume_line-closed s p = ground arith

take_byte-closed : (s : EventObserver) (b : ℕ) → (take_byte s b).closed ≡ s.closed
unfolding take_byte extend_line end_line
take_byte-closed s b = ground (arith, consume_line-closed s s.line)

observe_byte-closed : (s : EventObserver) (b : ℕ) → (observe_byte s b).closed ≡ s.closed
unfolding observe_byte
observe_byte-closed s b =
    ground (arith, take_byte-closed s b, take_byte-closed (record s { skip_lf = false }) b)

observe_bytes-closed : (p : Bytes) (s : EventObserver) → (observe_bytes s p).closed ≡ s.closed
unfolding observe_bytes
observe_bytes-closed [] s = refl
observe_bytes-closed (b ∷ p) s = observe_bytes-closed p (observe_byte s b) ∙ observe_byte-closed s b

write_closed : (s : EventObserver) (p : Bytes) → s.closed ≡ true → write s p ≡ s
unfolding write
write_closed s p done = ground arith

-- Two writes on an observer whose line and event are within the bounds, open or closed, are one
-- write of the bytes of both.
pub write-write :
    (s : EventObserver) (p q : Bytes) → IsBounded s → write (write s p) q ≡ write s (p ++ q)
write-write s p q h = elim (Bool-cases s.closed) [
  | inl done ↦ rw (write_closed s p done, write_closed s q done, write_closed s (p ++ q) done) refl
  | inr opened ↦
      let first = write-observe_bytes s p h opened in
      let open_after = ap (λ t. t.closed) first ∙ observe_bytes-closed p s ∙ opened in
      write-observe_bytes (write s p) q (write-IsBounded s p h) open_after
      ∙ ap (λ t. observe_bytes t q) first
      ∙ sym (observe_bytes-append p q s)
      ∙ sym (write-observe_bytes s (p ++ q) h opened)
]
