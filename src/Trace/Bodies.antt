-- ===== src/Trace/Bodies.antt =====
-- What a bodyBuffer holds after any writes.
use airgate_sdk.Prelude.{
  ℕ, zero, suc, ◌-◌, ◌<◌, ◌≤◌, min, pos, ◌+ℤ◌, add_pos, to_int64, to_int64_in_range, ◌≡◌, refl, sym,
  ap, ◌∙◌, inl, inr, false, true, List, [], ◌∷◌, ◌++◌, length, take, take_all, ltb, ltb→lt,
  ltb-false, append-nil, append_assoc, length-append, length-take, arith, Bool-cases,
}
use airgate_sdk.Outcome.{Bytes}
use airgate_sdk.Trace.{BodyBuffer, max_body_bytes, body_write, body_release}

-- The buffer after these writes.
unfoldable pub body_writes : BodyBuffer → List Bytes → BodyBuffer
body_writes b [] = b
body_writes b (p ∷ ps) = body_writes (body_write b p) ps

abbrev pub joined : List Bytes → Bytes
joined [] = []
joined (p ∷ ps) = p ++ joined ps

take-min : (n k : ℕ) (ys : Bytes) → k ≡ min n (length ys) → take n ys ≡ take k ys
take-min zero k ys e = let e' : k ≡ 0 = omega arith in rw e'
take-min (suc n) k [] e = let e' : k ≡ 0 = omega arith in rw e'
take-min (suc n) zero (y ∷ ys) e = absurd (omega arith)
take-min (suc n) (suc k) (y ∷ ys) e = ap (λ r. y ∷ r) (take-min n k ys (omega arith))

take-append_short :
    (n k : ℕ) (xs ys : Bytes)
    → length xs ≤ n
    → k ≡ min (n - length xs) (length ys)
    → take n (xs ++ ys) ≡ xs ++ take k ys
take-append_short n k [] ys h e = take-min n k ys (omega arith)
take-append_short zero k (x ∷ xs) ys h e = absurd (omega arith)
take-append_short (suc n) k (x ∷ xs) ys h e =
    ap (λ r. x ∷ r) (take-append_short n k xs ys (omega arith) (omega arith))

take-append_long : (n : ℕ) (xs ys : Bytes) → n ≤ length xs → take n (xs ++ ys) ≡ take n xs
take-append_long zero xs ys h = refl
take-append_long (suc n) [] ys h = absurd (omega arith)
take-append_long (suc n) (x ∷ xs) ys h = ap (λ r. x ∷ r) (take-append_long n xs ys (omega arith))

-- The open buffer stands for these bytes: it has the first of them, and counts them all.
abbrev pub StandsFor : BodyBuffer → Bytes → Type 0
StandsFor b bytes =
    (b.closed ≡ false) × (b.content ≡ take max_body_bytes bytes) × (b.size ≡ pos (length bytes))

-- An int64 counts them.
abbrev pub IsCountable : ℕ → Type 0
IsCountable n = n < 0x8000000000000000

body_write-content :
    (b : BodyBuffer) (seen p : Bytes)
    → b.closed ≡ false
    → b.content ≡ take max_body_bytes seen
    → (body_write b p).content ≡ take max_body_bytes (seen ++ p)
unfolding body_write
body_write-content b seen p opened h =
    let len = ap length h ∙ length-take max_body_bytes seen in
    elim (Bool-cases (ltb (length b.content) max_body_bytes)) [
      | inl room ↦
          let short : length seen ≤ max_body_bytes =
            omega (arith, len, ltb→lt (length b.content) max_body_bytes room) in
          let all = h ∙ take_all max_body_bytes seen short in
          let k = min (max_body_bytes - length b.content) (length p) in
          rw (opened, room, body_write)
            (ap (λ c. c ++ take k p) all
              ∙ sym
                  (take-append_short max_body_bytes k seen p short (omega (arith, ap length all))))
      | inr full ↦
          rw (opened, full, body_write)
            (h
              ∙ sym (
                  take-append_long max_body_bytes seen p
                    (omega (arith, len, ltb-false (length b.content) max_body_bytes full))))
    ]

body_write-size :
    (b : BodyBuffer) (seen p : Bytes)
    → b.closed ≡ false
    → b.size ≡ pos (length seen)
    → IsCountable (length (seen ++ p))
    → (body_write b p).size ≡ pos (length (seen ++ p))
unfolding body_write
body_write-size b seen p opened h small =
    let total : (pos (length seen) +ℤ pos (length p)) ≡ pos (length (seen ++ p)) =
      add_pos (length seen) (length p) ∙ ap pos (omega (arith, length-append seen p)) in
    rw (opened, body_write)
      (ap (λ z. to_int64 (z +ℤ pos (length p))) h
        ∙ ap to_int64 total
        ∙ to_int64_in_range (pos (length (seen ++ p))) (small, omega arith))

body_write-closed :
    (b : BodyBuffer) (p : Bytes) → b.closed ≡ false → (body_write b p).closed ≡ false
unfolding body_write
body_write-closed b p opened = rw (opened, body_write) refl

body_writes_kept :
    (ps : List Bytes) (b : BodyBuffer) (seen : Bytes)
    → StandsFor b seen
    → IsCountable (length (seen ++ joined ps))
    → StandsFor (body_writes b ps) (seen ++ joined ps)
unfolding body_writes
body_writes_kept [] b seen h small = rw (append-nil seen) h
body_writes_kept (p ∷ ps) b seen (opened, content, size) small =
    let here : IsCountable (length (seen ++ p)) = omega (
      arith,
      small,
      length-append seen (p ++ joined ps),
      length-append p (joined ps),
      length-append seen p,
    ) in
    rw (← append_assoc seen p (joined ps)) (
      body_writes_kept ps (body_write b p) (seen ++ p)
        (
          body_write-closed b p opened,
          body_write-content b seen p opened content,
          body_write-size b seen p opened size here,
        )
        (rw (append_assoc seen p (joined ps)) small))

body_writes_released :
    (ps : List Bytes) (b : BodyBuffer) → body_writes (body_release b) ps ≡ body_release b
unfolding body_writes body_write
body_writes_released [] b = refl
body_writes_released (p ∷ ps) b = body_writes_released ps b

-- After any writes a body's open buffer has the first bytes of all that was written, at most the limit,
-- and the size of the whole, for a size that an int64 counts. Once it is released it keeps nothing,
-- and takes nothing of what is written after that.
pub body_writes-StandsFor :
    (ps late : List Bytes) (b : BodyBuffer) (seen : Bytes)
    → StandsFor b seen
    → IsCountable (length (seen ++ joined ps))
    → StandsFor (body_writes b ps) (seen ++ joined ps)
      × (body_writes (body_release (body_writes b ps)) late
          ≡ record { content = []; size = pos 0; closed = true })
body_writes-StandsFor ps late b seen h small =
    (body_writes_kept ps b seen h small, body_writes_released late (body_writes b ps))
