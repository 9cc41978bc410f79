-- ===== src/Trace/Retention.antt =====
-- Which requests of an attempt the collector keeps.
use airgate_sdk.Prelude.{
  ℕ, suc, zero, ◌-◌, ◌≤◌, ◌≡◌, refl, sym, ap, ◌∙◌, inl, inr, List, [], ◌∷◌, ◌++◌, length, drop, ltb,
  ltb→lt, ltb-false, arith, length-append, length-drop, drop-drop, append_assoc, Bool-cases,
  append-nil,
}
use airgate_sdk.Trace.{Exchange, max_requests, add_exchange}

-- What the list is after these additions.
unfoldable pub add_exchanges : List Exchange → List Exchange → List Exchange
add_exchanges [] es = es
add_exchanges (e ∷ added) es = add_exchanges added (add_exchange e es)

-- The first one, and the last seven of the others.
unfoldable pub retained : List Exchange → List Exchange
retained [] = []
retained (e ∷ es) = e ∷ drop (length es - 7) es

drop-append : (n : ℕ) (xs ys : List Exchange) → n ≤ length xs → drop n (xs ++ ys) ≡ drop n xs ++ ys
drop-append zero xs ys h = refl
drop-append (suc n) [] ys h = absurd (omega arith)
drop-append (suc n) (x ∷ xs) ys h = drop-append n xs ys (omega arith)

drop_at : (m n : ℕ) (xs : List Exchange) → m ≡ n → drop m xs ≡ drop n xs
drop_at m n xs e = ap (λ k. drop k xs) e

-- One more addition, after any number of them.
retained_step :
    (all : List Exchange) (e : Exchange) → add_exchange e (retained all) ≡ retained (all ++ e ∷ [])
unfolding add_exchange retained
retained_step [] e = refl
retained_step (x ∷ xs) e =
    let d = drop (length xs - 7) xs in
    let kept = length-drop (length xs - 7) xs in
    let grown = length-append xs (e ∷ []) in
    elim (Bool-cases (ltb (length (x ∷ d)) max_requests)) [
      | inl room ↦
          let few = ltb→lt (length (x ∷ d)) max_requests room in
          rw (room, add_exchange)
            (ap (λ l. x ∷ l)
              (ap (λ l. l ++ e ∷ []) (drop_at (length xs - 7) 0 xs (omega (arith, few, kept)))
                ∙ drop_at 0 (length (xs ++ e ∷ []) - 7) (xs ++ e ∷ [])
                    (omega (arith, few, kept, grown))))
      | inr full ↦
          let many = ltb-false (length (x ∷ d)) max_requests full in
          rw (full, add_exchange)
            (ap (λ l. x ∷ l)
              (ap (λ l. l ++ e ∷ [])
                  (sym (drop-drop (length xs - 7) 1 (length xs - 6) xs (omega (arith, many, kept))))
                ∙ sym (drop-append (length xs - 6) xs (e ∷ []) (omega (arith, many, kept)))
                ∙ drop_at (length xs - 6) (length (xs ++ e ∷ []) - 7) (xs ++ e ∷ [])
                    (omega (arith, many, kept, grown))))
    ]

add_exchanges_lem :
    (added all : List Exchange) → add_exchanges added (retained all) ≡ retained (all ++ added)
unfolding add_exchanges
add_exchanges_lem [] all = ap retained (sym (append-nil all))
add_exchanges_lem (e ∷ added) all =
    ap (add_exchanges added) (retained_step all e)
    ∙ add_exchanges_lem added (all ++ e ∷ [])
    ∙ ap retained (append_assoc all (e ∷ []) added)

-- However many requests an attempt has, the collector keeps the first one and the last seven of the
-- others, in their order.
pub add_exchanges-retained :
    (added : List Exchange)
    → (add_exchanges added [] ≡ retained added) × (length (retained added) ≤ max_requests)
unfolding retained
add_exchanges-retained added = (add_exchanges_lem added [], at_most added)
  where
    at_most : (es : List Exchange) → length (retained es) ≤ max_requests
    at_most [] = omega arith
    at_most (e ∷ es) = omega (arith, length-drop (length es - 7) es)
