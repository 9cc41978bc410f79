-- ===== src/Runtime/Progress.antt =====
-- When Update can fail over a host that answers: only through sixteen writes of others.
use airgate_sdk.Prelude.{
  Result, ok, ℕ, suc, ◌+◌, ◌/◌, ◌≡◌, ◌≢◌, refl, sym, ap, ◌∙◌, subst, ◌⊎◌, inl, inr, Bool, false,
  none, List, String,
}
use text.Mathlib.Text.{◌==◌}
use airgate_sdk.Runtime.{
  Host, Field, StateRequest, get, cas, Reply, replied, text_field, flag_field, refused,
  max_attempts, attempt, update, read_entry, read_swapped,
}
use airgate_sdk.Runtime.Attempts.{
  Refusals, first, again, UpdateEnd, stored, given_up, cancelled, contention, update-UpdateEnd,
}
use airgate_sdk.Runtime.Tries.{answered, answered-Tried, entry_of, swap_done, stopped≢answered}
use airgate_sdk.Runtime.Atomic.{IsVersioned, answered-refused}

-- The host answers each call, an answer to Get has a version, and the context does not end.
pub record IsResponsive {W E : Type 0} (h : Host W E) : Type 0 where
  pub replies :
      (w : W) (q : StateRequest) → (p : List (String × Field)) × ((h.invoke w q).1 ≡ replied p)
  pub versions :
      (w : W) (key : String) (p : List (String × Field))
      → (h.invoke w (get key)).1 ≡ replied p
      → (text_field "version" p == "") ≡ false
  pub waits : (n : ℕ) (w : W) → (h.wait n w).1 ≡ none

module _ {W E : Type 0} (h : Host W E) (key : String) (f : String → Result E String) where
  read_replied :
      (r : Reply E) (p : List (String × Field))
      → r ≡ replied p
      → (text_field "version" p == "") ≡ false
      → read_entry h r ≡ ok (entry_of p)
  unfolding read_entry
  read_replied r p e good = rw (e, good, read_entry) refl

  swap_replied :
      (r : Reply E) (p : List (String × Field))
      → r ≡ replied p
      → read_swapped h r ≡ ok (flag_field "swapped" p)
  unfolding read_swapped
  swap_replied r p e = rw (e, read_swapped) refl

  attempt-answered :
      IsResponsive h
      → ((x : String) → (v : String) × (f x ≡ ok v))
      → (w : W) → (b : Bool) × (v : String) × ((attempt h w key f).1 ≡ answered b v)
  attempt-answered s total w =
      let (p, reply) = s.replies w (get key) in
      let (v, valid) = total (text_field "value" p) in
      let w1 = (h.invoke w (get key)).0 in
      let call = cas key (text_field "version" p) v in
      let (q, answer) = s.replies w1 call in
      let b = flag_field "swapped" q in
      (
        b,
        v,
        ap (λ r. r.1)
            (swap_done h key f w (entry_of p) v b
              (read_replied (h.invoke w (get key)).1 p reply (s.versions w key p reply)) valid
              (swap_replied (h.invoke w1 call).1 q answer)),
      )

  -- Between the two calls of the attempt that starts in this world, someone else changed the key.
  abbrev pub Overtaken : IsVersioned h → W → Type 0
  Overtaken s w =
      (s.kept (s.served (h.invoke w (get key)).0) key).version ≢ (s.kept (s.served w) key).version

  refused-Overtaken :
      (s : IsVersioned h) (w w' : W) → attempt h w key f ≡ (w', refused) → Overtaken s w
  refused-Overtaken s w w' e same =
      let t = answered-Tried h key f w w' false "" e in
      let no =
        answered-refused (flag_field "swapped" t.answer) t.value
          (ap (λ r. r.1) (sym t.attempt_lem ∙ e)) in
      s.refuses_at (h.invoke w (get key)).0 key (text_field "version" t.got) t.value t.answer
        t.answer_reply no (same ∙ sym (s.get_version w key t.got t.got_reply))

  -- So many attempts, one after the other, each of which was overtaken.
  pub data Overtakings (s : IsVersioned h) (start : W) : ℕ → W → Type 0 where
    none_yet : Overtakings s start 0 start
    one_more :
        {n : ℕ} {w : W}
        → Overtakings s start n w
        → Overtaken s w
        → Overtakings s start (suc n) (h.wait (1 + n / 2) (attempt h w key f).0).0

  Refusals-Overtakings :
      (s : IsVersioned h) {start : W} {n : ℕ} {w : W}
      → Refusals h key f start n w
      → Overtakings s start n w
  Refusals-Overtakings s first = none_yet
  Refusals-Overtakings s {start} (again {n} {w1} {w2} {w3} r e c) =
      let same : (h.wait (1 + n / 2) (attempt h w1 key f).0).0 ≡ w3 =
        ap (λ u. (h.wait (1 + n / 2) u).0) (ap (λ p. p.0) e) ∙ ap (λ p. p.0) c in
      subst (Overtakings s start (suc n)) same
        (one_more (Refusals-Overtakings s r) (refused-Overtaken s w1 w2 e))

  progress_of :
      (s : IsVersioned h)
      → IsResponsive h
      → ((x : String) → (v : String) × (f x ≡ ok v))
      → {start : W} {r : W × Result E String} → UpdateEnd h key f start r
      → ((v : String) × (r.1 ≡ ok v)) ⊎ Overtakings s start max_attempts r.0
  progress_of s live total (stored {v = v} less r e) = inl (v, refl)
  progress_of s live total (given_up {w1 = w} less r e) =
      let (b, v, a) = attempt-answered live total w in
      stopped≢answered b v (sym (ap (λ p. p.1) e) ∙ a)
  progress_of s live total (cancelled {n = n} {w2 = w} less r e c) =
      absurd (cc (sym (ap (λ p. p.1) c) ∙ live.waits (1 + n / 2) w))
  progress_of s live total (contention r) = inr (Refusals-Overtakings s r)

  -- Over a host that compares versions, answers each call and lets each wait pass, and with an `f`
  -- that has a value for every string: Update gives a value, unless in each of sixteen attempts in
  -- a row another client changed the key between the two calls of the attempt.
  pub update-Overtakings :
      (s : IsVersioned h)
      → IsResponsive h
      → ((x : String) → (v : String) × (f x ≡ ok v))
      → (w : W)
      → ((v : String) × ((update h w key f).1 ≡ ok v))
        ⊎ Overtakings s w max_attempts (update h w key f).0
  update-Overtakings s live total w = progress_of s live total (update-UpdateEnd h key f w)
