-- ===== src/Runtime/Tries.antt =====
-- What one attempt of Update did, when no error stopped it.
use airgate_sdk.Prelude.{
  Result-cases, Result, ok, err, ◌≡◌, refl, sym, ap, ◌∙◌, ◌⊎◌, inl, inr, Bool, true, false, List,
  String, Bool-cases,
}
use text.Mathlib.Text.{◌==◌}
use airgate_sdk.Runtime.{
  Host, Entry, Field, get, cas, Reply, failed, empty, replied, text_field, flag_field, Attempt,
  swapped, refused, stopped, attempt, read_entry, get_entry, read_swapped, compare_and_swap,
}

err≢ok : {E A B : Type 0} {x : E} {a : A} → err x ≡ ok a → B
err≢ok e = absurd (cc e)

abbrev pub entry_of : List (String × Field) → Entry
entry_of p = record {
  value = text_field "value" p;
  version = text_field "version" p;
  found = flag_field "found" p;
}

-- What an attempt comes to once its swap is answered.
abbrev pub answered : {E : Type 0} → Bool → String → Attempt E
answered true value = swapped value
answered false value = refused

pub stopped≢answered :
    {E A : Type 0} {x : E} (b : Bool) (v : String)
    → ◌≡◌ {A = Attempt E} (stopped x) (answered b v)
    → A
stopped≢answered true v e = absurd (cc e)
stopped≢answered false v e = absurd (cc e)

-- The replies to the two calls of an attempt.
pub record Tried {W E : Type 0} (h : Host W E) (key : String) (f : String → Result E String) (w : W)
    : Type 0 where
  pub got : List (String × Field)
  pub got_reply : (h.invoke w (get key)).1 ≡ replied got
  pub value : String
  pub value_lem : f (text_field "value" got) ≡ ok value
  pub answer : List (String × Field)
  pub answer_reply :
      (h.invoke (h.invoke w (get key)).0 (cas key (text_field "version" got) value)).1
      ≡ replied answer
  pub attempt_lem : attempt h w key f ≡ (
    (h.invoke (h.invoke w (get key)).0 (cas key (text_field "version" got) value)).0,
    answered (flag_field "swapped" answer) value,
  )

module _ {W E : Type 0} (h : Host W E) where
  read_entry_replied :
      (r : Reply E) (entry : Entry)
      → read_entry h r ≡ ok entry
      → (p : List (String × Field)) × (r ≡ replied p) × (read_entry h r ≡ ok (entry_of p))
  unfolding read_entry
  read_entry_replied (failed x) entry e = err≢ok e
  read_entry_replied empty entry e = err≢ok e
  read_entry_replied (replied p) entry e = elim (Bool-cases (text_field "version" p == "")) [
    | inl bad ↦ err≢ok (rw bad at e)
    | inr good ↦ (p, refl, rw (good, read_entry) refl)
  ]

  read_swapped_replied :
      (r : Reply E) (b : Bool)
      → read_swapped h r ≡ ok b
      → (p : List (String × Field)) × (r ≡ replied p) × (flag_field "swapped" p ≡ b)
  unfolding read_swapped
  read_swapped_replied (failed x) b e = err≢ok e
  read_swapped_replied empty b e = err≢ok e
  read_swapped_replied (replied p) b e = (p, refl, cc e)

module _ {W E : Type 0} (h : Host W E) (key : String) (f : String → Result E String) (w : W) where
  got_failed :
      (x : E)
      → read_entry h (h.invoke w (get key)).1 ≡ err x
      → attempt h w key f ≡ ((h.invoke w (get key)).0, stopped x)
  unfolding attempt get_entry
  got_failed x g = rw (g, attempt) refl

  value_failed :
      (entry : Entry) (x : E)
      → read_entry h (h.invoke w (get key)).1 ≡ ok entry
      → f entry.value ≡ err x
      → attempt h w key f ≡ ((h.invoke w (get key)).0, stopped x)
  unfolding attempt get_entry
  value_failed entry x g v = rw (g, v, attempt) refl

  swap_failed :
      (entry : Entry) (value : String) (x : E)
      → read_entry h (h.invoke w (get key)).1 ≡ ok entry
      → f entry.value ≡ ok value
      → read_swapped h (h.invoke (h.invoke w (get key)).0 (cas key entry.version value)).1 ≡ err x
      → attempt h w key f
        ≡ ((h.invoke (h.invoke w (get key)).0 (cas key entry.version value)).0, stopped x)
  unfolding attempt get_entry compare_and_swap
  swap_failed entry value x g v s = rw (g, v, s, attempt) refl

  pub swap_done :
      (entry : Entry) (value : String) (b : Bool)
      → read_entry h (h.invoke w (get key)).1 ≡ ok entry
      → f entry.value ≡ ok value
      → read_swapped h (h.invoke (h.invoke w (get key)).0 (cas key entry.version value)).1 ≡ ok b
      → attempt h w key f
        ≡ ((h.invoke (h.invoke w (get key)).0 (cas key entry.version value)).0, answered b value)
  unfolding attempt get_entry compare_and_swap
  swap_done entry value true g v s = rw (g, v, s, attempt) refl
  swap_done entry value false g v s = rw (g, v, s, attempt) refl

  attempt-Tried : Tried h key f w ⊎ ((w' : W) × (x : E) × (attempt h w key f ≡ (w', stopped x)))
  attempt-Tried = elim (Result-cases (read_entry h (h.invoke w (get key)).1)) [
    | inl (x, g) ↦ inr (_, x, got_failed x g)
    | inr (entry, g0) ↦
        let (p, reply, g) = read_entry_replied h (h.invoke w (get key)).1 entry g0 in
        elim (Result-cases (f (text_field "value" p))) [
          | inl (x, v) ↦ inr (_, x, value_failed (entry_of p) x g v)
          | inr (value, v) ↦
              let call = cas key (text_field "version" p) value in
              elim (Result-cases (read_swapped h (h.invoke (h.invoke w (get key)).0 call).1)) [
                | inl (x, s) ↦ inr (_, x, swap_failed (entry_of p) value x g v s)
                | inr (b, s) ↦
                    let (q, answer, swap) =
                      read_swapped_replied h (h.invoke (h.invoke w (get key)).0 call).1 b s in
                    inl (record {
                      got = p;
                      got_reply = reply;
                      value = value;
                      value_lem = v;
                      answer = q;
                      answer_reply = answer;
                      attempt_lem =
                          swap_done (entry_of p) value b g v s
                          ∙ ap (λ a. ((h.invoke (h.invoke w (get key)).0 call).0, answered a value))
                              (sym swap);
                    })
              ]
        ]
  ]

  -- An attempt that no error stopped made both calls.
  pub answered-Tried :
      (w' : W) (b : Bool) (v : String) → attempt h w key f ≡ (w', answered b v) → Tried h key f w
  answered-Tried w' b v e = elim attempt-Tried [
    | inl tried ↦ tried
    | inr (w1, x, stop) ↦ stopped≢answered b v (ap (λ r. r.1) (sym stop ∙ e))
  ]
