-- ===== src/Runtime/Atomic.antt =====
-- Update over a host that compares versions: the stored value is replaced in one step.
use airgate_sdk.Prelude.{
  Result, ok, ◌≡◌, ◌≢◌, refl, sym, ap, ◌∙◌, subst, Bool, true, false, List, String,
}
use airgate_sdk.Runtime.{
  Host, Entry, Field, get, cas, replied, text_field, flag_field, Attempt, swapped, refused, attempt,
  update,
}
use airgate_sdk.Runtime.Attempts.{
  UpdateEnd, stored, given_up, cancelled, contention, update-UpdateEnd,
}
use airgate_sdk.Runtime.Tries.{answered, answered-Tried}

-- What Update relies on. `kept` is what the host keeps for a key, and `served` is the world in
-- which it serves a call, once others have made theirs. `unwritten`: if a key has the same version at
-- a Get and at the call after it, it has the same value.
pub record IsVersioned {W E : Type 0} (h : Host W E) : Type 0 where
  pub kept : W → String → Entry
  pub served : W → W
  pub get_value :
      (w : W) (key : String) (p : List (String × Field))
      → (h.invoke w (get key)).1 ≡ replied p
      → text_field "value" p ≡ (kept (served w) key).value
  pub get_version :
      (w : W) (key : String) (p : List (String × Field))
      → (h.invoke w (get key)).1 ≡ replied p
      → text_field "version" p ≡ (kept (served w) key).version
  pub swaps_at :
      (w : W) (key version value : String) (p : List (String × Field))
      → (h.invoke w (cas key version value)).1 ≡ replied p
      → flag_field "swapped" p ≡ true
      → (kept (served w) key).version ≡ version
  pub refuses_at :
      (w : W) (key version value : String) (p : List (String × Field))
      → (h.invoke w (cas key version value)).1 ≡ replied p
      → flag_field "swapped" p ≡ false
      → (kept (served w) key).version ≢ version
  pub swaps_value :
      (w : W) (key version value : String) (p : List (String × Field))
      → (h.invoke w (cas key version value)).1 ≡ replied p
      → flag_field "swapped" p ≡ true
      → (kept (h.invoke w (cas key version value)).0 key).value ≡ value
  pub unwritten :
      (w : W) (key : String)
      → (kept (served w) key).version ≡ (kept (served (h.invoke w (get key)).0) key).version
      → (kept (served w) key).value ≡ (kept (served (h.invoke w (get key)).0) key).value

-- `v` was written in one step, from the world in which the call was served to `w'`: it is `f` of the
-- value that the key had there, whose version the swap names.
pub record IsReplaced {W E : Type 0} (h : Host W E) (s : IsVersioned h) (key : String)
    (f : String → Result E String) (v : String) (w' : W) : Type 0 where
  pub before : W
  pub version : String
  pub step : w' ≡ (h.invoke before (cas key version v)).0
  pub current : (s.kept (s.served before) key).version ≡ version
  pub from_current : f (s.kept (s.served before) key).value ≡ ok v
  pub value : (s.kept w' key).value ≡ v

swapped-answered :
    {E : Type 0} (b : Bool) {v v' : String}
    → ◌≡◌ {A = Attempt E} (answered b v) (swapped v')
    → (b ≡ true) × (v ≡ v')
swapped-answered true e = (refl, cc e)
swapped-answered false e = absurd (cc e)

pub answered-refused :
    {E : Type 0} (b : Bool) (v : String) → ◌≡◌ {A = Attempt E} (answered b v) refused → b ≡ false
answered-refused true v e = absurd (cc e)
answered-refused false v e = refl

module _ {W E : Type 0} (h : Host W E) (key : String) (f : String → Result E String) where
  -- The attempt behind a success.
  last_attempt :
      {start : W} {r : W × Result E String} {v : String}
      → UpdateEnd h key f start r
      → r.1 ≡ ok v
      → (w : W) × (attempt h w key f ≡ (r.0, swapped v))
  last_attempt (stored {w1 = w} {w2 = w2} less r e) same =
      (w, e ∙ ap (λ a. (w2, swapped a)) (cc same))
  last_attempt (given_up less r e) same = absurd (cc same)
  last_attempt (cancelled less r e c) same = absurd (cc same)
  last_attempt (contention r) same = absurd (cc same)

  swapped-IsReplaced :
      (s : IsVersioned h) (w w' : W) (v : String)
      → attempt h w key f ≡ (w', swapped v)
      → IsReplaced h s key f v w'
  swapped-IsReplaced s w w' v e =
      let t = answered-Tried h key f w w' true v e in
      let outcome = sym t.attempt_lem ∙ e in
      let (flag, value) =
        swapped-answered (flag_field "swapped" t.answer) (ap (λ r. r.1) outcome) in
      let w1 = (h.invoke w (get key)).0 in
      let version = text_field "version" t.got in
      let stepped = ap (λ r. r.0) outcome in
      record {
        before = w1;
        version = version;
        step = sym stepped ∙ ap (λ u. (h.invoke w1 (cas key version u)).0) value;
        current = s.swaps_at w1 key version t.value t.answer t.answer_reply flag;
        from_current =
            sym (
              ap f (
                s.get_value w key t.got t.got_reply
                ∙ s.unwritten w key (
                    sym (s.get_version w key t.got t.got_reply)
                    ∙ sym (s.swaps_at w1 key version t.value t.answer t.answer_reply flag))))
            ∙ t.value_lem
            ∙ ap ok value;
        value =
            subst (λ u. (s.kept u key).value ≡ v) stepped
              (s.swaps_value w1 key version t.value t.answer t.answer_reply flag ∙ value);
      }

  -- Over a host that compares versions, and whatever the others do between the calls: an Update that
  -- gives a value without an error has written it in one step, and it is `f` of the value that stood
  -- there at that step, whose version the swap has compared.
  pub update-IsReplaced :
      (s : IsVersioned h) (w w' : W) (v : String)
      → update h w key f ≡ (w', ok v)
      → IsReplaced h s key f v w'
  update-IsReplaced s w w' v e =
      let (w1, last) = last_attempt (update-UpdateEnd h key f w) (ap (λ r. r.1) e) in
      swapped-IsReplaced s w1 w' v (last ∙ ap (λ u. (u, swapped v)) (ap (λ r. r.0) e))
