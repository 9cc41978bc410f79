-- ===== src/Tests/Cells.antt =====
-- A host that numbers the versions of its keys, like devkit/testhost/state.go, and whose other clients
-- write and delete between its calls.
use airgate_sdk.Prelude.{
  ℕ, zero, suc, ◌++◌, ◌≡◌, refl, sym, ap, ◌∙◌, subst, inl, inr, Bool, true, false, none, List, [],
  ◌∷◌, String, Bool-cases, if◌then◌else◌,
}
use text.Mathlib.Text.{◌==◌}
use text.Mathlib.TextEquality.{eq_iff}
use airgate_sdk.Tests.Changes.{Change, put, cell, version_of, same_number, cell_same}
use airgate_sdk.Runtime.{
  Host, Entry, Field, scalar, string, bool, StateRequest, get, get_many, take, cas, delete, Reply,
  failed, empty, replied, text_field, flag_field, find_field,
}
use airgate_sdk.Runtime.Atomic.{IsVersioned}
use airgate_sdk.Runtime.Progress.{IsResponsive}

-- The changes of the state, the last one first, and those that the others will make before each of the
-- next calls.
pub record Cells : Type 0 where
  pub history : List Change
  pub later : List (List Change)

abbrev pub next_changes : List Change → List (List Change) → Cells
next_changes cs [] = record { history = cs; later = [] }
next_changes cs (more ∷ rest) = record { history = more ++ cs; later = rest }

abbrev pub call_served : Cells → Cells
call_served c = next_changes c.history c.later

abbrev pub is_put : ℕ → Bool
is_put zero = false
is_put (suc n) = true

abbrev pub entry_reply : String × ℕ → Reply String
entry_reply e = replied (
    ("value", scalar (string e.0))
    ∷ ("version", scalar (string (version_of e.1)))
    ∷ ("found", scalar (bool (is_put e.1)))
    ∷ [])

abbrev pub swap_reply : Bool → Reply String
swap_reply b = replied (("swapped", scalar (bool b)) ∷ [])

abbrev pub cell_invoke : Cells → StateRequest → Cells × Reply String
cell_invoke c (get key) = (call_served c, entry_reply (cell key (call_served c).history))
cell_invoke c (cas key version value) =
    if version_of (cell key (call_served c).history).1 == version
    then (
      record (call_served c) { history = put key value ∷ (call_served c).history },
      swap_reply true,
    )
    else (call_served c, swap_reply false)
cell_invoke c _ = (call_served c, replied [])

abbrev pub cell_host : Host Cells String
cell_host = record { invoke = cell_invoke; wait = λ n c. (c, none); text_error = λ s. s }

module _ (key : String) where
  served_same :
      (later : List (List Change)) (cs : List Change)
      → (cell key cs).1 ≡ (cell key (next_changes cs later).history).1
      → (cell key cs).0 ≡ (cell key (next_changes cs later).history).0
  served_same [] cs same = refl
  served_same (more ∷ rest) cs same = cell_same key more cs same

abbrev pub fields_of : Reply String → List (String × Field)
fields_of (failed _) = []
fields_of empty = []
fields_of (replied p) = p

module _ (c : Cells) (key : String) where
  cell_value :
      (p : List (String × Field))
      → (cell_invoke c (get key)).1 ≡ replied p
      → text_field "value" p ≡ (cell key (call_served c).history).0
  unfolding text_field find_field
  cell_value p e = ap (λ r. text_field "value" (fields_of r)) (sym e)

  cell_version :
      (p : List (String × Field))
      → (cell_invoke c (get key)).1 ≡ replied p
      → text_field "version" p ≡ version_of (cell key (call_served c).history).1
  unfolding text_field find_field
  cell_version p e = ap (λ r. text_field "version" (fields_of r)) (sym e)

  module _ (version value : String) where
    cell_swap :
        (b : Bool)
        → (version_of (cell key (call_served c).history).1 == version) ≡ b
        → cell_invoke c (cas key version value) ≡ (
            if b
            then (
              record (call_served c) { history = put key value ∷ (call_served c).history },
              swap_reply true,
            )
            else (call_served c, swap_reply false))
    cell_swap b e = rw e refl

    cell_flag :
        (b : Bool) (p : List (String × Field))
        → (version_of (cell key (call_served c).history).1 == version) ≡ b
        → (cell_invoke c (cas key version value)).1 ≡ replied p
        → flag_field "swapped" p ≡ b
    unfolding flag_field find_field
    cell_flag true p e r =
        ap (λ x. flag_field "swapped" (fields_of x)) (sym r ∙ ap (λ x. x.1) (cell_swap true e))
    cell_flag false p e r =
        ap (λ x. flag_field "swapped" (fields_of x)) (sym r ∙ ap (λ x. x.1) (cell_swap false e))

    -- The flag of the answer is the comparison of the versions.
    cell_compared :
        (p : List (String × Field))
        → (cell_invoke c (cas key version value)).1 ≡ replied p
        → (version_of (cell key (call_served c).history).1 == version) ≡ flag_field "swapped" p
    cell_compared p r = sym (cell_flag _ p refl r)

    cell_put :
        (p : List (String × Field))
        → (cell_invoke c (cas key version value)).1 ≡ replied p
        → flag_field "swapped" p ≡ true
        → (cell key (cell_invoke c (cas key version value)).0.history).0 ≡ value
    cell_put p r swapped =
        rw (cell_swap true (cell_compared p r ∙ swapped)) (rw ((eq_iff key key).1 refl) refl)

true≢false : {A : Type 0} → true ≡ false → A
true≢false e = absurd (cc e)

abbrev pub cell_entry : Cells → String → Entry
cell_entry c key = record {
  value = (cell key c.history).0;
  version = version_of (cell key c.history).1;
  found = is_put (cell key c.history).1;
}

pub cell_host-IsVersioned : IsVersioned cell_host
cell_host-IsVersioned = record {
  kept = cell_entry;
  served = call_served;
  get_value = cell_value;
  get_version = cell_version;
  swaps_at = λ c key version value p r swapped.
      (eq_iff (version_of (cell key (call_served c).history).1) version).0
        (cell_compared c key version value p r ∙ swapped);
  refuses_at = λ c key version value p r refused same. true≢false (
      sym ((eq_iff (version_of (cell key (call_served c).history).1) version).1 same)
      ∙ (cell_compared c key version value p r ∙ refused));
  swaps_value = cell_put;
  unwritten = λ c key e. served_same key (call_served c).later (call_served c).history (
      same_number (cell key (call_served c).history).1
        (cell key (call_served (call_served c)).history).1 e);
}

cell_reply :
    (c : Cells) (q : StateRequest) → (p : List (String × Field)) × ((cell_invoke c q).1 ≡ replied p)
cell_reply c (get key) = (_, refl)
cell_reply c (get_many keys) = (_, refl)
cell_reply c (take key) = (_, refl)
cell_reply c (delete key version) = (_, refl)
cell_reply c (cas key version value) =
    elim (Bool-cases (version_of (cell key (call_served c).history).1 == version)) [
      | inl same_version ↦ (_, ap (λ r. r.1) (cell_swap c key version value true same_version))
      | inr stale ↦ (_, ap (λ r. r.1) (cell_swap c key version value false stale))
    ]

abbrev pub is_tagged : String → Bool
is_tagged String.[] = false
is_tagged (String.◌∷◌ c s) = true

tagged : (n : ℕ) → (version_of n == "") ≡ false
tagged n = elim (Bool-cases (version_of n == "")) [
  | inr differs ↦ differs
  | inl same ↦ true≢false (ap is_tagged ((eq_iff (version_of n) "").0 same))
]

pub cell_host-IsResponsive : IsResponsive cell_host
cell_host-IsResponsive = record {
  replies = cell_reply;
  versions = λ c key p r.
      subst (λ v. (v == "") ≡ false) (sym (cell_version c key p r))
        (tagged (cell key (call_served c).history).1);
  waits = λ n c. refl;
}
