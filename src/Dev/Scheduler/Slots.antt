-- ===== src/Dev/Scheduler/Slots.antt =====
-- The loop of selectWeightedRR against a description by filtering, and what one selection picks.
use airgate_sdk.Prelude.{
  ℕ, zero, ℤ, pos, eqb_ℤ, eqb_ℤ_iff, ltb_ℤ_iff, ◌≡◌, ◌≢◌, refl, sym, ◌∙◌, ap, subst, ◌⊎◌, inl, inr,
  true, false, none, some, List, [], ◌∷◌, ◌++◌, if◌then◌else◌, length, get_elem?, replicate, arith,
  All, Bool-cases, ◌<◌, ◌%◌, suc, ◌↔◌,
}
use native.Mathlib.Nat.{mod-lt}
use airgate_sdk.Dev.Accounts.{DevAccount}
use airgate_sdk.Dev.Scheduler.{
  Scheduler, Cooldowns, cooling, forget, effective_weight, collect_slots, pick, select_weighted_rr,
}

-- The slots without the deletions: every account that does not rest, as often as its weight.
unfoldable pub slots_of : Cooldowns → ℤ → List DevAccount → List DevAccount
slots_of c now [] = []
slots_of c now (a ∷ accounts) =
    if cooling c now a.id
    then slots_of c now accounts
    else replicate (effective_weight a.weight) a ++ slots_of c now accounts

-- Two maps of cooldowns that rest the same accounts at a time.
abbrev pub SameRest : ℤ → Cooldowns → Cooldowns → Type 0
SameRest now c d = (j : ℤ) → cooling c now j ≡ cooling d now j

pub slots_of-SameRest :
    (now : ℤ) (c d : Cooldowns) (accounts : List DevAccount)
    → SameRest now c d
    → slots_of c now accounts ≡ slots_of d now accounts
unfolding slots_of
slots_of-SameRest now c d [] h = refl
slots_of-SameRest now c d (a ∷ accounts) h = rw (h a.id, slots_of-SameRest now c d accounts h)

-- Dropping an entry that has expired.
forget-SameRest :
    (now : ℤ) (c : Cooldowns) (id : ℤ) → cooling c now id ≡ false → SameRest now (forget c id) c
unfolding forget cooling
forget-SameRest now c id h j = elim (Bool-cases (eqb_ℤ id j)) [
  | inl same ↦ rw (same) (sym (rw (← (eqb_ℤ_iff id j).0 same) h))
  | inr other ↦ rw (other)
]

pub collect_slots_lem :
    (c : Cooldowns) (now : ℤ) (accounts : List DevAccount)
    → let (c', slots) = collect_slots c now accounts in
      (slots ≡ slots_of c now accounts) × SameRest now c' c
unfolding collect_slots slots_of
collect_slots_lem c now [] = (refl, λ j. refl)
collect_slots_lem c now (a ∷ accounts) = elim (Bool-cases (cooling c now a.id)) [
  | inl rests ↦ rw (rests, collect_slots) (collect_slots_lem c now accounts)
  | inr free ↦
      let (slots, same) = collect_slots_lem (forget c a.id) now accounts in
      let dropped = forget-SameRest now c a.id free in
      rw (free, collect_slots)
        (
          rw (slots, slots_of-SameRest now (forget c a.id) c accounts dropped),
          λ j. same j ∙ dropped j,
        )
]

-- One of the list.
abbrev pub Among : {A : Type 0} → A → List A → Type 0
Among a [] = ⊥
Among a (x ∷ xs) = (x ≡ a) ⊎ Among a xs

Among-append : {A : Type 0} (a : A) (xs ys : List A) → Among a (xs ++ ys) → Among a xs ⊎ Among a ys
Among-append a [] ys h = inr h
Among-append a (x ∷ xs) ys (inl e) = inl (inl e)
Among-append a (x ∷ xs) ys (inr h) = elim (Among-append a xs ys h) [
  | inl hx ↦ inl (inr hx)
  | inr hy ↦ inr hy
]

Among-replicate : {A : Type 0} (a x : A) (n : ℕ) → Among a (replicate n x) → x ≡ a
Among-replicate a x zero h = absurd h
Among-replicate a x (suc n) (inl e) = e
Among-replicate a x (suc n) (inr h) = Among-replicate a x n h

pub get_elem-Among :
    {A : Type 0} (xs : List A) (i : ℕ) (a : A) → get_elem? xs i ≡ some a → Among a xs
get_elem-Among [] i a h = absurd (ground arith)
get_elem-Among (x ∷ xs) zero a h = inl (ground arith)
get_elem-Among (x ∷ xs) (suc i) a h = inr (get_elem-Among xs i a h)

pub get_elem_below :
    {A : Type 0} (xs : List A) (i : ℕ) → i < length xs → (a : A) × (get_elem? xs i ≡ some a)
get_elem_below [] i h = absurd (omega arith)
get_elem_below (x ∷ xs) zero h = (x, refl)
get_elem_below (x ∷ xs) (suc i) h = get_elem_below xs i (omega arith)

-- A slot is a slot of an account of the store that does not rest.
pub slots_of-Among :
    (c : Cooldowns) (now : ℤ) (accounts : List DevAccount) (a : DevAccount)
    → Among a (slots_of c now accounts)
    → Among a accounts × (cooling c now a.id ≡ false)
unfolding slots_of
slots_of-Among c now [] a h = absurd h
slots_of-Among c now (x ∷ accounts) a h = elim (Bool-cases (cooling c now x.id)) [
  | inl rests ↦
      let (there, free) = slots_of-Among c now accounts a (rw rests at h) in (inr there, free)
  | inr free ↦
      elim (Among-append a (replicate (effective_weight x.weight) x) (slots_of c now accounts)
        (rw free at h)) [
          | inl here ↦
              let e = Among-replicate a x (effective_weight x.weight) here in (inl e, rw (← e) free)
          | inr later ↦
              let (there, idle) = slots_of-Among c now accounts a later in (inr there, idle)
        ]
]

weight_positive : (w : ℤ) → 0 < effective_weight w
unfolding effective_weight
weight_positive w = ground (arith, ltb_ℤ_iff (pos 0) w)

replicate-append_nonempty :
    {A : Type 0} (n : ℕ) (a : A) (ys : List A) → 0 < n → replicate n a ++ ys ≢ []
replicate-append_nonempty zero a ys h = absurd (omega arith)
replicate-append_nonempty (suc n) a ys h = λ e. absurd (ground arith)

-- No slot is left when every account rests, and only then.
pub slots_of_none :
    (c : Cooldowns) (now : ℤ) (accounts : List DevAccount)
    → slots_of c now accounts ≡ []
    → All (λ a. cooling c now a.id ≡ true) accounts
unfolding slots_of effective_weight
slots_of_none c now [] h = tt
slots_of_none c now (a ∷ accounts) h = elim (Bool-cases (cooling c now a.id)) [
  | inl rests ↦ (rests, slots_of_none c now accounts (rw rests at h))
  | inr free ↦ absurd (
      replicate-append_nonempty (effective_weight a.weight) a _ (weight_positive a.weight)
        (rw free at h))
]

-- Two selections from maps that rest the same accounts see the same slots.
pub pick_lem :
    (s : Scheduler) (fallback : DevAccount) (slots : List DevAccount)
    → let (s', r) = pick s fallback slots in
      ((a : DevAccount) → r ≡ some a → Among a slots ⊎ ((slots ≡ []) × (fallback ≡ a)))
      × (r ≢ none)
      × (s'.cooldown ≡ s.cooldown)
unfolding pick
pick_lem s fallback [] = (λ a e. inr (refl, ground arith), λ e. absurd (ground arith), refl)
pick_lem s fallback (x ∷ slots) =
    let i = s.counter % length (x ∷ slots) in
    let (a, e) = get_elem_below (x ∷ slots) i (mod-lt s.counter (omega arith)) in
    (λ a h. inl (get_elem-Among (x ∷ slots) i a h), λ h. absurd (ground (arith, e)), refl)

-- selectWeightedRR picks nothing exactly when the store is empty; what it picks is in the store,
-- and it rests only if all of them do; which accounts rest, the selection does not change.
pub select_weighted_rr_lem :
    (s : Scheduler) (now : ℤ) (accounts : List DevAccount)
    → let (s', r) = select_weighted_rr s now accounts in
      ((r ≡ none) ↔ (accounts ≡ []))
      × ((a : DevAccount)
          → r ≡ some a
          → Among a accounts
            × ((cooling s.cooldown now a.id ≡ false)
                ⊎ All (λ b. cooling s.cooldown now b.id ≡ true) accounts))
      × SameRest now s'.cooldown s.cooldown
unfolding select_weighted_rr
select_weighted_rr_lem s now [] = ((λ _. refl, λ _. refl), λ a e. absurd (ground arith), λ j. refl)
select_weighted_rr_lem s now (x ∷ accounts) =
    let all = x ∷ accounts in
    let (c, slots) = collect_slots s.cooldown now all in
    let (is_slots, same) = collect_slots_lem s.cooldown now all in
    let (picks, found, kept) = pick_lem (record s { cooldown = c }) x slots in
    (
      (λ e. absurd (found e), λ e. absurd (ground arith)),
      λ a e. elim (picks a e) [
        | inl slot ↦
            let (there, free) =
              slots_of-Among s.cooldown now all a (subst (Among a) is_slots slot) in
            (there, inl free)
        | inr (empty, first) ↦
            (inl first, inr (slots_of_none s.cooldown now all (sym is_slots ∙ empty)))
      ],
      λ j. ap (λ d. cooling d now j) kept ∙ same j,
    )
