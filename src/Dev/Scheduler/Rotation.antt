-- ===== src/Dev/Scheduler/Rotation.antt =====
-- The counter of selectWeightedRR goes round the slots.
use airgate_sdk.Prelude.{
  ℕ, zero, suc, ℤ, ◌≡◌, ◌≢◌, refl, sym, ◌∙◌, ap, Option, some, List, [], ◌∷◌, ◌++◌, map, length,
  get_elem?, take, drop, arith, ◌+◌, ◌-◌, ◌%◌, ◌<◌, ◌≤◌, length-drop, take_all, false,
}
use text.Mathlib.Text.{◌==◌}
use native.Mathlib.Nat.{mod-lt, mod-eq_of_lt, mod_self, mod-add-mod}
use airgate_sdk.Dev.Accounts.{DevAccount, AccountStore, list}
use airgate_sdk.Dev.Scheduler.{
  Scheduler, schedule_none, collect_slots, pick, select, select_weighted_rr,
}
use airgate_sdk.Dev.Scheduler.Slots.{slots_of, slots_of-SameRest, collect_slots_lem}

-- What `n` turns give that start at the counter `c`.
turns : List DevAccount → ℕ → ℕ → List (Option DevAccount)
turns slots c zero = []
turns slots c (suc n) = get_elem? slots (c % length slots) ∷ turns slots (suc c) n

-- The counter after one more turn, modulo the number of slots.
suc-mod_below : (c n : ℕ) → suc (c % n) < n → suc c % n ≡ suc (c % n)
suc-mod_below c n h =
    let split : suc c ≡ c + 1 = omega arith in
    let small : c % n + 1 < n = omega arith in
    ap (λ k. k % n) split ∙ sym (mod-add-mod c n 1) ∙ mod-eq_of_lt small ∙ omega arith

add-mod_end : (c n : ℕ) → 0 < n → (c + (n - c % n)) % n ≡ 0
add-mod_end c n h =
    let below = mod-lt c h in
    let whole : c % n + (n - c % n) ≡ n = omega arith in
    sym (mod-add-mod c n (n - c % n)) ∙ ap (λ k. k % n) whole ∙ mod_self n

drop-get_elem :
    (slots : List DevAccount) (i n : ℕ)
    → i < length slots
    → map some (take (suc n) (drop i slots))
      ≡ get_elem? slots i ∷ map some (take n (drop (suc i) slots))
drop-get_elem [] i n h = absurd (omega arith)
drop-get_elem (x ∷ slots) zero n h = refl
drop-get_elem (x ∷ slots) (suc i) n h = drop-get_elem slots i n (omega arith)

turns_straight :
    (slots : List DevAccount) (n c i : ℕ)
    → c % length slots ≡ i
    → i + n ≤ length slots
    → 0 < length slots
    → turns slots c n ≡ map some (take n (drop i slots))
unfolding turns
turns_straight slots zero c i e h pos = refl
turns_straight slots (suc zero) c i e h pos = rw e (sym (drop-get_elem slots i 0 (omega arith)))
turns_straight slots (suc (suc n)) c i e h pos = rw e (
    ap (λ r. get_elem? slots i ∷ r)
      (turns_straight slots (suc n) (suc c) (suc i)
        (suc-mod_below c (length slots) (rw e (omega arith)) ∙ ap suc e) (omega arith) pos)
    ∙ sym (drop-get_elem slots i (suc n) (omega arith)))

turns-add :
    (slots : List DevAccount) (m n c : ℕ)
    → turns slots c (m + n) ≡ turns slots c m ++ turns slots (c + m) n
unfolding turns
turns-add slots zero n c =
    let start : c + 0 ≡ c = omega arith in let count : 0 + n ≡ n = omega arith in rw (start, count)
turns-add slots (suc m) n c =
    let e : c + suc m ≡ suc c + m = omega arith in
    let count : suc m + n ≡ suc (m + n) = omega arith in
    rw (e, count) (ap (λ r. get_elem? slots (c % length slots) ∷ r) (turns-add slots m n (suc c)))

-- A whole round is a rotation of the slots.
turns_round :
    (slots : List DevAccount) (c : ℕ)
    → 0 < length slots
    → turns slots c (length slots)
      ≡ map some (drop (c % length slots) slots) ++ map some (take (c % length slots) slots)
turns_round slots c h =
    let k = c % length slots in
    let m = length slots - k in
    let below : k < length slots = mod-lt c h in
    let whole : length slots ≡ m + k = omega arith in
    let tail : take m (drop k slots) ≡ drop k slots =
      take_all m (drop k slots) (omega (arith, length-drop k slots)) in
    ap (turns slots c) whole
    ∙ turns-add slots m k c
    ∙ ap (λ r. r ++ turns slots (c + m) k)
        (turns_straight slots m c k refl (omega arith) h ∙ ap (map some) tail)
    ∙ ap (λ r. map some (drop k slots) ++ r)
        (turns_straight slots k (c + m) 0 (add-mod_end c (length slots) h) (omega arith) h)

-- The answers of `n` calls of Select at one time.
unfoldable pub selections : ℕ → Scheduler → AccountStore → ℤ → List (Option DevAccount)
selections zero s store now = []
selections (suc n) s store now = let (s', r) = select s store now in r ∷ selections n s' store now

pick_turn :
    (s : Scheduler) (fallback : DevAccount) (slots : List DevAccount)
    → 0 < length slots
    → let (s', r) = pick s fallback slots in
      (r ≡ get_elem? slots (s.counter % length slots))
      × (s'.counter ≡ suc s.counter % 0x10000000000000000)
      × (s'.cooldown ≡ s.cooldown)
      × (s'.policy ≡ s.policy)
unfolding pick
pick_turn s fallback [] h = absurd (omega arith)
pick_turn s fallback (x ∷ slots) h = (refl, refl, refl, refl)

weighted_turn :
    (s : Scheduler) (now : ℤ) (accounts : List DevAccount)
    → 0 < length (slots_of s.cooldown now accounts)
    → let (s', r) = select_weighted_rr s now accounts in
      let slots = slots_of s.cooldown now accounts in
      (r ≡ get_elem? slots (s.counter % length slots))
      × (s'.counter ≡ suc s.counter % 0x10000000000000000)
      × (slots_of s'.cooldown now accounts ≡ slots)
      × (s'.policy ≡ s.policy)
unfolding select_weighted_rr slots_of
weighted_turn s now [] h = absurd (omega arith)
weighted_turn s now (a ∷ accounts) h =
    let all = a ∷ accounts in
    let (c, slots) = collect_slots s.cooldown now all in
    let (is_slots, same) = collect_slots_lem s.cooldown now all in
    let (turn, count, kept, policy) =
      pick_turn (record s { cooldown = c }) a slots (rw is_slots h) in
    (
      turn ∙ ap (λ r. get_elem? r (s.counter % length r)) is_slots,
      count,
      ap (λ d. slots_of d now all) kept ∙ slots_of-SameRest now c s.cooldown all same,
      policy,
    )

-- One selection takes its turn and leaves the slots as they are.
select_turn :
    (s : Scheduler) (store : AccountStore) (now : ℤ)
    → (s.policy == schedule_none) ≡ false
    → 0 < length (slots_of s.cooldown now (list store))
    → let (s', r) = select s store now in
      let slots = slots_of s.cooldown now (list store) in
      (r ≡ get_elem? slots (s.counter % length slots))
      × (s'.counter ≡ suc s.counter % 0x10000000000000000)
      × (slots_of s'.cooldown now (list store) ≡ slots)
      × (s'.policy ≡ s.policy)
unfolding select
select_turn s store now weighted h = rw (weighted, select) (weighted_turn s now (list store) h)

selections-turns :
    (n : ℕ) (s : Scheduler) (store : AccountStore) (now : ℤ) (slots : List DevAccount)
    → (s.policy == schedule_none) ≡ false
    → slots_of s.cooldown now (list store) ≡ slots
    → 0 < length slots
    → s.counter + n ≤ 0x10000000000000000
    → selections n s store now ≡ turns slots s.counter n
unfolding selections turns
selections-turns zero s store now slots weighted e h room = refl
selections-turns (suc zero) s store now slots weighted e h room =
    let (turn, _, _, _) = select_turn s store now weighted (rw e h) in
    ap (λ r. r ∷ []) (turn ∙ ap (λ l. get_elem? l (s.counter % length l)) e)
selections-turns (suc (suc n)) s store now slots weighted e h room =
    let (s', r) = select s store now in
    let (turn, count, kept, policy) = select_turn s store now weighted (rw e h) in
    let next : s'.counter ≡ suc s.counter = count ∙ mod-eq_of_lt (omega arith) in
    let here = turn ∙ ap (λ l. get_elem? l (s.counter % length l)) e in
    let later =
      selections-turns (suc n) s' store now slots (ap (λ p. p == schedule_none) policy ∙ weighted)
        (kept ∙ e) h (omega (arith, next)) in
    ap (λ a. a ∷ selections (suc n) s' store now) here
    ∙ ap (λ l. get_elem? slots (s.counter % length slots) ∷ l)
        (later ∙ ap (λ c. turns slots c (suc n)) next)

length_positive : {A : Type 0} (xs : List A) → xs ≢ [] → 0 < length xs
length_positive [] h = absurd (h refl)
length_positive (x ∷ xs) h = omega arith

map-append : {A B : Type 0} (f : A → B) (xs ys : List A) → map f (xs ++ ys) ≡ map f xs ++ map f ys
map-append f [] ys = refl
map-append f (x ∷ xs) ys = ap (λ r. f x ∷ r) (map-append f xs ys)

-- Under weighted_rr, with an account that does not rest and a counter that does not wrap in
-- between, as many selections at one time as there are slots (an account that does not rest has as
-- many as its weight) answer each slot once, in their order from where the counter stands.
pub select_round :
    (s : Scheduler) (store : AccountStore) (now : ℤ)
    → (s.policy == schedule_none) ≡ false
    → slots_of s.cooldown now (list store) ≢ []
    → s.counter + length (slots_of s.cooldown now (list store)) ≤ 0x10000000000000000
    → let slots = slots_of s.cooldown now (list store) in
      let k = s.counter % length slots in
      selections (length slots) s store now ≡ map some (drop k slots ++ take k slots)
select_round s store now weighted free room =
    let slots = slots_of s.cooldown now (list store) in
    let k = s.counter % length slots in
    let h = length_positive slots free in
    selections-turns (length slots) s store now slots weighted refl h room
    ∙ turns_round slots s.counter h
    ∙ sym (map-append some (drop k slots) (take k slots))
