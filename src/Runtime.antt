-- ===== src/Runtime.antt =====
-- The client of sdkgo/runtime_state.go for the state that Core keeps for a plugin: RuntimeStateClient.
-- The Host is a parameter: a world that it shares with others, the answer of Invoke in it, and the
-- wait of Update for its timer or its context. A client is taken to have a Host. JSON is a parameter of Store and Load.
pub mod Attempts
pub mod Tries
pub mod Atomic
pub mod Progress
use airgate_sdk.Prelude.{
  Result, ok, err, ℕ, zero, suc, ◌+◌, ◌-◌, ◌/◌, Bool, true, false, Option, none, some, List, [],
  ◌∷◌, String, if◌then◌else◌,
}
use text.Mathlib.Text.{◌==◌}

-- An interface{}, as far as the client looks at it.
pub data Scalar : Type 0 where
  string : String → Scalar
  bool : Bool → Scalar
  other : Scalar

-- A field of a payload: map[string]interface{}, map[string]string, or neither.
pub data Field : Type 0 where
  scalar : Scalar → Field
  scalars : List (String × Scalar) → Field
  texts : List (String × String) → Field

pub data StateRequest : Type 0 where
  get : (key : String) → StateRequest
  get_many : (keys : List String) → StateRequest
  take : (key : String) → StateRequest
  cas : (key version value : String) → StateRequest
  delete : (key version : String) → StateRequest

-- Invoke: an error, no response, or a response with its payload.
pub data Reply (E : Type 0) : Type 0 where
  failed : E → Reply E
  empty : Reply E
  replied : List (String × Field) → Reply E

-- `wait` gives the context's error if that ends before the timer; `text_error` is errors.New.
pub record Host (W E : Type 0) : Type 0 where
  pub invoke : W → StateRequest → W × Reply E
  pub wait : (milliseconds : ℕ) → W → W × Option E
  pub text_error : String → E

unfoldable pub find_field : String → List (String × Field) → Option Field
find_field key [] = none
find_field key ((k, f) ∷ payload) = if k == key then some f else find_field key payload

-- payload[key].(string), and "" where it is none
unfoldable pub text_field : String → List (String × Field) → String
text_field key payload = elim (find_field key payload) [ some (scalar (string s)) ↦ s | _ ↦ "" ]

-- payload[key].(bool), and false where it is none
unfoldable pub flag_field : String → List (String × Field) → Bool
flag_field key payload = elim (find_field key payload) [ some (scalar (bool b)) ↦ b | _ ↦ false ]

-- The entries of a map[string]interface{} that are strings.
unfoldable pub text_entries : List (String × Scalar) → List (String × String)
text_entries [] = []
text_entries ((k, string s) ∷ entries) = (k, s) ∷ text_entries entries
text_entries ((k, bool b) ∷ entries) = text_entries entries
text_entries ((k, other) ∷ entries) = text_entries entries

-- What Get returns beside its error.
pub record Entry : Type 0 where
  pub value : String
  pub version : String
  pub found : Bool

-- What one attempt of Update comes to.
pub data Attempt (E : Type 0) : Type 0 where
  swapped : (value : String) → Attempt E
  refused : Attempt E
  stopped : E → Attempt E

abbrev pub max_attempts : ℕ
max_attempts = 16

module _ {W E : Type 0} (h : Host W E) where
  abbrev pub empty_response : E
  empty_response = h.text_error "empty runtime state response"

  unfoldable pub read_entry : Reply E → Result E Entry
  read_entry (failed e) = err e
  read_entry empty = err empty_response
  read_entry (replied payload) =
      if text_field "version" payload == ""
      then err (h.text_error "invalid runtime state version")
      else ok (record {
        value = text_field "value" payload;
        version = text_field "version" payload;
        found = flag_field "found" payload;
      })

  -- Get, of a client that has a Host
  unfoldable pub get_entry : W → String → W × Result E Entry
  get_entry w key = let (w', reply) = h.invoke w (get key) in (w', read_entry reply)

  unfoldable pub read_swapped : Reply E → Result E Bool
  read_swapped (failed e) = err e
  read_swapped empty = err empty_response
  read_swapped (replied payload) = ok (flag_field "swapped" payload)

  unfoldable pub compare_and_swap : W → (key version value : String) → W × Result E Bool
  compare_and_swap w key version value =
      let (w', reply) = h.invoke w (cas key version value) in (w', read_swapped reply)

  unfoldable pub read_taken : Reply E → Result E (String × Bool)
  read_taken (failed e) = err e
  read_taken empty = err empty_response
  read_taken (replied payload) = ok (text_field "value" payload, flag_field "found" payload)

  -- Take
  unfoldable pub take_value : W → String → W × Result E (String × Bool)
  take_value w key = let (w', reply) = h.invoke w (take key) in (w', read_taken reply)

  unfoldable pub read_values : Reply E → Result E (List (String × String))
  read_values (failed e) = err e
  read_values empty = err empty_response
  read_values (replied payload) = elim (find_field "values" payload) [
    | some (scalars entries) ↦ ok (text_entries entries)
    | some (texts entries) ↦ ok entries
    | _ ↦ err (h.text_error "invalid runtime state values")
  ]

  -- GetMany
  unfoldable pub get_values : W → List String → W × Result E (List (String × String))
  get_values w keys = let (w', reply) = h.invoke w (get_many keys) in (w', read_values reply)

  -- One round of Update, up to its wait.
  unfoldable pub attempt : W → String → (String → Result E String) → W × Attempt E
  attempt w key update =
      let (w1, got) = get_entry w key in
      elim got [
        | err e ↦ (w1, stopped e)
        | ok entry ↦ elim (update entry.value) [
          | err e ↦ (w1, stopped e)
          | ok value ↦
              let (w2, answer) = compare_and_swap w1 key entry.version value in
              elim answer [
                | err e ↦ (w2, stopped e)
                | ok true ↦ (w2, swapped value)
                | ok false ↦ (w2, refused)
              ]
        ]
      ]

  -- The loop of Update, with the attempts that are left.
  unfoldable pub update_loop :
      (left : ℕ) → W → String → (String → Result E String) → W × Result E String
  update_loop zero w key update = (w, err (h.text_error "runtime state update contention"))
  update_loop (suc left) w key update =
      let (w1, outcome) = attempt w key update in
      elim outcome [
        | stopped e ↦ (w1, err e)
        | swapped value ↦ (w1, ok value)
        | refused ↦
            let (w2, ended) = h.wait (1 + (max_attempts - suc left) / 2) w1 in
            elim ended [ some e ↦ (w2, err e) | none ↦ update_loop left w2 key update ]
      ]

  unfoldable pub update : W → String → (String → Result E String) → W × Result E String
  update = update_loop max_attempts

  -- Store, once json.Marshal has answered.
  unfoldable pub store : W → String → Result E String → W × Option E
  store w key (err e) = (w, some e)
  store w key (ok json) =
      let (w', r) = update w key (λ old. ok json) in (w', elim r [ ok _ ↦ none | err e ↦ some e ])

  -- Load: what json.Unmarshal makes of the value, if there is one.
  unfoldable pub load : {A : Type 0} → (String → Result E A) → W → String → W × Result E (Option A)
  load unmarshal w key =
      let (w', got) = get_entry w key in
      (
        w',
        elim got [
          | err e ↦ err e
          | ok entry ↦
              if entry.found
              then elim (unmarshal entry.value) [ err e ↦ err e | ok a ↦ ok (some a) ]
              else ok none
        ],
      )

  -- Delete
  unfoldable pub delete_entry : W → String → W × Option E
  delete_entry w key =
      let (w1, got) = get_entry w key in
      elim got [
        | err e ↦ (w1, some e)
        | ok entry ↦
            if entry.found
            then (let (w2, reply) = h.invoke w1 (delete key entry.version) in
                (w2, elim reply [ failed e ↦ some e | empty ↦ none | replied _ ↦ none ]))
            else (w1, none)
      ]
