-- ===== src/Observer.antt =====
-- The observer of sdkgo/requesttrace/http.go, which cuts the body of a response into server-sent
-- events while the caller reads it: eventObserver. Its lock makes each method one step. `observed`
-- are the payloads that it hands to ObserveEvent of its exchange, in their order.
pub mod Rounds
pub mod Bytewise
pub mod Bounds
pub mod Calls
pub mod Chunks
pub mod Encoded
pub mod Lines
pub mod Observed
use airgate_sdk.Prelude.{
  equal_bytes, after_prefix, ℕ, zero, suc, ◌+◌, ◌==◌, ltb, Bool, true, false, not, ◌&&◌, ◌||◌,
  Option, none, some, List, [], ◌∷◌, ◌++◌, length, if◌then◌else◌,
}
use airgate_sdk.Outcome.{Bytes}
use airgate_sdk.Trace.{max_event_bytes}

pub record EventObserver : Type 0 where
  pub closed : Bool
  pub observed : List Bytes
  pub line : Bytes
  pub event_data : Bytes  -- data
  pub skip_line : Bool
  pub skip_event : Bool
  pub skip_lf : Bool

abbrev pub new_observer : EventObserver
new_observer = record {
  closed = false;
  observed = [];
  line = [];
  event_data = [];
  skip_line = false;
  skip_event = false;
  skip_lf = false;
}

-- bytes.TrimSuffix(data, []byte{'\n'})
unfoldable pub trim_newline : Bytes → Bytes
trim_newline [] = []
trim_newline (b ∷ []) = if b == b'\n' then [] else b ∷ []
trim_newline (b ∷ c ∷ bytes) = b ∷ trim_newline (c ∷ bytes)

-- "data:"
abbrev pub data_field : Bytes
data_field = b'd' ∷ b'a' ∷ b't' ∷ b'a' ∷ b':' ∷ []

-- The terminator of streaming APIs, as bytes.
abbrev pub done_marker : Bytes
done_marker = b'[' ∷ b'D' ∷ b'O' ∷ b'N' ∷ b'E' ∷ b']' ∷ []

-- bytes.TrimPrefix(line, []byte{' '})
unfoldable pub trim_space : Bytes → Bytes
trim_space [] = []
trim_space (b ∷ bytes) = if b == b' ' then bytes else b ∷ bytes

unfoldable pub flush : EventObserver → EventObserver
flush s = record s {
  observed =
      if not s.skip_event && not (equal_bytes (trim_newline s.event_data) done_marker)
      then s.observed ++ trim_newline s.event_data ∷ []
      else s.observed;
  event_data = [];
  skip_event = false;
}

-- The rest of consumeLine, on the payload of a data line.
unfoldable pub add_data : EventObserver → Bytes → EventObserver
add_data s payload =
    if ltb max_event_bytes (length s.event_data + length payload + 1)
    then record s { event_data = []; skip_event = true }
    else record s { event_data = s.event_data ++ (payload ++ b'\n' ∷ []) }

unfoldable pub consume_line : EventObserver → Bytes → EventObserver
consume_line s [] = flush s
consume_line s (b ∷ bytes) = elim (after_prefix data_field (b ∷ bytes)) [
  | none ↦ s
  | some rest ↦ if s.skip_event then s else add_data s (trim_space rest)
]

abbrev pub ends_line : ℕ → Bool
ends_line b = b == b'\r' || b == b'\n'

-- The bytes before the first of "\r\n", and those from there on.
unfoldable pub cut_line : Bytes → Bytes × Bytes
cut_line [] = ([], [])
cut_line (b ∷ bytes) =
    let (chunk, rest) = cut_line bytes in if ends_line b then ([], b ∷ bytes) else (b ∷ chunk, rest)

-- The chunk is added to the line, unless the line is too long.
unfoldable pub extend_line : EventObserver → Bytes → EventObserver
extend_line s chunk =
    if s.skip_line
    then s
    else if ltb max_event_bytes (length s.line + length chunk)
    then record s { line = []; skip_line = true; skip_event = true }
    else record s { line = s.line ++ chunk }

-- At a CR or a LF.
unfoldable pub end_line : EventObserver → ℕ → EventObserver
end_line s b =
    let s' = if s.skip_line then s else consume_line s s.line in
    record s' { line = []; skip_line = false; skip_lf = b == b'\r' }

-- The rest of a round, from the chunk and what stands behind it; and the bytes that are left.
unfoldable pub take_cut : EventObserver → (chunk rest : Bytes) → EventObserver × Bytes
take_cut s chunk [] = (extend_line s chunk, [])
take_cut s chunk (b ∷ after) = (end_line (extend_line s chunk) b, after)

unfoldable pub take_line : EventObserver → Bytes → EventObserver × Bytes
unfolding take_cut
take_line s p = let (chunk, rest) = cut_line p in take_cut s chunk rest

-- One round of the loop of write.
unfoldable pub write_round : EventObserver → Bytes → EventObserver × Bytes
write_round s [] = (s, [])
write_round s (b ∷ p) =
    if s.skip_lf
    then (if b == b'\n'
        then (record s { skip_lf = false }, p)
        else take_line (record s { skip_lf = false }) (b ∷ p))
    else take_line s (b ∷ p)

-- The loop, on fuel.
unfoldable pub write_loop : (fuel : ℕ) → EventObserver → Bytes → EventObserver
write_loop zero s p = s
write_loop (suc fuel) s p = let (s', q) = write_round s p in write_loop fuel s' q

unfoldable pub write : EventObserver → Bytes → EventObserver
write s p = if s.closed then s else write_loop (length p) s p

-- A last line without its end is consumed too.
unfoldable pub finish_line : EventObserver → EventObserver
finish_line s = if not s.skip_line && ltb 0 (length s.line) then consume_line s s.line else s

unfoldable pub finish : EventObserver → EventObserver
finish s =
    if s.closed
    then s
    else record (flush (record (finish_line s) { line = [] })) { line = []; event_data = [] }

abbrev pub release : EventObserver → EventObserver
release s = record s { closed = true; line = []; event_data = [] }
