-- ===== src/Observer/Encoded.antt =====
-- Streams of server-sent events whose lines end in one way, and what they carry.
use airgate_sdk.Prelude.{
  equal_bytes, after_prefix, ℕ, none, ◌+◌, ◌≤◌, ◌≡◌, false, List, [], ◌∷◌, ◌++◌, length,
  if◌then◌else◌, All,
}
use airgate_sdk.Outcome.{Bytes}
use airgate_sdk.Trace.{max_event_bytes}
use airgate_sdk.Observer.{ends_line, data_field, done_marker}

pub data LineEnd : Type 0 where
  lf crlf cr : LineEnd

unfoldable pub ending : LineEnd → Bytes
ending lf = b'\n' ∷ []
ending crlf = b'\r' ∷ b'\n' ∷ []
ending cr = b'\r' ∷ []

-- A line of an event: a data line, or a line that is neither empty nor a data line.
pub data StreamLine : Type 0 where
  carries : Bytes → StreamLine
  other : ℕ → Bytes → StreamLine

-- An event has one line or more.
pub record Event : Type 0 where
  pub first : StreamLine
  pub rest : List StreamLine

-- What a data line carries stands behind "data: ".
unfoldable pub encode_line : LineEnd → StreamLine → Bytes
unfolding ending
encode_line t (carries l) = data_field ++ (b' ' ∷ l) ++ ending t
encode_line t (other b l) = b ∷ l ++ ending t

unfoldable pub encode_lines : LineEnd → StreamLine → List StreamLine → Bytes
unfolding encode_line
encode_lines t l [] = encode_line t l
encode_lines t l (l' ∷ ls) = encode_line t l ++ encode_lines t l' ls

unfoldable pub encode_event : LineEnd → Event → Bytes
unfolding encode_lines
encode_event t e = encode_lines t e.first e.rest ++ ending t

unfoldable pub encode_events : LineEnd → List Event → Bytes
unfolding encode_event
encode_events t [] = []
encode_events t (e ∷ es) = encode_event t e ++ encode_events t es

-- What the data lines carry, in their order.
unfoldable pub carried : List StreamLine → List Bytes
carried [] = []
carried (carries l ∷ ls) = l ∷ carried ls
carried (other b l ∷ ls) = carried ls

unfoldable pub join_lines : Bytes → List Bytes → Bytes
join_lines l [] = l
join_lines l (l' ∷ ls) = l ++ b'\n' ∷ join_lines l' ls

unfoldable pub join_all : List Bytes → Bytes
unfolding join_lines
join_all [] = []
join_all (l ∷ ls) = join_lines l ls

-- The payload of an event: what its data lines carry, joined by LF; nothing without a data line.
abbrev pub payload : Event → Bytes
payload e = join_all (carried (e.first ∷ e.rest))

-- The payloads of these events but those that are the terminator.
unfoldable pub payloads : List Event → List Bytes
payloads [] = []
payloads (e ∷ es) =
    let later = payloads es in
    if equal_bytes (payload e) done_marker then later else payload e ∷ later

-- No byte ends the line.
abbrev pub IsPlain : Bytes → Type 0
IsPlain l = All (λ b. ends_line b ≡ false) l

-- No byte ends the line, it is not too long, and a line that is no data line does not begin like one.
abbrev pub IsLine : StreamLine → Type 0
IsLine (carries l) = IsPlain l × (length l + 6 ≤ max_event_bytes)
IsLine (other b l) =
    IsPlain (b ∷ l) × (length (b ∷ l) ≤ max_event_bytes) × (after_prefix data_field (b ∷ l) ≡ none)

pub record IsSendable (e : Event) : Type 0 where
  pub first_fits : IsLine e.first
  pub rest_fits : All IsLine e.rest
  pub payload_fits : length (payload e) + 1 ≤ max_event_bytes
