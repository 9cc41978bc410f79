-- ===== src/Observer/Observed.antt =====
-- The observer on a whole stream of encoded events, in whatever pieces it is read.
use airgate_sdk.Prelude.{
  equal_bytes, ◌+◌, ◌≤◌, ◌≡◌, refl, sym, ap, ◌∙◌, Bool, not, true, false, List, [], ◌∷◌, ◌++◌,
  length, arith, if◌then◌else◌, length-append, append_assoc, append-nil, All,
}
use airgate_sdk.Outcome.{Bytes}
use airgate_sdk.Trace.{max_event_bytes}
use airgate_sdk.Observer.{
  EventObserver, new_observer, write, write_loop, flush, trim_newline, done_marker,
}
use airgate_sdk.Observer.Bounds.{IsBounded, new_observer-IsBounded, write-IsBounded}
use airgate_sdk.Observer.Bytewise.{observe_bytes, observe_bytes-append, write-observe_bytes}
use airgate_sdk.Observer.Chunks.{write-write}
use airgate_sdk.Observer.Encoded.{
  LineEnd, ending, StreamLine, carries, other, encode_line, encode_lines, encode_event,
  encode_events, IsLine, Event, carried, payload, payloads, join_lines, join_all, IsSendable,
}
use airgate_sdk.Observer.Lines.{between, after_cr, blank, line_data, line_lem}

-- What the lines of an event add to its data.
unfoldable lines_data : StreamLine → List StreamLine → Bytes
unfolding line_data
lines_data l [] = line_data l
lines_data l (l' ∷ ls) = line_data l ++ lines_data l' ls

lines_lem :
    (t : LineEnd) (o : List Bytes) (d : Bytes) (l : StreamLine) (ls : List StreamLine) (f : Bool)
    → IsLine l
    → All IsLine ls
    → length d + length (lines_data l ls) ≤ max_event_bytes
    → observe_bytes (between o d f) (encode_lines t l ls)
      ≡ between o (d ++ lines_data l ls) (after_cr t)
unfolding encode_lines lines_data
lines_lem t o d l [] f first rest fits = line_lem t o d l f first fits
lines_lem t o d l (l' ∷ ls) f first (second, rest) fits =
    let more = lines_data l' ls in
    let grown = length-append (line_data l) more in
    let d' = d ++ line_data l in
    observe_bytes-append (encode_line t l) (encode_lines t l' ls) (between o d f)
    ∙ ap (λ s. observe_bytes s (encode_lines t l' ls))
        (line_lem t o d l f first (omega (arith, grown)))
    ∙ lines_lem t o d' l' ls (after_cr t) second rest
        (omega (arith, grown, length-append d (line_data l)))
    ∙ ap (λ p. between o p (after_cr t)) (append_assoc d (line_data l) more)

-- The lines that a list of texts makes, each with its LF.
unfoldable with_ends : List Bytes → Bytes
with_ends [] = []
with_ends (l ∷ ls) = l ++ b'\n' ∷ with_ends ls

lines_data-with_ends :
    (l : StreamLine) (ls : List StreamLine) → lines_data l ls ≡ with_ends (carried (l ∷ ls))
unfolding lines_data with_ends carried line_data
lines_data-with_ends (carries l) [] = refl
lines_data-with_ends (other b l) [] = refl
lines_data-with_ends (carries l) (l' ∷ ls) =
    append_assoc l (b'\n' ∷ []) (lines_data l' ls)
    ∙ ap (λ q. l ++ b'\n' ∷ q) (lines_data-with_ends l' ls)
lines_data-with_ends (other b l) (l' ∷ ls) = lines_data-with_ends l' ls

with_ends-join_lines :
    (l : Bytes) (ls : List Bytes) → with_ends (l ∷ ls) ≡ join_lines l ls ++ b'\n' ∷ []
unfolding with_ends join_lines
with_ends-join_lines l [] = refl
with_ends-join_lines l (l' ∷ ls) =
    ap (λ q. l ++ b'\n' ∷ q) (with_ends-join_lines l' ls)
    ∙ sym (append_assoc l (b'\n' ∷ join_lines l' ls) (b'\n' ∷ []))

trim_newline-append : (p : Bytes) → trim_newline (p ++ b'\n' ∷ []) ≡ p
unfolding trim_newline
trim_newline-append [] = refl
trim_newline-append (b ∷ []) = refl
trim_newline-append (b ∷ c ∷ p) = ap (λ q. b ∷ q) (trim_newline-append (c ∷ p))

if-not : {A : Type 0} (b : Bool) (x y : A) → (if not b then x else y) ≡ (if b then y else x)
if-not true x y = refl
if-not false x y = refl

trim-with_ends : (ls : List Bytes) → trim_newline (with_ends ls) ≡ join_all ls
unfolding trim_newline with_ends join_all
trim-with_ends [] = refl
trim-with_ends (l ∷ ls) =
    ap trim_newline (with_ends-join_lines l ls) ∙ trim_newline-append (join_lines l ls)

length-with_ends : (ls : List Bytes) → length (with_ends ls) ≤ length (join_all ls) + 1
unfolding join_all with_ends
length-with_ends [] = omega arith
length-with_ends (l ∷ ls) =
    omega
      (arith, ap length (with_ends-join_lines l ls), length-append (join_lines l ls) (b'\n' ∷ []))

flush_payload :
    (o : List Bytes) (d p : Bytes)
    → trim_newline d ≡ p
    → (flush (between o d false)).observed ≡ (if equal_bytes p done_marker then o else o ++ p ∷ [])
unfolding flush
flush_payload o d p e = rw e (if-not (equal_bytes p done_marker) (o ++ p ∷ []) o)

observe_event_bytes :
    (t : LineEnd) (o : List Bytes) (e : Event) (f : Bool)
    → IsSendable e
    → observe_bytes (between o [] f) (encode_event t e)
      ≡ between
          (if equal_bytes (payload e) done_marker then o else o ++ payload e ∷ [])
          []
          (after_cr t)
unfolding encode_event
observe_event_bytes t o e f h =
    let texts = carried (e.first ∷ e.rest) in
    let d = lines_data e.first e.rest in
    let same = lines_data-with_ends e.first e.rest in
    observe_bytes-append (encode_lines t e.first e.rest) (ending t) (between o [] f)
    ∙ ap (λ s. observe_bytes s (ending t))
        (lines_lem t o [] e.first e.rest f h.first_fits h.rest_fits
          (omega (arith, h.payload_fits, ap length same, length-with_ends texts)))
    ∙ blank t o d
    ∙ ap (λ q. between q [] (after_cr t))
        (flush_payload o d (payload e) (ap trim_newline same ∙ trim-with_ends texts))

observe_events_bytes :
    (t : LineEnd) (o : List Bytes) (es : List Event) (f : Bool)
    → All IsSendable es
    → (observe_bytes (between o [] f) (encode_events t es)).observed ≡ o ++ payloads es
unfolding encode_events payloads observe_bytes
observe_events_bytes t o [] f h = sym (append-nil o)
observe_events_bytes t o (e ∷ es) f (h, more) =
    let o' = if equal_bytes (payload e) done_marker then o else o ++ payload e ∷ [] in
    ap (λ s. s.observed)
      (observe_bytes-append (encode_event t e) (encode_events t es) (between o [] f))
    ∙ ap (λ s. (observe_bytes s (encode_events t es)).observed) (observe_event_bytes t o e f h)
    ∙ observe_events_bytes t o' es (after_cr t) more
    ∙ joined (equal_bytes (payload e) done_marker)
  where
    joined :
        (b : Bool)
        → (if b then o else o ++ payload e ∷ []) ++ payloads es
          ≡ o ++ (if b then payloads es else payload e ∷ payloads es)
    joined true = refl
    joined false = append_assoc o (payload e ∷ []) (payloads es)

-- The pieces in which a body is read.
unfoldable pub write_pieces : EventObserver → List Bytes → EventObserver
write_pieces s [] = s
write_pieces s (p ∷ pieces) = write_pieces (write s p) pieces

unfoldable pub concat_pieces : List Bytes → Bytes
concat_pieces [] = []
concat_pieces (p ∷ pieces) = p ++ concat_pieces pieces

write_nil : (s : EventObserver) → write s [] ≡ s
unfolding write write_loop
write_nil s = ground arith

pub write_pieces_lem :
    (pieces : List Bytes) (s : EventObserver)
    → IsBounded s
    → write_pieces s pieces ≡ write s (concat_pieces pieces)
unfolding write_pieces concat_pieces
write_pieces_lem [] s h = sym (write_nil s)
write_pieces_lem (p ∷ pieces) s h =
    write_pieces_lem pieces (write s p) (write-IsBounded s p h)
    ∙ write-write s p (concat_pieces pieces) h

-- A stream of events whose lines all end with LF, with CRLF or with CR, read in any pieces: the
-- observer hands on the payload of each event, in their order, but for the events that are the
-- terminator of streaming APIs. The payload is what stands behind "data: " in the event's data lines,
-- joined by LF; its other lines count for nothing. Each line, and each payload with its last LF, is to
-- fit in maxEventBytes, and no line has a CR or LF.
pub write_pieces-payloads :
    (t : LineEnd) (es : List Event) (pieces : List Bytes)
    → All IsSendable es
    → concat_pieces pieces ≡ encode_events t es
    → (write_pieces new_observer pieces).observed ≡ payloads es
write_pieces-payloads t es pieces h whole =
    ap (λ s. s.observed)
      (write_pieces_lem pieces new_observer new_observer-IsBounded
        ∙ ap (write new_observer) whole
        ∙ write-observe_bytes new_observer (encode_events t es) new_observer-IsBounded refl)
    ∙ observe_events_bytes t [] es false h
