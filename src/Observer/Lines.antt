-- ===== src/Observer/Lines.antt =====
-- One line of an encoded stream.
use airgate_sdk.Prelude.{
  after_prefix, ℕ, ◌+◌, ◌≤◌, ◌≡◌, refl, sym, ap, ◌∙◌, Bool, true, false, none, List, [], ◌∷◌, ◌++◌,
  length, arith, length-append, append_assoc, append-nil, All,
}
use airgate_sdk.Outcome.{Bytes}
use airgate_sdk.Trace.{max_event_bytes}
use airgate_sdk.Observer.{
  EventObserver, ends_line, extend_line, end_line, consume_line, flush, add_data, trim_space,
  data_field,
}
use airgate_sdk.Observer.Bytewise.{
  observe_byte, observe_bytes, observe_bytes-append, take_byte, take_byte_more, observe_plain,
}
use airgate_sdk.Observer.Encoded.{
  LineEnd, lf, crlf, cr, ending, StreamLine, carries, other, encode_line, IsPlain, IsLine,
}

-- The observer at the start of a line.
abbrev pub between : List Bytes → Bytes → Bool → EventObserver
between o d after_cr = record {
  closed = false;
  observed = o;
  line = [];
  event_data = d;
  skip_line = false;
  skip_event = false;
  skip_lf = after_cr;
}

-- And in a line.
abbrev inside : List Bytes → Bytes → Bytes → EventObserver
inside o d l = record {
  closed = false;
  observed = o;
  line = l;
  event_data = d;
  skip_line = false;
  skip_event = false;
  skip_lf = false;
}

unfoldable pub after_cr : LineEnd → Bool
after_cr cr = true
after_cr _ = false

plain_byte :
    (o : List Bytes) (d m : Bytes) (b : ℕ)
    → ends_line b ≡ false
    → length m + 1 ≤ max_event_bytes
    → observe_byte (inside o d m) b ≡ inside o d (m ++ b ∷ [])
unfolding extend_line
plain_byte o d m b plain fits =
    observe_plain (inside o d m) b refl ∙ take_byte_more (inside o d m) b plain ∙ ground arith

observe_plain_bytes :
    (l : Bytes) (o : List Bytes) (d m : Bytes)
    → All (λ b. ends_line b ≡ false) l
    → length m + length l ≤ max_event_bytes
    → observe_bytes (inside o d m) l ≡ inside o d (m ++ l)
unfolding observe_bytes
observe_plain_bytes [] o d m plain fits = ap (inside o d) (sym (append-nil m))
observe_plain_bytes (b ∷ l) o d m (plain, more) fits =
    ap (λ s. observe_bytes s l) (plain_byte o d m b plain (omega arith))
    ∙ observe_plain_bytes l o d (m ++ b ∷ []) more (omega (arith, length-append m (b ∷ [])))
    ∙ ap (inside o d) (append_assoc m (b ∷ []) l)

-- The first byte of a line is not swallowed as the LF of a CRLF.
line_start :
    (o : List Bytes) (d : Bytes) (f : Bool) (b : ℕ)
    → ends_line b ≡ false
    → observe_byte (between o d f) b ≡ inside o d (b ∷ [])
unfolding observe_byte extend_line
line_start o d true b plain = ground (arith, plain, take_byte_more (between o d false) b plain)
line_start o d false b plain = ground (arith, plain, take_byte_more (between o d false) b plain)

pub blank :
    (t : LineEnd) (o : List Bytes) (d : Bytes)
    → observe_bytes (between o d (after_cr t)) (ending t)
      ≡ between (flush (between o d false)).observed [] (after_cr t)
unfolding observe_bytes observe_byte take_byte ending end_line consume_line flush after_cr
blank lf o d = refl
blank crlf o d = refl
blank cr o d = refl

consume_data :
    (s : EventObserver) (l : Bytes)
    → s.skip_event ≡ false
    → length s.event_data + length l + 1 ≤ max_event_bytes
    → consume_line s (data_field ++ (b' ' ∷ l))
      ≡ record s { event_data = s.event_data ++ (l ++ b'\n' ∷ []) }
unfolding consume_line after_prefix trim_space add_data
consume_data s l keeps fits = ground arith

line_end :
    (t : LineEnd) (o : List Bytes) (d l : Bytes)
    → length d + length l + 1 ≤ max_event_bytes
    → observe_bytes (inside o d (data_field ++ (b' ' ∷ l))) (ending t)
      ≡ between o (d ++ (l ++ b'\n' ∷ [])) (after_cr t)
unfolding observe_bytes observe_byte take_byte ending end_line after_cr
line_end lf o d l fits = rw (consume_data (inside o d (data_field ++ (b' ' ∷ l))) l refl fits) refl
line_end crlf o d l fits =
    rw (consume_data (inside o d (data_field ++ (b' ' ∷ l))) l refl fits) refl
line_end cr o d l fits = rw (consume_data (inside o d (data_field ++ (b' ' ∷ l))) l refl fits) refl

consume_other :
    (s : EventObserver) (b : ℕ) (l : Bytes)
    → after_prefix data_field (b ∷ l) ≡ none
    → consume_line s (b ∷ l) ≡ s
unfolding consume_line
consume_other s b l e = rw (e, consume_line) refl

other_end :
    (t : LineEnd) (o : List Bytes) (d : Bytes) (b : ℕ) (l : Bytes)
    → after_prefix data_field (b ∷ l) ≡ none
    → observe_bytes (inside o d (b ∷ l)) (ending t) ≡ between o d (after_cr t)
unfolding observe_bytes observe_byte take_byte ending end_line after_cr
other_end lf o d b l e = rw (consume_other (inside o d (b ∷ l)) b l e) refl
other_end crlf o d b l e = rw (consume_other (inside o d (b ∷ l)) b l e) refl
other_end cr o d b l e = rw (consume_other (inside o d (b ∷ l)) b l e) refl

-- A whole line and its end, after a CR or not.
whole_line :
    (t : LineEnd) (o : List Bytes) (d : Bytes) (b : ℕ) (l : Bytes) (f : Bool)
    → IsPlain (b ∷ l)
    → length (b ∷ l) ≤ max_event_bytes
    → observe_bytes (between o d f) (b ∷ l ++ ending t)
      ≡ observe_bytes (inside o d (b ∷ l)) (ending t)
unfolding observe_bytes
whole_line t o d b l f (plain, more) short =
    ap (λ s. observe_bytes s (l ++ ending t)) (line_start o d f b plain)
    ∙ observe_bytes-append l (ending t) (inside o d (b ∷ []))
    ∙ ap (λ s. observe_bytes s (ending t)) (observe_plain_bytes l o d (b ∷ []) more (omega arith))

-- What a line adds to the data of its event.
unfoldable pub line_data : StreamLine → Bytes
line_data (carries l) = l ++ b'\n' ∷ []
line_data (other b l) = []

pub line_lem :
    (t : LineEnd) (o : List Bytes) (d : Bytes) (l : StreamLine) (f : Bool)
    → IsLine l
    → length d + length (line_data l) ≤ max_event_bytes
    → observe_bytes (between o d f) (encode_line t l) ≡ between o (d ++ line_data l) (after_cr t)
unfolding encode_line line_data
line_lem t o d (carries l) f (plain, short) fits =
    whole_line t o d b'd' (b'a' ∷ b't' ∷ b'a' ∷ b':' ∷ b' ' ∷ l) f
      (refl, (refl, (refl, (refl, (refl, (refl, plain)))))) (omega arith)
    ∙ line_end t o d l (omega (arith, length-append l (b'\n' ∷ [])))
line_lem t o d (other b l) f (plain, short, differs) fits =
    whole_line t o d b l f plain short
    ∙ other_end t o d b l differs
    ∙ ap (λ q. between o q (after_cr t)) (sym (append-nil d))
