-- ===== src/Tests/Observer.antt =====
-- An observer of a short stream.
use airgate_sdk.Prelude.{equal_bytes, after_prefix, ◌≡◌, refl, List, [], ◌∷◌, ◌++◌, arith}
use airgate_sdk.Outcome.{Bytes}
use airgate_sdk.Observer.{
  new_observer, write, write_loop, write_round, take_line, take_cut, cut_line, extend_line,
  end_line, consume_line, flush, add_data, trim_space, trim_newline,
}
use airgate_sdk.Observer.Rounds.{Rounds, write-Rounds}
use airgate_sdk.Observer.Bounds.{IsBounded, new_observer-IsBounded}
use airgate_sdk.Observer.Calls.{written, finished, released, observe_calls, observe_calls-IsBounded}
use airgate_sdk.Observer.Bytewise.{observe_bytes, write-observe_bytes}
use airgate_sdk.Observer.Chunks.{write-write}
use airgate_sdk.Observer.Encoded.{
  crlf, carries, other, carried, join_all, Event, IsSendable, encode_events, encode_event,
  encode_lines, encode_line, ending, payloads, join_lines,
}
use airgate_sdk.Observer.Observed.{write_pieces, concat_pieces, write_pieces-payloads}

-- "data: a", LF, LF
abbrev short : Bytes
short = b'd' ∷ b'a' ∷ b't' ∷ b'a' ∷ b':' ∷ b' ' ∷ b'a' ∷ b'\n' ∷ b'\n' ∷ []

short_observed : (write new_observer short).observed ≡ (b'a' ∷ []) ∷ []
unfolding write write_loop write_round take_line take_cut cut_line extend_line end_line consume_line
    flush add_data after_prefix trim_space trim_newline equal_bytes
short_observed = refl

write-Rounds_example : Rounds new_observer short (write new_observer short)
write-Rounds_example = write-Rounds new_observer short refl

observe_calls-IsBounded_example :
    IsBounded (observe_calls new_observer (written short ∷ finished ∷ released ∷ []))
observe_calls-IsBounded_example = observe_calls-IsBounded (written short ∷ finished ∷ released ∷ [])

write-observe_bytes_example : write new_observer short ≡ observe_bytes new_observer short
write-observe_bytes_example = write-observe_bytes new_observer short new_observer-IsBounded refl

write-write_example : write (write new_observer short) short ≡ write new_observer (short ++ short)
write-write_example = write-write new_observer short short new_observer-IsBounded

-- An event of two data lines with an id between them, and the terminator.
abbrev two_lines : Event
two_lines = record {
  first = carries (b'a' ∷ []);
  rest = other b'i' (b'd' ∷ b':' ∷ []) ∷ carries (b'b' ∷ []) ∷ [];
}

abbrev terminator : Event
terminator = record { first = carries (b'[' ∷ b'D' ∷ b'O' ∷ b'N' ∷ b'E' ∷ b']' ∷ []); rest = [] }

two_lines-IsSendable : IsSendable two_lines
unfolding join_all join_lines carried after_prefix
two_lines-IsSendable = record {
  first_fits = ((refl, _), omega arith);
  rest_fits = (((refl, (refl, (refl, _))), omega arith, refl), (((refl, _), omega arith), _));
  payload_fits = omega arith;
}

terminator-IsSendable : IsSendable terminator
unfolding join_all join_lines carried
terminator-IsSendable = record {
  first_fits = ((refl, (refl, (refl, (refl, (refl, (refl, _)))))), omega arith);
  rest_fits = _;
  payload_fits = omega arith;
}

-- In two pieces, cut between a CR and its LF.
abbrev crlf_pieces : List Bytes
crlf_pieces =
    (b'd' ∷ b'a' ∷ b't' ∷ b'a' ∷ b':' ∷ b' ' ∷ b'a' ∷ b'\r' ∷ [])
    ∷ (b'\n' ∷ b'i' ∷ b'd' ∷ b':' ∷ b'\r' ∷ b'\n' ∷ b'd' ∷ b'a' ∷ b't' ∷ b'a' ∷ b':' ∷ b' ' ∷ b'b'
        ∷ b'\r' ∷ b'\n' ∷ b'\r' ∷ b'\n' ∷ b'd' ∷ b'a' ∷ b't' ∷ b'a' ∷ b':' ∷ b' ' ∷ b'[' ∷ b'D'
        ∷ b'O' ∷ b'N' ∷ b'E' ∷ b']' ∷ b'\r' ∷ b'\n' ∷ b'\r' ∷ b'\n' ∷ [])
    ∷ []

crlf_pieces_lem : concat_pieces crlf_pieces ≡ encode_events crlf (two_lines ∷ terminator ∷ [])
unfolding concat_pieces encode_events encode_event encode_lines encode_line ending
crlf_pieces_lem = refl

write_pieces-payloads_example :
    (write_pieces new_observer crlf_pieces).observed ≡ payloads (two_lines ∷ terminator ∷ [])
write_pieces-payloads_example =
    write_pieces-payloads crlf (two_lines ∷ terminator ∷ []) crlf_pieces
      (two_lines-IsSendable, (terminator-IsSendable, _)) crlf_pieces_lem

crlf_payloads : payloads (two_lines ∷ terminator ∷ []) ≡ (b'a' ∷ b'\n' ∷ b'b' ∷ []) ∷ []
unfolding payloads join_all join_lines carried equal_bytes
crlf_payloads = refl
