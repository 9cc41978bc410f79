-- ===== src/Stream.antt =====
-- streamWriter of runtimego/grpc/gateway_server.go: the response writer that a plugin gets for a
-- streaming call, over the gRPC stream of its server. `write` runs to its end: its loops recur on
-- the number of bytes left, and each round takes at least one.
pub mod Sending
pub mod Pieces
pub mod Loops
pub mod Phases
pub mod Ordinary
pub mod Completing
pub mod Writes
pub mod Open
use airgate_sdk.Prelude.{
  ℕ, ◌+◌, ◌-◌, min, ℤ, pos, to_int32, eqb_ℤ, Bool, true, false, ◌||◌, Option, none, some, List, [],
  ◌++◌, length, take, drop, ltb, ◌==◌, if◌then◌else◌,
}
use airgate_sdk.Outcome.{Bytes, Header}
use airgate_sdk.Wire.Proto.{ForwardChunk}
use airgate_sdk.Wire.Headers.{headers_to_proto}
use Sending.{
  Transport, Progress, data_chunk, send, send_pieces, send_offsets, stream_chunk_size,
  check_response_message,
}

-- `stream` holds every chunk that was handed to Send, the oldest first.
pub record StreamWriter (F E : Type 0) : Type 0 where
  pub stream : List (ForwardChunk F)
  pub headers : Header
  pub code : ℤ
  pub wrote_header : Bool
  pub sent : Bool
  pub completing : Bool
  pub completion_tail : Bytes
  pub err : Option E

-- The first error stays.
first_error : {E : Type 0} → Option E → E → E
first_error none e = e
first_error (some first) e = first

status_or_ok : ℤ → ℤ
status_or_ok code = if eqb_ℤ code (pos 0) then pos 200 else code

module _ {F E : Type 0} where
  -- &streamWriter{stream: stream}
  abbrev pub new_writer : StreamWriter F E
  new_writer = record {
    stream = [];
    headers = [];
    code = pos 0;
    wrote_header = false;
    sent = false;
    completing = false;
    completion_tail = [];
    err = none;
  }

  unfoldable pub begin_stream_completion : StreamWriter F E → StreamWriter F E
  begin_stream_completion w = record w { completing = true }

  -- The plugin changes the map that Header() returns.
  unfoldable pub set_headers : Header → StreamWriter F E → StreamWriter F E
  set_headers h w = record w { headers = h }

  unfoldable pub write_header : ℤ → StreamWriter F E → StreamWriter F E
  write_header status w =
      if w.sent || w.wrote_header then w else record w { code = status; wrote_header = true }

  unfoldable pub fail : E → StreamWriter F E → StreamWriter F E × E
  unfolding first_error
  fail e w =
      let kept = first_error w.err e in (record w { err = some kept; completion_tail = [] }, kept)

  unfoldable pub meta_chunk : StreamWriter F E → ForwardChunk F
  unfolding status_or_ok
  meta_chunk w = record {
    payload = [];
    done = false;
    final_outcome = none;
    status_code = to_int32 (status_or_ok w.code);
    headers = headers_to_proto w.headers;
  }

  -- What an error makes of the writer; no error leaves it as it is.
  settle : Option E → StreamWriter F E → StreamWriter F E × Option E
  settle none w = (w, none)
  settle (some e) w = let (w', kept) = fail e w in (w', some kept)

module _ {F E : Type 0} (t : Transport F E) where
  -- The part of flushMeta that runs once.
  send_meta : StreamWriter F E → StreamWriter F E × Option E
  unfolding send settle
  send_meta w =
      let chunk = meta_chunk w in
      let w' = record w { sent = true } in
      elim (check_response_message t chunk) [
        | some e ↦ settle (some e) w'
        | none ↦ let p = send t w.stream chunk in settle p.1 (record w' { stream = p.0 })
      ]

  unfoldable pub flush_meta : StreamWriter F E → StreamWriter F E × Option E
  unfolding send_meta
  flush_meta w = elim w.err [
    | some e ↦ (w, some e)
    | none ↦ if w.sent then (w, none) else send_meta w
  ]

  -- The terminal event: all but the last stream_chunk_size bytes go out.
  finish_completing : StreamWriter F E → Bytes → Progress F E → StreamWriter F E × ℕ × Option E
  unfolding fail
  finish_completing w bytes p = elim p.failure [
    | none ↦ (
      record w { stream = p.stream; completion_tail = w.completion_tail ++ p.rest },
      length bytes,
      none,
    )
    | some e ↦
        let (w', kept) = fail e (record w { stream = p.stream }) in
        (w', length bytes - length p.rest, some kept)
  ]

  send_tail : StreamWriter F E → ℕ → StreamWriter F E × Option E
  unfolding send settle
  send_tail w n =
      if ltb 0 n
      then (let p = send t w.stream (data_chunk (take n w.completion_tail)) in
          elim p.1 [
            | none ↦ (record w { stream = p.0; completion_tail = drop n w.completion_tail }, none)
            | some e ↦ settle (some e) (record w { stream = p.0 })
          ])
      else (w, none)

  unfoldable pub write_completing : StreamWriter F E → Bytes → StreamWriter F E × ℕ × Option E
  unfolding send_tail finish_completing
  write_completing w bytes =
      let send_bytes = length w.completion_tail + length bytes - stream_chunk_size in
      let n = min send_bytes (length w.completion_tail) in
      let r = send_tail w n in
      elim r.1 [
        | some e ↦ (r.0, 0, some e)
        | none ↦
            finish_completing r.0 bytes
              (send_pieces t stream_chunk_size (send_bytes - n) r.0.stream (send_bytes - n) bytes)
      ]

  finish_ordinary : StreamWriter F E → Bytes → Progress F E → StreamWriter F E × ℕ × Option E
  unfolding fail
  finish_ordinary w bytes p = elim p.failure [
    | none ↦ (record w { stream = p.stream }, length bytes, none)
    | some e ↦
        let (w', kept) = fail e (record w { stream = p.stream }) in
        (w', length bytes - length p.rest, some kept)
  ]

  unfoldable pub write_ordinary : StreamWriter F E → Bytes → StreamWriter F E × ℕ × Option E
  unfolding finish_ordinary send settle
  write_ordinary w bytes =
      if length bytes == 0
      then (let p = send t w.stream (data_chunk bytes) in
          let r = settle p.1 (record w { stream = p.0 }) in (r.0, 0, r.1))
      else finish_ordinary w bytes
          (send_offsets t stream_chunk_size (length bytes) w.stream 0 bytes)

  -- Write: the bytes that it took, and its error.
  unfoldable pub write : StreamWriter F E → Bytes → StreamWriter F E × ℕ × Option E
  unfolding write_completing write_ordinary
  write w bytes = elim w.err [
    | some e ↦ (w, 0, some e)
    | none ↦
        let r = flush_meta w in
        elim r.1 [
          | some e ↦ (r.0, 0, some e)
          | none ↦ if r.0.completing then write_completing r.0 bytes else write_ordinary r.0 bytes
        ]
  ]
