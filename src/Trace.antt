-- ===== src/Trace.antt =====
-- The collector of sdkgo/requesttrace/trace.go: the requests of one Forward attempt, kept for a
-- diagnostic if it fails. An exchange is named by the number of its Record call; one that was
-- evicted, or whose attempt has finished, is closed, and its operations do nothing. Locks make each
-- operation one step. The context that carries the collector is left out.
pub mod Retention
pub mod Budget
pub mod Bodies
pub mod Finish
use airgate_sdk.Prelude.{
  ℕ, suc, ◌+◌, ◌-◌, ◌*◌, min, ℤ, pos, ltb_ℤ, ◌+ℤ◌, to_int64, Bool, true, false, not, ◌&&◌, Option,
  none, some, List, [], ◌∷◌, ◌++◌, length, take, drop, ltb, leb, ◌==◌, if◌then◌else◌, map,
}
use airgate_sdk.Outcome.{
  Bytes, OutcomeKind, ForwardOutcome, OutboundRequestDiagnostic, FinalErrorDiagnostic, is_success,
}

abbrev pub max_requests : ℕ
max_requests = 8

-- 48 << 20
abbrev pub max_body_bytes : ℕ
max_body_bytes = 50331648

-- 16 << 20
abbrev pub max_event_bytes : ℕ
max_event_bytes = 16777216

-- max on int64
unfoldable pub max_ℤ : ℤ → ℤ → ℤ
max_ℤ a b = if ltb_ℤ a b then b else a

-- bodyBuffer: the first bytes of a body, and the size of the whole. A released one is closed.
pub record BodyBuffer : Type 0 where
  pub content : Bytes
  pub size : ℤ
  pub closed : Bool

abbrev pub new_body : BodyBuffer
new_body = record { content = []; size = pos 0; closed = false }

unfoldable pub body_write : BodyBuffer → Bytes → BodyBuffer
body_write b p = if b.closed then b else record b {
  content =
      if ltb (length b.content) max_body_bytes
      then b.content ++ take (min (max_body_bytes - length b.content) (length p)) p
      else b.content;
  size = to_int64 (b.size +ℤ pos (length p));
}

-- release
abbrev pub body_release : BodyBuffer → BodyBuffer
body_release b = record { content = []; size = pos 0; closed = true }

pub record Exchange : Type 0 where
  pub number : ℕ
  pub request : OutboundRequestDiagnostic
  pub sent : Option BodyBuffer
  pub response : Option BodyBuffer
  pub event : Bytes

pub record Capture : Type 0 where
  pub exchanges : List Exchange
  pub closed : Bool
  pub recorded : ℕ

abbrev pub new_capture : Capture
new_capture = record { exchanges = []; closed = false; recorded = 0 }

-- A body that is too large is dropped, and its size kept.
unfoldable pub keep_body : OutboundRequestDiagnostic → OutboundRequestDiagnostic
keep_body r =
    if ltb max_body_bytes (length r.body)
    then record r {
      body = [];
      body_original_size = max_ℤ r.body_original_size (pos (length r.body));
    }
    else r

-- What the publication does to the list: once it is full, the second one goes.
unfoldable pub add_exchange : Exchange → List Exchange → List Exchange
add_exchange e es =
    if ltb (length es) max_requests then es ++ e ∷ [] else take 1 es ++ (drop 2 es ++ e ∷ [])

-- record: the exchange's number, `none` once the collector is closed.
unfoldable pub record_request :
    Capture → OutboundRequestDiagnostic → Option BodyBuffer → Capture × Option ℕ
record_request c r sent =
    if c.closed
    then (c, none)
    else (let e : Exchange = record {
      number = c.recorded;
      request = keep_body r;
      sent = sent;
      response = none;
      event = [];
    } in
        (
          record c { exchanges = add_exchange e c.exchanges; recorded = suc c.recorded },
          some c.recorded,
        ))

-- An operation on the exchange of this number, if it is not closed.
unfoldable pub on_exchange : ℕ → (Exchange → Exchange) → Capture → Capture
on_exchange n f c = record c { exchanges = map (λ e. if e.number == n then f e else e) c.exchanges }

unfoldable pub set_status : ℕ → ℤ → Capture → Capture
unfolding on_exchange
set_status n status =
    on_exchange n (λ e. record e { request = record e.request { status_code = status } })

unfoldable pub observe_event : ℕ → Bytes → Capture → Capture
unfolding on_exchange
observe_event n bytes c =
    if length bytes == 0
    then c
    else if ltb max_event_bytes (length bytes)
    then c
    else on_exchange n (λ e. record e { event = bytes }) c

-- The body that was sent, and the size of the whole.
unfoldable pub sent_body : Exchange → Bytes × ℤ
sent_body e =
    let stated = max_ℤ e.request.body_original_size (pos (length e.request.body)) in
    elim e.sent [ none ↦ (e.request.body, stated) | some b ↦ (b.content, max_ℤ stated b.size) ]

-- A request of the snapshot, and what is left of the budget.
unfoldable pub snapshot_request : Exchange → ℕ → OutboundRequestDiagnostic × ℕ
snapshot_request e remaining =
    let (body, size) = sent_body e in
    if not (ltb_ℤ (pos (length body)) size) && leb (length body) remaining
    then (record e.request { body = body; body_original_size = size }, remaining - length body)
    else (record e.request { body = []; body_original_size = size }, remaining)

-- The error body of the last request: its response if that is whole, else nothing; its last event
-- if there is no response.
unfoldable pub raw_error : Exchange → Bytes
raw_error e = elim e.response [
  | none ↦ e.event
  | some b ↦ if ltb_ℤ (pos (length b.content)) b.size then [] else b.content
]

unfoldable pub snapshot_error : Exchange → ℕ → Bytes × ℕ
snapshot_error e remaining =
    let raw = raw_error e in
    if leb (length raw) remaining then (raw, remaining - length raw) else ([], remaining)

-- The loop of Snapshot, from the last exchange to the first: the requests, the error body, and what
-- is left of the budget.
unfoldable pub snapshot_loop : List Exchange → List OutboundRequestDiagnostic × Bytes × ℕ
snapshot_loop [] = ([], [], max_body_bytes)
snapshot_loop (e ∷ []) =
    let (r, left) = snapshot_request e max_body_bytes in
    let (raw, left') = snapshot_error e left in (r ∷ [], raw, left')
snapshot_loop (e ∷ e' ∷ es) =
    let (rs, raw, left) = snapshot_loop (e' ∷ es) in
    let (r, left') = snapshot_request e left in (r ∷ rs, raw, left')

unfoldable pub snapshot : Capture → Option FinalErrorDiagnostic
unfolding snapshot_loop
snapshot c = elim c.exchanges [
  | [] ↦ none
  | ◌∷◌ e es ↦
      let (rs, raw, left) = snapshot_loop (e ∷ es) in
      some (record { outbound_requests = rs; upstream_error_body = raw })
]

-- Finish: `failed` says that there is an error. The collector is closed in every case.
unfoldable pub finish :
    {F : Type 0} → Capture → ForwardOutcome F → Bool → Capture × ForwardOutcome F
finish c o failed = (
  record c { exchanges = []; closed = true },
  (if not failed && is_success o.kind then o else record o { final_error_diagnostic = snapshot c }),
)
