-- ===== src/Tests/Extension.antt =====
-- A stream that takes everything, and two background tasks of one name.
use airgate_sdk.Prelude.{
  ◌≡◌, refl, ap, ℕ, pos, to_int32, eqb_ℤ, false, true, none, some, List, [], ◌∷◌, ◌++◌, String, All,
}
use airgate_sdk.Gateway.Server.{WriterCall, sets_headers, writes_header, writes}
use airgate_sdk.Extension.Messages.{HttpResponseChunk}
use airgate_sdk.Extension.Writer.{
  ChunkStream, write_response, write_rounds, write_piece, next_chunk, begun, send_chunk,
  lower_headers, response_status, write_status,
}
use airgate_sdk.Extension.Writer.Pieces.{stream_payload, IsSmall}
use airgate_sdk.Extension.Requests.{
  served, stream_routed, response_call, response_calls, send_last, done_chunk,
}
use airgate_sdk.Extension.Requests.Streams.{
  written, is_write, stream_routed-written, stream_routed_silent,
}
use airgate_sdk.Extension.Tasks.{BackgroundTask, get_background_tasks, run_background_task}
use airgate_sdk.Extension.Tasks.Declared.{last_task, handler_of, run_background_task_lem}

abbrev taking : ChunkStream String
taking = record { answer = λ stream chunk. none; size = λ chunk. 0; exhausted = "too large" }

abbrev same_case : String → String
same_case s = s

abbrev hello : List WriterCall
hello = writes_header (pos 201) ∷ writes (1 ∷ 2 ∷ []) ∷ writes (3 ∷ []) ∷ []

hello_streamed : stream_routed taking same_case (served hello) ≡ (
  record { payload = 1 ∷ 2 ∷ []; done = false; status_code = pos 201; headers = [] }
      ∷ record { payload = 3 ∷ []; done = false; status_code = pos 0; headers = [] }
      ∷ done_chunk taking same_case
      ∷ [],
  none,
)
unfolding stream_routed response_calls response_call write_status write_response write_rounds
    write_piece next_chunk begun send_chunk lower_headers response_status send_last to_int32 eqb_ℤ
hello_streamed = refl

stream_routed-written_example :
    (body : List HttpResponseChunk) × ((stream_routed taking same_case (served hello)).0
      ≡ body ++ done_chunk taking same_case ∷ [])
    × (stream_payload body ≡ written hello)
    × All IsSmall body
stream_routed-written_example =
    stream_routed-written taking same_case hello (ap (λ r. r.1) hello_streamed)

-- A redirect without a body.
abbrev redirect : List WriterCall
redirect = sets_headers (("Location", "/login" ∷ []) ∷ []) ∷ writes_header (pos 302) ∷ []

redirect_quiet : All (λ c. is_write c ≡ false) redirect
unfolding is_write
redirect_quiet = (refl, (refl, _))

stream_routed_silent_example :
    stream_routed taking same_case (served redirect)
    ≡ send_last taking same_case []
        (record { payload = []; done = true; status_code = pos 0; headers = [] })
stream_routed_silent_example = stream_routed_silent taking same_case redirect redirect_quiet

abbrev first_sync : BackgroundTask ℕ
first_sync = record { name = "sync"; interval = pos 60000000000; handler = some 1 }

abbrev second_sync : BackgroundTask ℕ
second_sync = record first_sync { handler = some 2 }

abbrev syncs : List (BackgroundTask ℕ)
syncs = first_sync ∷ second_sync ∷ []

run_background_task_lem_example :
    (((run_background_task [] syncs "sync").1 ≡ handler_of (last_task "sync" syncs))
      × ((run_background_task [] syncs "sync").0 ≡ (get_background_tasks syncs).0))
    × ((run_background_task (get_background_tasks syncs).0 syncs "sync").1
        ≡ handler_of (last_task "sync" syncs))
run_background_task_lem_example = run_background_task_lem syncs "sync"

last_sync : last_task "sync" syncs ≡ some (some 2)
unfolding last_task
last_sync = refl
