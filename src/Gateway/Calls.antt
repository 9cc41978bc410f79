-- ===== src/Gateway/Calls.antt =====
-- What a plugin's calls on its writer leave on the stream.
use airgate_sdk.Prelude.{
  ℤ, ◌≡◌, refl, sym, ap, ◌∙◌, ◌⊎◌, inl, inr, some, List, [], ◌∷◌, ◌++◌, append_assoc, append-nil,
  arith, true, ◌||◌, Bool-cases,
}
use airgate_sdk.Outcome.{Bytes, Header}
use airgate_sdk.Stream.Sending.{Transport}
use airgate_sdk.Stream.Phases.{content, IsFresh, IsReady}
use airgate_sdk.Stream.{
  StreamWriter, new_writer, begin_stream_completion, set_headers, write_header, write,
}
use airgate_sdk.Stream.Writes.{write-Written, write_failed}
use airgate_sdk.Gateway.Server.{
  WriterCall, begins_completion, sets_headers, writes_header, writes, writer_call, run_calls,
}

-- The bytes that a plugin writes.
abbrev pub written : List WriterCall → Bytes
written [] = []
written (writes bytes ∷ cs) = bytes ++ written cs
written (begins_completion ∷ cs) = written cs
written (sets_headers h ∷ cs) = written cs
written (writes_header s ∷ cs) = written cs

module _ {F E : Type 0} where
  -- A writer that has not failed and holds these bytes.
  abbrev pub Holds : StreamWriter F E → Bytes → Type 0
  Holds w bytes = (IsFresh w ⊎ IsReady w) × (content w ≡ bytes)

  begin-Holds :
      (w : StreamWriter F E)
      → IsFresh w ⊎ IsReady w
      → IsFresh (begin_stream_completion w) ⊎ IsReady (begin_stream_completion w)
  unfolding begin_stream_completion
  begin-Holds w (inl h) =
      inl (record { alive = h.alive; unsent = h.unsent; empty = h.empty; no_tail = h.no_tail })
  begin-Holds w (inr h) = inr (record {
    alive = h.alive;
    begun = h.begun;
    started = h.started;
    tail_bounded = h.tail_bounded;
    ordinary = λ e. cc;
  })

  headers-Holds :
      (w : StreamWriter F E) (h : Header)
      → IsFresh w ⊎ IsReady w
      → IsFresh (set_headers h w) ⊎ IsReady (set_headers h w)
  unfolding set_headers
  headers-Holds w hs (inl h) =
      inl (record { alive = h.alive; unsent = h.unsent; empty = h.empty; no_tail = h.no_tail })
  headers-Holds w hs (inr h) = inr (record {
    alive = h.alive;
    begun = h.begun;
    started = h.started;
    tail_bounded = h.tail_bounded;
    ordinary = h.ordinary;
  })

  status-Holds :
      (w : StreamWriter F E) (s : ℤ)
      → IsFresh w ⊎ IsReady w
      → IsFresh (write_header s w) ⊎ IsReady (write_header s w)
  unfolding write_header
  status-Holds w s h = elim (Bool-cases (w.sent || w.wrote_header)) [
    | inl late ↦ rw (late, write_header) h
    | inr early ↦ rw (early, write_header) (first_status w s h)
  ]
    where
      first_status :
          (w : StreamWriter F E) (s : ℤ)
          → IsFresh w ⊎ IsReady w
          → IsFresh (record w { code = s; wrote_header = true })
            ⊎ IsReady (record w { code = s; wrote_header = true })
      first_status w s (inl h) =
          inl (record { alive = h.alive; unsent = h.unsent; empty = h.empty; no_tail = h.no_tail })
      first_status w s (inr h) = inr (record {
        alive = h.alive;
        begun = h.begun;
        started = h.started;
        tail_bounded = h.tail_bounded;
        ordinary = h.ordinary;
      })

  status-content : (w : StreamWriter F E) (s : ℤ) → content (write_header s w) ≡ content w
  unfolding write_header
  status-content w s = elim (Bool-cases (w.sent || w.wrote_header)) [
    | inl late ↦ rw (late, write_header) refl
    | inr early ↦ rw (early, write_header) refl
  ]

module _ {F E : Type 0} (t : Transport F E) where
  call_failed :
      (c : WriterCall) (w : StreamWriter F E) (e : E)
      → w.err ≡ some e
      → ((writer_call t c w).err ≡ some e) × ((writer_call t c w).stream ≡ w.stream)
  unfolding writer_call begin_stream_completion set_headers write_header
  call_failed begins_completion w e h = (h, refl)
  call_failed (sets_headers hs) w e h = (h, refl)
  call_failed (writes_header s) w e h = (ground arith, ground arith)
  call_failed (writes bytes) w e h = rw (write_failed t w bytes e h, writer_call) (h, refl)

  -- A writer that failed sends nothing more, whatever the plugin goes on to do.
  pub run_calls_failed :
      (cs : List WriterCall) (w : StreamWriter F E) (e : E)
      → w.err ≡ some e
      → ((run_calls t cs w).err ≡ some e) × ((run_calls t cs w).stream ≡ w.stream)
  unfolding run_calls
  run_calls_failed [] w e h = (h, refl)
  run_calls_failed (c ∷ cs) w e h =
      let (h', same) = call_failed c w e h in
      let (kept, unchanged) = run_calls_failed cs (writer_call t c w) e h' in
      (kept, unchanged ∙ same)

  -- The writer has failed, or it holds what it held and what the plugin wrote.
  pub run_calls-Holds :
      (cs : List WriterCall) (w : StreamWriter F E) (bytes : Bytes)
      → Holds w bytes
      → Holds (run_calls t cs w) (bytes ++ written cs)
        ⊎ ((e : E) × ((run_calls t cs w).err ≡ some e))
  unfolding run_calls writer_call
  run_calls-Holds [] w bytes h = inl (h.0, h.1 ∙ sym (append-nil bytes))
  run_calls-Holds (begins_completion ∷ cs) w bytes h =
      run_calls-Holds cs _ bytes (begin-Holds w h.0, (unfold begin_stream_completion in h.1))
  run_calls-Holds (sets_headers hs ∷ cs) w bytes h =
      run_calls-Holds cs _ bytes (headers-Holds w hs h.0, (unfold set_headers in h.1))
  run_calls-Holds (writes_header s ∷ cs) w bytes h =
      run_calls-Holds cs _ bytes (status-Holds w s h.0, status-content w s ∙ h.1)
  run_calls-Holds (writes more ∷ cs) w bytes h = elim (write-Written t w more h.0) [
    | inr (e, failed, _, _) ↦ inr (e, (run_calls_failed cs (write t w more).0 e failed.failed).0)
    | inl (ready, _, _, all, _) ↦ rw (← append_assoc bytes more (written cs)) (
        run_calls-Holds cs (write t w more).0 (bytes ++ more)
          (inr ready, all ∙ ap (λ b. b ++ more) h.1))
  ]

  pub new_writer-Holds : Holds (new_writer {F = F} {E = E}) []
  new_writer-Holds =
      (inl (record { alive = refl; unsent = refl; empty = refl; no_tail = refl }), refl)
