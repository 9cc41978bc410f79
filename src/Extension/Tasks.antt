-- ===== src/Extension/Tasks.antt =====
-- The background tasks and the asynchronous tasks of runtimego/grpc/extension_server.go. A handler's
-- run is its error; `none` is a nil handler. The lock makes each method one step.
pub mod Declared
use airgate_sdk.Prelude.{
  ℤ, milliseconds, String, Bool, true, false, ◌≡◌, refl, sym, ap, ◌∙◌, ◌⊎◌, inl, inr, Option, none,
  some, List, [], ◌∷◌, map, if◌then◌else◌, Bool-cases, Option-cases,
}
use text.Mathlib.Text.{◌==◌}
use airgate_sdk.Outcome.{Bytes}

-- BackgroundTask
pub record BackgroundTask (T : Type 0) : Type 0 where
  pub name : String
  pub interval : ℤ
  pub handler : Option T

-- BackgroundTaskProto
pub record ProtoTask : Type 0 where
  pub name : String
  pub interval_ms : ℤ

-- taskMap
abbrev pub TaskMap : Type 0 → Type 0
TaskMap T = List (String × Option T)

module _ {T : Type 0} where
  -- taskMap[t.Name] = t.Handler
  unfoldable pub put_task : String → Option T → TaskMap T → TaskMap T
  put_task name h [] = (name, h) ∷ []
  put_task name h ((n, h') ∷ tasks) =
      if n == name then (n, h) ∷ tasks else (n, h') ∷ put_task name h tasks

  -- handler, ok := s.taskMap[name]
  unfoldable pub find_task : String → TaskMap T → Option (Option T)
  find_task name [] = none
  find_task name ((n, h) ∷ tasks) = if n == name then some h else find_task name tasks

  -- The loop of GetBackgroundTasks over the plugin's tasks.
  unfoldable pub map_tasks : List (BackgroundTask T) → TaskMap T → TaskMap T
  unfolding put_task
  map_tasks [] out = out
  map_tasks (t ∷ tasks) out = map_tasks tasks (put_task t.name t.handler out)

  unfoldable pub task_to_proto : BackgroundTask T → ProtoTask
  task_to_proto t = record { name = t.name; interval_ms = milliseconds t.interval }

  -- GetBackgroundTasks: the new taskMap, and the response.
  unfoldable pub get_background_tasks : List (BackgroundTask T) → TaskMap T × List ProtoTask
  unfolding map_tasks task_to_proto
  get_background_tasks tasks = (map_tasks tasks [], map task_to_proto tasks)

  -- RunBackgroundTask, for what the plugin's BackgroundTasks would give now: the taskMap, and the
  -- handler that is run, if one is found.
  unfoldable pub run_background_task :
      TaskMap T → List (BackgroundTask T) → String → TaskMap T × Option T
  unfolding get_background_tasks
  run_background_task known tasks name = elim (find_task name known) [
    | some handler ↦ (known, handler)
    | none ↦
        let (fetched, _) = get_background_tasks tasks in
        (fetched, elim (find_task name fetched) [ some handler ↦ handler | none ↦ none ])
  ]

-- What ProcessTask answers.
pub record TaskAnswer : Type 0 where
  pub success : Bool
  pub error_message : String

-- ProcessTask: `process` is the plugin's, `none` where it is no TaskProcessor, on the decoded input.
unfoldable pub process_task :
    {I : Type 0} → (Bytes → I) → I → Option (I → Option String) → Bytes → TaskAnswer
process_task decode no_input none input = record {
  success = false;
  error_message = "plugin does not implement TaskProcessor";
}
process_task decode no_input (some process) input =
    elim (process (elim input [ [] ↦ no_input | ◌∷◌ b bytes ↦ decode (b ∷ bytes) ])) [
      | some message ↦ record { success = false; error_message = message }
      | none ↦ record { success = true; error_message = "" }
    ]

-- GetTaskTypes: `none` where the plugin is no TaskProcessor.
unfoldable pub get_task_types : Option (List String) → List String
get_task_types none = []
get_task_types (some types) = types
