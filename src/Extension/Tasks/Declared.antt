-- ===== src/Extension/Tasks/Declared.antt =====
-- Which handler RunBackgroundTask runs.
use airgate_sdk.Prelude.{
  text_differs, String, Bool, true, false, ◌≡◌, refl, sym, ap, ◌∙◌, inl, inr, Option, none, some,
  or_else, List, [], ◌∷◌, if◌then◌else◌, Bool-cases, Option-cases,
}
use text.Mathlib.Text.{◌==◌}
use text.Mathlib.TextEquality.{eq_iff}
use airgate_sdk.Extension.Tasks.{
  BackgroundTask, TaskMap, put_task, find_task, map_tasks, get_background_tasks,
  run_background_task,
}

module _ {T : Type 0} where
  -- The handler of the last task of this name.
  unfoldable pub last_task : String → List (BackgroundTask T) → Option (Option T)
  last_task name [] = none
  last_task name (t ∷ tasks) =
      or_else (last_task name tasks) (if t.name == name then some t.handler else none)

  find_task-put_task :
      (name n : String) (h : Option T) (tasks : TaskMap T)
      → find_task name (put_task n h tasks) ≡ (if n == name then some h else find_task name tasks)
  unfolding find_task put_task
  find_task-put_task name n h [] = refl
  find_task-put_task name n h ((n', h') ∷ tasks) = elim (Bool-cases (n' == n)) [
    | inl same ↦ elim (Bool-cases (n == name)) [
      | inl found ↦
          let found' : (n' == name) ≡ true = ap (λ k. k == name) ((eq_iff n' n).0 same) ∙ found in
          rw (same, put_task, find_task) (rw (found, found', find_task) refl)
      | inr other ↦
          let other' : (n' == name) ≡ false = ap (λ k. k == name) ((eq_iff n' n).0 same) ∙ other in
          rw (same, put_task, find_task) (rw (other, other', find_task) refl)
    ]
    | inr differs ↦ elim (Bool-cases (n' == name)) [
      | inl first ↦
          let other : (n == name) ≡ false =
            ap (λ k. n == k) (sym ((eq_iff n' name).0 first)) ∙ text_differs n' n differs in
          rw (differs, put_task, find_task) (rw (first, other, find_task) refl)
      | inr later ↦
          rw (differs, put_task, find_task)
            (rw (later, find_task) (find_task-put_task name n h tasks))
    ]
  ]

  or_else_assoc : (a b c : Option (Option T)) → or_else a (or_else b c) ≡ or_else (or_else a b) c
  or_else_assoc none b c = refl
  or_else_assoc (some a) b c = refl

  or_else-if :
      (b : Bool) (l : Option (Option T)) (h : Option T) (c : Option (Option T))
      → or_else l (if b then some h else c) ≡ or_else (or_else l (if b then some h else none)) c
  or_else-if true l h c = or_else_assoc l (some h) c
  or_else-if false l h c = or_else_assoc l none c

  find_task-map_tasks :
      (name : String) (tasks : List (BackgroundTask T)) (out : TaskMap T)
      → find_task name (map_tasks tasks out) ≡ or_else (last_task name tasks) (find_task name out)
  unfolding map_tasks last_task
  find_task-map_tasks name [] out = refl
  find_task-map_tasks name (t ∷ tasks) out =
      find_task-map_tasks name tasks (put_task t.name t.handler out)
      ∙ ap (or_else (last_task name tasks)) (find_task-put_task name t.name t.handler out)
      ∙ or_else-if (t.name == name) (last_task name tasks) t.handler (find_task name out)

  -- The handler of a found task, if it is not nil.
  abbrev pub handler_of : Option (Option T) → Option T
  handler_of none = none
  handler_of (some h) = h

  run_known :
      (known : TaskMap T) (tasks : List (BackgroundTask T)) (name : String) (h : Option T)
      → find_task name known ≡ some h
      → run_background_task known tasks name ≡ (known, h)
  unfolding run_background_task
  run_known known tasks name h e = rw (e, run_background_task) refl

  run_unknown :
      (known : TaskMap T) (tasks : List (BackgroundTask T)) (name : String)
      → find_task name known ≡ none
      → run_background_task known tasks name ≡ (
        (get_background_tasks tasks).0,
        handler_of (find_task name (get_background_tasks tasks).0),
      )
  unfolding run_background_task
  run_unknown known tasks name e =
      elim (Option-cases (find_task name (get_background_tasks tasks).0)) [
        | inl f ↦ rw (e, f, run_background_task) refl
        | inr (h, f) ↦ rw (e, f, run_background_task) refl
      ]

  find_task-fetched :
      (name : String) (tasks : List (BackgroundTask T))
      → find_task name (get_background_tasks tasks).0 ≡ last_task name tasks
  unfolding get_background_tasks find_task
  find_task-fetched name tasks =
      find_task-map_tasks name tasks [] ∙ or_else_none (last_task name tasks)
    where
      or_else_none : (o : Option (Option T)) → or_else o none ≡ o
      or_else_none none = refl
      or_else_none (some x) = refl

  -- While no tasks are fetched, and again once they are: RunBackgroundTask runs the handler of the
  -- last of the plugin's tasks that has the name, and none if there is no such task or its handler is
  -- nil; the first time it fetches the tasks.
  pub run_background_task_lem :
      (tasks : List (BackgroundTask T)) (name : String)
      → (((run_background_task [] tasks name).1 ≡ handler_of (last_task name tasks))
          × ((run_background_task [] tasks name).0 ≡ (get_background_tasks tasks).0))
        × ((run_background_task (get_background_tasks tasks).0 tasks name).1
            ≡ handler_of (last_task name tasks))
  unfolding find_task
  run_background_task_lem tasks name =
      let fresh = run_unknown [] tasks name refl in
      let fetched = (get_background_tasks tasks).0 in
      (
        (ap (λ r. r.1) fresh ∙ ap handler_of (find_task-fetched name tasks), ap (λ r. r.0) fresh),
        elim (Option-cases (find_task name fetched)) [
          | inl e ↦
              ap (λ r. r.1) (run_unknown fetched tasks name e)
              ∙ ap handler_of (find_task-fetched name tasks)
          | inr (h, e) ↦
              ap (λ r. r.1) (run_known fetched tasks name h e)
              ∙ ap handler_of (sym e ∙ find_task-fetched name tasks)
        ],
      )
