-- ===== src/Session/Lifecycle.antt =====
-- The life of the sessions of pkg/api/service/session.go, as steps on their table: every call of the
-- service and every end of a background run, in any order.
use gm_agent.Prelude.{
  ℕ, ◌+◌, ◌≤◌, String, true, Option, none, some, [], ◌≡◌, refl, arith, ◌==◌, if◌then◌else◌,
  Bool-cases, Option-cases, inl, inr,
}
use gm_agent.Prelude.Dict.{lookup, insert, delete, lookup-insert, lookup-delete}
use gm_agent.Prelude.Result.{Error, Reply-cases}
use gm_agent.Session.Service.{
  user_request, system_request, wake, Session, Sessions, Factory, is_canceled, is_waiting,
  new_session, start, conclude, finish, remove, cancel_session, launch, open_session, create,
  send_message,
}
use gm_agent.External.{External, generate_id}

-- At most one goroutine runs the session, and none while a message would start one.
abbrev pub IsSingle : {W : Type 0} → Session W → Type 0
IsSingle s = (s.runs ≤ 1) × (is_waiting s.status ≡ true → s.runs ≡ 0)

abbrev pub IsSound : {W : Type 0} → Sessions W → Type 0
IsSound {W} table = (id : String) (s : Session W) → lookup id table ≡ some s → IsSingle s

module _ (ext : External) {W : Type 0} (factory : Factory W) where
  -- One step of the service. A run may end here even where none is active, which the source cannot do.
  pub data Step : Sessions W → Sessions W → Type 0 where
    creates :
        (table : Sessions W) (prompt prompt_of_system : String) (priority n : ℕ) (w : W)
        → Step table (create ext factory prompt prompt_of_system priority table n w).sessions
    sends :
        (table : Sessions W) (id content semantic : String) (n : ℕ) (w : W)
        → Step table (send_message ext id content semantic table n w).sessions
    cancels : (table : Sessions W) (id : String) (w : W) → Step table (cancel_session id table w).1
    removes : (table : Sessions W) (id : String) (w : W) → Step table (remove id table w).1
    finishes :
        (table : Sessions W) (id : String) (outcome : Option Error)
        → Step table (finish id outcome table)

  pub data IsReachable : Sessions W → Type 0 where
    empty : IsReachable []
    next : {t t' : Sessions W} → IsReachable t → Step t t' → IsReachable t'

module _ {W : Type 0} where
  insert-IsSound :
      (id : String) (s : Session W) (table : Sessions W)
      → IsSingle s
      → IsSound table
      → IsSound (insert id s table)
  insert-IsSound id s table single sound other t h =
      ground (arith, lookup-insert id other s table, sound other t)

  delete-IsSound : (id : String) (table : Sessions W) → IsSound table → IsSound (delete id table)
  delete-IsSound id table sound other t h =
      ground (arith, lookup-delete id other table, sound other t)

  start-IsSingle : (s : Session W) → IsSingle s → is_waiting s.status ≡ true → IsSingle (start s)
  unfolding start is_waiting
  start-IsSingle s (few, rests) h = (omega (arith, rests h), λ no. ground arith)

  wake-IsSingle : (s : Session W) → IsSingle s → IsSingle (wake s)
  unfolding wake
  wake-IsSingle s single = elim (Bool-cases (is_waiting s.status)) [
    | inl e ↦ rw (e, wake) (start-IsSingle s single e)
    | inr e ↦ rw (e, wake) single
  ]

  conclude-IsSingle :
      (outcome : Option Error) (s : Session W) → IsSingle s → IsSingle (conclude outcome s)
  unfolding conclude is_waiting
  conclude-IsSingle none s (few, waits) = (omega arith, λ _. omega arith)
  conclude-IsSingle (some x) s (few, waits) = elim (Bool-cases (is_canceled x)) [
    | inl e ↦ rw (e) (omega arith, λ no. ground arith)
    | inr e ↦ rw (e) (omega arith, λ no. ground arith)
  ]

  finish-IsSound :
      (id : String) (outcome : Option Error) (table : Sessions W)
      → IsSound table
      → IsSound (finish id outcome table)
  unfolding finish
  finish-IsSound id outcome table sound = elim (Option-cases (lookup id table)) [
    | inl e ↦ rw (e, finish) sound
    | inr (s, e) ↦
        rw (e, finish)
          (insert-IsSound id (conclude outcome s) table (conclude-IsSingle outcome s (sound id s e))
            sound)
  ]

  cancel_session-IsSound :
      (id : String) (table : Sessions W) (w : W)
      → IsSound table
      → IsSound (cancel_session id table w).1
  unfolding cancel_session is_waiting
  cancel_session-IsSound id table w sound = elim (Option-cases (lookup id table)) [
    | inl e ↦ rw (e, cancel_session) sound
    | inr (s, e) ↦
        rw (e, cancel_session)
          (insert-IsSound id (record s { status = "cancelled" }) table
            ((sound id s e).0, λ h. ground arith) sound)
  ]

  remove-IsSound :
      (id : String) (table : Sessions W) (w : W) → IsSound table → IsSound (remove id table w).1
  unfolding remove
  remove-IsSound id table w sound = elim (Option-cases (lookup id table)) [
    | inl e ↦ rw (e, remove) sound
    | inr (s, e) ↦ rw (e, remove) (delete-IsSound id table sound)
  ]

module _ (ext : External) {W : Type 0} where
  launch-IsSound :
      (s : Session W) (prompt : String) (priority : ℕ) (table : Sessions W) (n : ℕ) (w : W)
      → s.runs ≡ 0
      → is_waiting s.status ≡ true
      → IsSound table
      → IsSound (launch ext s prompt priority table n w).sessions
  unfolding launch is_waiting
  launch-IsSound s prompt priority table n w none_yet waits sound =
      elim (Bool-cases (prompt == "")) [
        | inl e ↦ rw (e, launch) sound
        | inr e ↦
            elim (Option-cases
              (s.resources.ingest (user_request ext s.id prompt priority "" n) w).0) [
                | inl fine ↦
                    rw (e, fine, launch)
                      (insert-IsSound s.id (start s) table
                        (start-IsSingle s (omega (arith, none_yet), λ _. none_yet) waits) sound)
                | inr (x, fails) ↦
                    rw (e, fails, launch)
                      (insert-IsSound s.id (record s { status = "running" }) table
                        (omega (arith, none_yet), λ no. none_yet) sound)
              ]
      ]

  open_session-IsSound :
      (s : Session W) (prompt prompt_of_system : String) (priority : ℕ) (table : Sessions W) (n : ℕ)
      (w : W)
      → s.runs ≡ 0
      → is_waiting s.status ≡ true
      → IsSound table
      → IsSound (open_session ext s prompt prompt_of_system priority table n w).sessions
  unfolding open_session
  open_session-IsSound s prompt prompt_of_system priority table n w none_yet waits sound =
      let here = insert-IsSound s.id s table (omega (arith, none_yet), λ _. none_yet) sound in
      elim (Bool-cases (prompt_of_system == "")) [
        | inl e ↦
            rw (e, open_session)
              (launch-IsSound s prompt priority (insert s.id s table) n w none_yet waits here)
        | inr e ↦
            elim (Option-cases
              (s.resources.ingest (system_request ext s.id prompt_of_system n) w).0) [
                | inl fine ↦
                    rw (e, fine, open_session)
                      (launch-IsSound s prompt priority (insert s.id s table) (n + 1) _ none_yet
                        waits here)
                | inr (x, fails) ↦ rw (e, fails, open_session) here
              ]
      ]

  create-IsSound :
      (factory : Factory W) (prompt prompt_of_system : String) (priority : ℕ) (table : Sessions W)
      (n : ℕ) (w : W)
      → IsSound table
      → IsSound (create ext factory prompt prompt_of_system priority table n w).sessions
  unfolding create new_session is_waiting
  create-IsSound factory prompt prompt_of_system priority table n w sound =
      elim (Reply-cases (factory (generate_id ext "ses" n) w).0) [
        | inl (resources, made) ↦
            rw (made, create)
              (open_session-IsSound (new_session (generate_id ext "ses" n) (ext.now n) resources)
                prompt prompt_of_system priority table (n + 1) _ refl refl sound)
        | inr (x, fails) ↦ rw (fails, create) sound
      ]

  send_message-IsSound :
      (id content semantic : String) (table : Sessions W) (n : ℕ) (w : W)
      → IsSound table
      → IsSound (send_message ext id content semantic table n w).sessions
  unfolding send_message
  send_message-IsSound id content semantic table n w sound = elim (Option-cases (lookup id table)) [
    | inl e ↦ rw (e, send_message) sound
    | inr (s, e) ↦
        elim (Option-cases
          (s.resources.ingest
            (user_request ext id content (if semantic == "preempt" then 100 else 0) semantic n)
            w).0) [
              | inl fine ↦
                  rw (e, fine, send_message)
                    (insert-IsSound id (wake s) table (wake-IsSingle s (sound id s e)) sound)
              | inr (x, fails) ↦ rw (e, fails, send_message) sound
            ]
  ]

module _ (ext : External) {W : Type 0} (factory : Factory W) where
  Step-IsSound : {t t' : Sessions W} → Step ext factory t t' → IsSound t → IsSound t'
  Step-IsSound (creates t prompt prompt_of_system priority n w) sound =
      create-IsSound ext factory prompt prompt_of_system priority t n w sound
  Step-IsSound (sends t id content semantic n w) sound =
      send_message-IsSound ext id content semantic t n w sound
  Step-IsSound (cancels t id w) sound = cancel_session-IsSound id t w sound
  Step-IsSound (removes t id w) sound = remove-IsSound id t w sound
  Step-IsSound (finishes t id outcome) sound = finish-IsSound id outcome t sound

  -- From the empty table, calls of the service and ends of runs in any order, each as one step,
  -- leave at most one run per session, and none in a session that a message would start.
  pub reachable-IsSound : (t : Sessions W) → IsReachable ext factory t → IsSound t
  unfolding lookup
  reachable-IsSound _ empty = λ id s h. cc
  reachable-IsSound t (next before step) = Step-IsSound step (reachable-IsSound _ before)
