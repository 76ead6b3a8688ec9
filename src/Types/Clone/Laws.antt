-- ===== src/Types/Clone/Laws.antt =====
-- What a clone of a state keeps.
use mathlib.Core.Option
use gm_agent.Prelude.{String, ◌≡◌, refl, ap, Option, none, some, List, [], ◌∷◌, map, arith, eq_iff}
use gm_agent.Prelude.Dict.{Dict, lookup, lookup-insert, insert-NodupKeys, NodupKeys}
use gm_agent.Types.State.{Goal, Message, State, ContextWindow, Task, TaskResult, Artifact, Lock}
use gm_agent.Types.Clone.{
  copy_map, copy_pointers, clone_goal, clone_message, clone_context, clone_task, clone_result,
  clone_artifact, clone_lock, clone,
}

map_id {ℓ} : {A : Type ℓ} (f : A → A) (h : (a : A) → f a ≡ a) (xs : List A) → map f xs ≡ xs
map_id f h [] = refl
map_id f h (x ∷ xs) = cc (h x, map_id f h xs)

option_map_id {ℓ} :
    {A : Type ℓ} (f : A → A) (h : (a : A) → f a ≡ a) (o : Option A) → Option.map f o ≡ o
option_map_id f h none = refl
option_map_id f h (some a) = ap some (h a)

-- A copied map answers every lookup as the original does.
pub lookup-copy_map {ℓ} :
    {V : Type ℓ} (k : String) (m : Dict V) → lookup k (copy_map m) ≡ lookup k m
unfolding copy_map lookup
lookup-copy_map k [] = refl
lookup-copy_map k ((j, v) ∷ m) =
    ground (arith, lookup-insert j k v (copy_map m), lookup-copy_map k m, eq_iff j k)

-- What a map of pointers shows after a clone: nil entries are gone, all else is copied.
abbrev pub present {ℓ} : {V : Type ℓ} → (V → V) → Option (Option V) → Option (Option V)
present f none = none
present f (some none) = none
present f (some (some v)) = some (some (f v))

pub lookup-copy_pointers {ℓ} :
    {V : Type ℓ} (f : V → V) (k : String) (m : Dict (Option V))
    → NodupKeys m
    → lookup k (copy_pointers f m) ≡ present f (lookup k m)
unfolding copy_pointers lookup
lookup-copy_pointers f k [] h = refl
lookup-copy_pointers f k ((j, none) ∷ m) h =
    ground (arith, lookup-copy_pointers f k m h.1, eq_iff j k)
lookup-copy_pointers f k ((j, some v) ∷ m) h = ground (
  arith,
  lookup-insert j k (some (f v)) (copy_pointers f m),
  lookup-copy_pointers f k m h.1,
  eq_iff j k,
)

pub clone_goal_lem : (g : Goal) → clone_goal g ≡ g
unfolding clone_goal
clone_goal_lem g = rw (option_map_id (λ d. d) (λ d. refl) g.deadline)

clone_message_lem : (m : Message) → clone_message m ≡ m
unfolding clone_message
clone_message_lem m = rw (map_id (λ c. c) (λ c. refl) m.tool_calls)

clone_context_lem : (c : ContextWindow) → clone_context c ≡ c
unfolding clone_context
clone_context_lem c = rw (
  map_id clone_message clone_message_lem c.messages,
  option_map_id (λ t. t) (λ t. refl) c.last_compaction_at,
)

-- The parts that are no maps come out of a clone as they went in.
pub goals-clone : (s : State) → (clone s).goals ≡ s.goals
unfolding clone
goals-clone s = map_id clone_goal clone_goal_lem s.goals

pub context-clone : (s : State) → (clone s).context ≡ s.context
unfolding clone
context-clone s = option_map_id clone_context clone_context_lem s.context

clone_result_lem : (r : TaskResult) → clone_result r ≡ r
unfolding clone_result
clone_result_lem r =
    rw (option_map_id (λ e. e) (λ e. refl) r.error, map_id (λ a. a) (λ a. refl) r.artifacts)

-- The same task, result and times included; its inputs answer every lookup alike.
abbrev pub IsSameTask : Task → Task → Type 0
IsSameTask s t =
    (record t { inputs = s.inputs } ≡ s) × ((k : String) → lookup k t.inputs ≡ lookup k s.inputs)

-- The same artifact, content included; its metadata answers every lookup alike.
abbrev pub IsSameArtifact : Artifact → Artifact → Type 0
IsSameArtifact a b =
    (record b { metadata = a.metadata } ≡ a)
    × ((k : String) → lookup k b.metadata ≡ lookup k a.metadata)

pub clone_task_lem : (t : Task) → IsSameTask t (clone_task t)
unfolding clone_task
clone_task_lem t = (
  rw (
    option_map_id clone_result clone_result_lem t.result,
    option_map_id (λ s. s) (λ s. refl) t.started_at,
    option_map_id (λ e. e) (λ e. refl) t.ended_at,
  ),
  λ k. lookup-copy_map k t.inputs,
)

pub clone_artifact_lem : (a : Artifact) → IsSameArtifact a (clone_artifact a)
unfolding clone_artifact
clone_artifact_lem a =
    (rw (map_id (λ b. b) (λ b. refl) a.content), λ k. lookup-copy_map k a.metadata)

-- Each of the maps of a state holds a key once, as Go's maps do.
pub record IsWellFormed (s : State) : Type 0 where
  pub tasks : NodupKeys s.tasks
  pub artifacts : NodupKeys s.artifacts
  pub locks : NodupKeys s.locks

-- What stands under a key before and after: a value has an equal one, a nil entry or no entry has none.
abbrev pub IsCarried :
    {V : Type 0} → (V → V → Type 0) → Option (Option V) → Option (Option V) → Type 0
IsCarried Same none o = o ≡ none
IsCarried Same (some none) o = o ≡ none
IsCarried {V} Same (some (some v)) o = (u : V) × (o ≡ some (some u)) × Same v u

present-IsCarried :
    {V : Type 0} (Same : V → V → Type 0) (f : V → V)
    → ((v : V) → Same v (f v))
    → (o : Option (Option V)) → IsCarried Same o (present f o)
present-IsCarried Same f h none = refl
present-IsCarried Same f h (some none) = refl
present-IsCarried Same f h (some (some v)) = (f v, refl, h v)

-- A copied map carries over what stands under each key.
copy_pointers-IsCarried :
    {V : Type 0} (Same : V → V → Type 0) (f : V → V)
    → ((v : V) → Same v (f v))
    → (k : String) (m : Dict (Option V)) → NodupKeys m
    → IsCarried Same (lookup k m) (lookup k (copy_pointers f m))
copy_pointers-IsCarried Same f h k m nodup =
    rw (lookup-copy_pointers f k m nodup) (present-IsCarried Same f h (lookup k m))

clone_lock_lem : (l : Lock) → clone_lock l ≡ l
unfolding clone_lock
clone_lock_lem l = refl

pub record Clones (s t : State) : Type 0 where
  -- all that is no map
  pub plain : record t { tasks = s.tasks; artifacts = s.artifacts; locks = s.locks } ≡ s
  pub task : (k : String) → IsCarried IsSameTask (lookup k s.tasks) (lookup k t.tasks)
  pub artifact :
      (k : String) → IsCarried IsSameArtifact (lookup k s.artifacts) (lookup k t.artifacts)
  pub lock : (k : String) → IsCarried (λ l m. m ≡ l) (lookup k s.locks) (lookup k t.locks)

clone-plain :
    (s : State) → record (clone s) { tasks = s.tasks; artifacts = s.artifacts; locks = s.locks } ≡ s
unfolding clone
clone-plain s = rw (
  map_id clone_goal clone_goal_lem s.goals,
  option_map_id clone_context clone_context_lem s.context,
)

-- The clone of a well-formed state has the same scalars, goals and context, and under each key of its
-- three maps a task, an artifact or a lock equal to that of the original, where inputs and metadata,
-- maps again, answer every lookup alike; a nil entry is dropped, and no key is added.
pub clone-Clones : (s : State) → IsWellFormed s → Clones s (clone s)
unfolding clone
clone-Clones s w = record {
  plain = clone-plain s;
  task = λ k. copy_pointers-IsCarried IsSameTask clone_task clone_task_lem k s.tasks w.tasks;
  artifact = λ k.
      copy_pointers-IsCarried IsSameArtifact clone_artifact clone_artifact_lem k s.artifacts
        w.artifacts;
  lock = λ k. copy_pointers-IsCarried (λ l m. m ≡ l) clone_lock clone_lock_lem k s.locks w.locks;
}

copy_pointers-NodupKeys {ℓ} :
    {V : Type ℓ} (f : V → V) (m : Dict (Option V)) → NodupKeys m → NodupKeys (copy_pointers f m)
unfolding copy_pointers
copy_pointers-NodupKeys f [] h = tt
copy_pointers-NodupKeys f ((k, none) ∷ m) h = copy_pointers-NodupKeys f m h.1
copy_pointers-NodupKeys f ((k, some v) ∷ m) h =
    insert-NodupKeys k (some (f v)) (copy_pointers f m) (copy_pointers-NodupKeys f m h.1)

pub clone-IsWellFormed : (s : State) → IsWellFormed s → IsWellFormed (clone s)
unfolding clone
clone-IsWellFormed s w = record {
  tasks = copy_pointers-NodupKeys clone_task s.tasks w.tasks;
  artifacts = copy_pointers-NodupKeys clone_artifact s.artifacts w.artifacts;
  locks = copy_pointers-NodupKeys clone_lock s.locks w.locks;
}
