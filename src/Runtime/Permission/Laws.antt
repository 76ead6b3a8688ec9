-- ===== src/Runtime/Permission/Laws.antt =====
-- Steps of the manager of permission requests by several goroutines, in any order.
use gm_agent.Prelude.{
  some-none, ℕ, ◌<◌, String, true, false, Option, none, some, ◌≡◌, refl, sym, ap, ◌∙◌, arith, eqb,
  eq_refl, inl, inr, Option-cases, Bool-cases,
}
use mathlib.Core.Path.{subst}
use gm_agent.Prelude.Dict.{lookup, lookup-delete}
use gm_agent.Prelude.Result.{failed-value, value_injective, Error, value}
use gm_agent.Runtime.Permission.{
  Response, Manager, arrival, timeout, done, put, request, send, respond, begin_wait, forget,
  end_wait,
}

-- A step of the manager that does not receive from channel `c`.
pub data StepBeside (c : ℕ) : Manager → Manager → Type 0 where
  requests : (id : String) (m : Manager) → StepBeside c m (request id m).1
  responds : (id : String) (r : Response) (m : Manager) → StepBeside c m (respond id r m).1
  expires : (id : String) (d : ℕ) (m : Manager) → StepBeside c m (end_wait timeout id d m).1
  stops :
      (x : Error) (id : String) (d : ℕ) (m : Manager) → StepBeside c m (end_wait (done x) id d m).1
  receives :
      (id : String) (d : ℕ) (m : Manager)
      → eqb c d ≡ false
      → StepBeside c m (end_wait arrival id d m).1

pub data StepsBeside (c : ℕ) : Manager → Manager → Type 0 where
  here : {m : Manager} → StepsBeside c m m
  step : {m m' m'' : Manager} → StepBeside c m m' → StepsBeside c m' m'' → StepsBeside c m m''

-- Channel `c` exists and its buffer holds `r`.
abbrev pub Holds : ℕ → Response → Manager → Type 0
Holds c r m = (c < m.made) × (m.buffer c ≡ some r)

put_beside :
    (c d : ℕ) (content : Option Response) (buffer : ℕ → Option Response)
    → eqb c d ≡ false
    → put d content buffer c ≡ buffer c
unfolding put
put_beside c d content buffer apart = rw (apart, put) refl

eqb-lt : (c d : ℕ) → c < d → eqb c d ≡ false
eqb-lt c d h = ground arith

eqb→eq : (c d : ℕ) → eqb c d ≡ true → c ≡ d
eqb→eq c d h = ground arith

-- Of two channels with different buffers none is the other.
eqb-buffer :
    (c d : ℕ) (r : Response) (buffer : ℕ → Option Response)
    → buffer c ≡ some r
    → buffer d ≡ none
    → eqb c d ≡ false
eqb-buffer c d r buffer held empty = elim (Bool-cases (eqb c d)) [
  | inl same ↦ absurd (some-none (sym held ∙ ap buffer (eqb→eq c d same) ∙ empty))
  | inr apart ↦ apart
]

send-Holds :
    (c d : ℕ) (r response : Response) (m : Manager) → Holds c r m → Holds c r (send d response m).1
unfolding send put
send-Holds c d r response m (there, held) = elim (Option-cases (m.buffer d)) [
  | inl empty ↦
      rw (empty, send)
        (
          there,
          put_beside c d (some response) m.buffer (eqb-buffer c d r m.buffer held empty) ∙ held,
        )
  | inr (old, full) ↦ rw (full, send) (there, held)
]

StepBeside-Holds :
    {c : ℕ} {r : Response} {m m' : Manager} → StepBeside c m m' → Holds c r m → Holds c r m'
unfolding request respond end_wait forget put
StepBeside-Holds {c} (requests id m) (there, held) =
    (omega (arith, there), put_beside c m.made none m.buffer (eqb-lt c m.made there) ∙ held)
StepBeside-Holds {c} {r} (responds id response m) holds =
    elim (Option-cases (lookup id m.pending)) [
      | inl missing ↦ rw (missing, respond) holds
      | inr (d, found) ↦ rw (found, respond) (send-Holds c d r response m holds)
    ]
StepBeside-Holds (expires id d m) holds = holds
StepBeside-Holds (stops x id d m) holds = holds
StepBeside-Holds {c} (receives id d m apart) (there, held) = elim (Option-cases (m.buffer d)) [
  | inl empty ↦ rw (empty, end_wait) (there, held)
  | inr (old, full) ↦ rw (full, end_wait) (there, put_beside c d none m.buffer apart ∙ held)
]

StepsBeside-Holds :
    {c : ℕ} {r : Response} {m m' : Manager} → StepsBeside c m m' → Holds c r m → Holds c r m'
StepsBeside-Holds here holds = holds
StepsBeside-Holds (step one more) holds = StepsBeside-Holds more (StepBeside-Holds one holds)

eqb_self : (c : ℕ) → eqb c c ≡ true
eqb_self c = ground arith

put_self :
    (c : ℕ) (content : Option Response) (buffer : ℕ → Option Response)
    → put c content buffer c ≡ content
unfolding put
put_self c content buffer = rw (eqb_self c, put) refl

lookup-forgotten : (id : String) (m : Manager) → lookup id (forget id m).pending ≡ none
unfolding forget
lookup-forgotten id m = lookup-delete id id m.pending ∙ rw (eq_refl id) refl

begin_wait-lookup :
    (id : String) (c : ℕ) (m : Manager) → begin_wait id m ≡ value c → lookup id m.pending ≡ some c
unfolding begin_wait
begin_wait-lookup id c m waits = elim (Option-cases (lookup id m.pending)) [
  | inl missing ↦ absurd (failed-value (rw (missing, begin_wait) at waits))
  | inr (d, found) ↦
      found ∙ ap (λ (d : ℕ). some d) (value_injective (rw (found, begin_wait) at waits))
]

send-accepted :
    (c : ℕ) (r : Response) (m : Manager)
    → c < m.made
    → (send c r m).0 ≡ none
    → Holds c r (send c r m).1
unfolding send put
send-accepted c r m there accepted = elim (Option-cases (m.buffer c)) [
  | inl empty ↦ rw (empty, send) (there, put_self c (some r) m.buffer)
  | inr (old, full) ↦ absurd (some-none (rw (full, send) at accepted))
]

-- A goroutine has begun to wait on the channel of a request, and a response to the request is
-- accepted. Whatever other requests, responses and waits follow, as long as none receives from this
-- channel, the wait then ends with this response, and the buffer is empty again.
pub end_wait-respond :
    (id : String) (c : ℕ) (r : Response) (m m' : Manager)
    → begin_wait id m ≡ value c
    → c < m.made
    → (respond id r m).0 ≡ none
    → StepsBeside c (respond id r m).1 m'
    → ((end_wait arrival id c m').0 ≡ some (value r))
      × ((end_wait arrival id c m').1.buffer c ≡ none)
      × (lookup id (end_wait arrival id c m').1.pending ≡ none)
unfolding begin_wait respond end_wait forget
end_wait-respond id c r m m' waits there accepted steps =
    let found = begin_wait-lookup id c m waits in
    let sent : respond id r m ≡ send c r m = rw (found, respond) refl in
    let (_, held) = StepsBeside-Holds steps (
      subst (λ (o : Option Error × Manager). Holds c r o.1) (sym sent)
        (send-accepted c r m there (rw (sent) at accepted))) in
    rw (held, end_wait) (refl, put_self c none m'.buffer, lookup-forgotten id m')
