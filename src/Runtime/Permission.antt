-- ===== src/Runtime/Permission.antt =====
-- pkg/runtime/permission/manager.go: the requests that wait for the user. A channel is a number; its
-- buffer has one slot.
pub mod Laws
mod Tests
use gm_agent.Prelude.{ℕ, ◌+◌, String, Bool, Option, none, some, [], eqb, if◌then◌else◌}
use gm_agent.Prelude.Dict.{Dict, lookup, insert, delete}
use gm_agent.Prelude.Result.{Error, Reply, value, failed, message}

pub record Response : Type 0 where
  pub approved : Bool
  pub always : Bool

-- The channel of each pending request, and the buffer of each of the channels made so far.
pub record Manager : Type 0 where
  pub pending : Dict ℕ
  pub buffer : ℕ → Option Response
  pub made : ℕ

-- What `select` of WaitForResponse is woken by.
pub data Wake : Type 0 where
  arrival : Wake
  timeout : Wake
  done : Error → Wake

abbrev pub request_not_found : Error
request_not_found = message "permission request not found"

unfoldable pub new_manager : Manager
new_manager = record { pending = []; buffer = λ c. none; made = 0 }

-- The buffers after a send to, or a receive from, channel `c`.
unfoldable pub put : ℕ → Option Response → (ℕ → Option Response) → ℕ → Option Response
put c content buffer d = if eqb d c then content else buffer d

unfoldable pub request : String → Manager → ℕ × Manager
unfolding insert put
request id m = (
  m.made,
  record {
    pending = insert id m.made m.pending;
    buffer = put m.made none m.buffer;
    made = m.made + 1;
  },
)

-- The send does not block: a full buffer is an error.
unfoldable pub send : ℕ → Response → Manager → Option Error × Manager
unfolding put
send c response m = elim (m.buffer c) [
  | some _ ↦ (some (message "failed to send response: channel might be full"), m)
  | none ↦ (none, record m { buffer = put c (some response) m.buffer })
]

unfoldable pub respond : String → Response → Manager → Option Error × Manager
unfolding lookup send
respond id response m = elim (lookup id m.pending) [
  | none ↦ (some request_not_found, m)
  | some c ↦ send c response m
]

-- `WaitForResponse` up to its `select`: the channel to wait on.
unfoldable pub begin_wait : String → Manager → Reply ℕ
unfolding lookup
begin_wait id m = elim (lookup id m.pending) [ none ↦ failed request_not_found | some c ↦ value c ]

unfoldable pub forget : String → Manager → Manager
unfolding delete
forget id m = record m { pending = delete id m.pending }

-- The rest of `WaitForResponse`. `none`: no response has arrived, so it waits on.
unfoldable pub end_wait : Wake → String → ℕ → Manager → Option (Reply Response) × Manager
unfolding forget put
end_wait arrival id c m = elim (m.buffer c) [
  | none ↦ (none, m)
  | some response ↦ (some (value response), forget id (record m { buffer = put c none m.buffer }))
]
end_wait timeout id c m = (some (failed (message "permission request timed out")), forget id m)
end_wait (done x) id c m = (some (failed x), forget id m)
