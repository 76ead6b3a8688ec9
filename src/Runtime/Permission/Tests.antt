-- ===== src/Runtime/Permission/Tests.antt =====
-- A request is answered; a second answer comes late and is not accepted.
use gm_agent.Prelude.{true, false, none, some, ◌≡◌, refl, arith}
use gm_agent.Prelude.Dict.{lookup}
use gm_agent.Prelude.Result.{value}
use gm_agent.Runtime.Permission.{
  Response, Manager, arrival, new_manager, request, respond, begin_wait, end_wait,
}
use gm_agent.Runtime.Permission.Laws.{requests, responds, here, step, end_wait-respond}

abbrev yes : Response
yes = record { approved = true; always = true }

abbrev no : Response
no = record { approved = false; always = false }

abbrev asked : Manager
asked = (request "perm_1" new_manager).1

abbrev answered : Manager
answered = (respond "perm_1" yes asked).1

abbrev later : Manager
later = (respond "perm_1" no (request "perm_2" answered).1).1

end_wait-respond_example :
    ((end_wait arrival "perm_1" 0 later).0 ≡ some (value yes))
    × ((end_wait arrival "perm_1" 0 later).1.buffer 0 ≡ none)
    × (lookup "perm_1" (end_wait arrival "perm_1" 0 later).1.pending ≡ none)
unfolding new_manager request respond begin_wait
end_wait-respond_example = end_wait-respond "perm_1" 0 yes asked later refl (omega arith) refl (
    step (requests "perm_2" answered)
      (step (responds "perm_1" no (request "perm_2" answered).1) here))
