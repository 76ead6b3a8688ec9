-- ===== src/Types/Clone/Tests.antt =====
-- Clones of concrete states.
use gm_agent.Prelude.{◌≡◌, refl, none}
use gm_agent.Prelude.Dict.{lookup, insert}
use gm_agent.Types.Clone.{clone}
use gm_agent.Types.Clone.Laws.{IsWellFormed, Clones, clone-Clones}
use gm_agent.Samples.{busy}

busy-IsWellFormed : IsWellFormed busy
unfolding lookup
busy-IsWellFormed = record { tasks = (refl, (refl, tt)); artifacts = tt; locks = tt }

clone-Clones_example : Clones busy (clone busy)
clone-Clones_example = clone-Clones busy busy-IsWellFormed

-- The nil entry is not copied.
clone_drops_nil : lookup "gone" (clone busy).tasks ≡ none
unfolding clone lookup insert
clone_drops_nil = refl
