-- ===== src/Scheduler/Framework/Binding/Reserving.antt =====
-- Reserve and Unreserve of scheduler/framework/runtime/framework.go.
use cloud_prophet.Prelude.{◌≡◌, refl, ap, ◌∙◌, String, Option, List, [], ◌∷◌, inl, inr, Bool-cases}
use cloud_prophet.Scheduler.Pod.{Pod}
use cloud_prophet.Scheduler.Framework.Status.{Status, is_success}
use cloud_prophet.Scheduler.Framework.Plugins.{ReservePlugin, FrameworkImpl}
use cloud_prophet.Scheduler.Framework.Runtime.{run_each}
use cloud_prophet.Scheduler.Framework.Binding.{
  reserve_failed, run_reserve_plugins_reserve, unreserve_each, run_reserve_plugins_unreserve,
}

module _ {S : Type 0} (pod : Pod) (node_name : String) where
  abbrev call : ReservePlugin S → S → Option Status × S
  call pl state = pl.reserve state pod node_name

  -- Unreserve of a plugin that holds nothing for the pod changes nothing.
  pub data AllIdle : List (ReservePlugin S) → S → Type 0 where
    idle_none : {state : S} → AllIdle [] state
    idle_more :
        {pl : ReservePlugin S} {pls : List (ReservePlugin S)} {state : S}
        → pl.unreserve state pod node_name ≡ state
        → AllIdle pls state
        → AllIdle (pl ∷ pls) state

  -- When the plugins reserve one after the other from a state, Unreserve of each takes back what its own
  -- Reserve did there, whether this succeeded or not, and the plugins that have not reserved yet are idle.
  pub data AllUndo : List (ReservePlugin S) → S → Type 0 where
    undo_none : {state : S} → AllUndo [] state
    undo_more :
        {pl : ReservePlugin S} {pls : List (ReservePlugin S)} {state : S}
        → pl.unreserve (pl.reserve state pod node_name).1 pod node_name ≡ state
        → AllIdle pls (pl.reserve state pod node_name).1
        → AllUndo pls (pl.reserve state pod node_name).1
        → AllUndo (pl ∷ pls) state

  unreserve_each-AllIdle :
      {pls : List (ReservePlugin S)} {state : S}
      → AllIdle pls state
      → unreserve_each pod node_name pls state ≡ state
  unfolding unreserve_each
  unreserve_each-AllIdle idle_none = refl
  unreserve_each-AllIdle (idle_more {pl = pl} still idle) =
      ap (λ s. pl.unreserve s pod node_name) (unreserve_each-AllIdle idle) ∙ still

  unreserve_each-AllUndo :
      {pls : List (ReservePlugin S)} {state : S}
      → AllUndo pls state
      → unreserve_each pod node_name pls (run_each call (reserve_failed pod) pls state).1 ≡ state
  unfolding unreserve_each run_each
  unreserve_each-AllUndo undo_none = refl
  unreserve_each-AllUndo (undo_more {pl = pl} {pls = pls} {state = state} back idle undo) =
      elim (Bool-cases (is_success (call pl state).0)) [
        | inl good ↦
            rw (good, run_each)
              (ap (λ s. pl.unreserve s pod node_name) (unreserve_each-AllUndo undo) ∙ back)
        | inr bad ↦
            rw (bad, run_each)
              (ap (λ s. pl.unreserve s pod node_name) (unreserve_each-AllIdle idle) ∙ back)
      ]

  -- However Reserve of all plugins ends, Unreserve, which runs all of them from the last to the first,
  -- brings the state back to where it was, also for the plugins that Reserve did not get to. This is so if
  -- Unreserve of each plugin takes back its own Reserve, and changes nothing where the plugin has not
  -- reserved.
  pub unreserve-reserve :
      (f : FrameworkImpl S) (state : S)
      → AllUndo f.reserve_plugins state
      → run_reserve_plugins_unreserve f pod node_name
          (run_reserve_plugins_reserve f pod node_name state).1
        ≡ state
  unfolding run_reserve_plugins_reserve run_reserve_plugins_unreserve
  unreserve-reserve f state undo = unreserve_each-AllUndo undo
