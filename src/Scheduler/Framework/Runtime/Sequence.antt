-- ===== src/Scheduler/Framework/Runtime/Sequence.antt =====
-- The runs of scheduler/framework/runtime/framework.go that stop at the first plugin which fails.
use cloud_prophet.Prelude.{
  ◌≡◌, ◌≢◌, ◌⊎◌, refl, ap, true, false, Option, none, List, [], ◌∷◌, ◌++◌, inl, inr, Bool-cases,
}
use cloud_prophet.Scheduler.Pod.{Pod}
use cloud_prophet.Scheduler.Framework.Status.{
  Code, Status, code_is_unschedulable, get_code, is_success, is_unschedulable, new_status,
}
use cloud_prophet.Scheduler.Framework.Plugins.{PreFilterPlugin, FrameworkImpl}
use cloud_prophet.Scheduler.Framework.Runtime.{run_each, pre_filter_failed, run_pre_filter_plugins}

module _ {ℓ κ} {P : Type ℓ} {S : Type κ} (call : P → S → Option Status × S) where
  -- Every plugin of the list succeeds, each on the state that the one before left.
  pub data AllSucceed : List P → S → S → Type (ℓ ⊔ κ) where
    no_plugin : {state : S} → AllSucceed [] state state
    one_more :
        {pl : P} {pls : List P} {state last : S}
        → is_success (call pl state).0 ≡ true
        → AllSucceed pls (call pl state).1 last
        → AllSucceed (pl ∷ pls) state last

  -- How a run ends: `Reported` relates the status of the plugin that failed to the one that the run returns.
  pub data Ends (Reported : P → Option Status → Option Status → Type 0)
      : List P → S → Option Status × S → Type (ℓ ⊔ κ) where
    passed :
        {pls : List P} {state last : S}
        → AllSucceed pls state last
        → Ends Reported pls state (none, last)
    stopped :
        {pls : List P} {state middle : S} (before after : List P) (pl : P) (status : Option Status)
        → pls ≡ before ++ pl ∷ after
        → AllSucceed before state middle
        → is_success (call pl middle).0 ≡ false
        → Reported pl (call pl middle).0 status
        → Ends Reported pls state (status, (call pl middle).1)

  more :
      {Reported : P → Option Status → Option Status → Type 0} (pl : P) (pls : List P) (state : S)
      (end : Option Status × S)
      → is_success (call pl state).0 ≡ true
      → Ends Reported pls (call pl state).1 end
      → Ends Reported (pl ∷ pls) state end
  more pl pls state end ok (passed all) = passed (one_more ok all)
  more pl pls state end ok (stopped before after last status split all bad says) =
      stopped (pl ∷ before) after last status (ap (λ l. pl ∷ l) split) (one_more ok all) bad says

  pub run_each-Ends :
      (Reported : P → Option Status → Option Status → Type 0)
      (failed : P → Option Status → Option Status)
      → ((pl : P) (s : Option Status) → is_success s ≡ false → Reported pl s (failed pl s))
      → (pls : List P) (state : S) → Ends Reported pls state (run_each call failed pls state)
  unfolding run_each
  run_each-Ends Reported failed says [] state = passed no_plugin
  run_each-Ends Reported failed says (pl ∷ pls) state =
      let rest = run_each-Ends Reported failed says pls (call pl state).1 in
      elim (Bool-cases (is_success (call pl state).0)) [
        | inl good ↦ rw (good, run_each) (more pl pls state _ good rest)
        | inr bad ↦ rw (bad, run_each) (stopped [] pls pl _ refl no_plugin bad (says pl _ bad))
      ]

-- What RunPreFilterPlugins returns for the status of a plugin that failed: the status itself, if this is
-- Unschedulable or UnschedulableAndUnresolvable, and an Error otherwise.
abbrev pub PreFilterReport : Option Status → Option Status → Type 0
PreFilterReport failed returned =
    ((get_code failed ≡ Code.unschedulable) × (returned ≡ failed))
    ⊎ ((get_code failed ≡ Code.unschedulable_and_unresolvable) × (returned ≡ failed))
    ⊎ ((get_code failed ≢ Code.unschedulable)
        × (get_code failed ≢ Code.unschedulable_and_unresolvable)
        × (get_code returned ≡ Code.error))

code_cases :
    (c : Code)
    → (c ≡ Code.unschedulable)
      ⊎ (c ≡ Code.unschedulable_and_unresolvable)
      ⊎ ((c ≢ Code.unschedulable)
          × (c ≢ Code.unschedulable_and_unresolvable)
          × (code_is_unschedulable c ≡ false))
code_cases Code.unschedulable = inl refl
code_cases Code.unschedulable_and_unresolvable = inr (inl refl)
code_cases Code.success = inr (inr ((λ e. cc), (λ e. cc), refl))
code_cases Code.error = inr (inr ((λ e. cc), (λ e. cc), refl))
code_cases Code.wait = inr (inr ((λ e. cc), (λ e. cc), refl))
code_cases Code.skip = inr (inr ((λ e. cc), (λ e. cc), refl))

pre_filter_failed-PreFilterReport :
    {S : Type 0} (pod : Pod) (pl : PreFilterPlugin S) (status : Option Status)
    → PreFilterReport status (pre_filter_failed pod pl status)
unfolding pre_filter_failed is_unschedulable get_code new_status
pre_filter_failed-PreFilterReport pod pl status = elim (code_cases (get_code status)) [
  | inl e ↦ inl (e, rw (pre_filter_failed, e) refl)
  | inr (inl e) ↦ inr (inl (e, rw (pre_filter_failed, e) refl))
  | inr (inr (plain, resolvable, e)) ↦ inr (inr (plain, resolvable, rw (pre_filter_failed, e) refl))
]

module _ {S : Type 0} (f : FrameworkImpl S) (pod : Pod) where
  -- RunPreFilterPlugins calls the plugins in their order, each on what the one before left. It returns
  -- nil if all of them succeed. If not, it stops at the first that fails. What it returns then is the
  -- status of that plugin, if its code is Unschedulable or UnschedulableAndUnresolvable, and otherwise a
  -- status with the code Error.
  pub run_pre_filter-Ends :
      (state : S)
      → Ends
          (λ pl s. pl.pre_filter s pod)
          (λ pl. PreFilterReport)
          f.pre_filter_plugins
          state
          (run_pre_filter_plugins f pod state)
  unfolding run_pre_filter_plugins
  run_pre_filter-Ends state =
      run_each-Ends (λ pl s. pl.pre_filter s pod) (λ pl. PreFilterReport) (pre_filter_failed pod)
        (λ pl status bad. pre_filter_failed-PreFilterReport pod pl status) f.pre_filter_plugins
        state
