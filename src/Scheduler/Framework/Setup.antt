-- ===== src/Scheduler/Framework/Setup.antt =====
-- NewFramework of scheduler/framework/runtime/framework.go: the plugins and their weights from the
-- configuration and the registry. The factories, which make the plugins, are arguments.
pub mod Total
use cloud_prophet.Prelude.{
  ℕ, ◌^◌, ◌-◌, String, Bool, true, false, Option, none, some, List, [], ◌∷◌, ◌++◌, if◌then◌else◌,
  string_eq, ◌===◌, Result, value, error, and_then, length,
}
use Prim.Native.String.{◌++◌ as ◌++s◌}
use cloud_prophet.Prelude.Int.{ℤ, pos, wrap64, ltb_ℤ, eqb_ℤ, ◌+ℤ◌, ◌-ℤ◌, ◌*ℤ◌}
use cloud_prophet.Prelude.Map.{Map, lookup, insert}
use cloud_prophet.Scheduler.Framework.Runtime.{quote}
use cloud_prophet.Scheduler.Framework.Scoring.{max_node_score, max_total_score}

-- config.Plugin.
pub record PluginRef : Type 0 where
  pub name : String
  pub weight : ℤ

-- The enabled plugins of a config.PluginSet; `none` is nil.
abbrev pub PluginSet : Type 0
PluginSet = Option (List PluginRef)

note_enabled : List PluginRef → Map String PluginRef → Map String PluginRef
note_enabled [] m = m
note_enabled (pg ∷ pgs) m = note_enabled pgs (insert pg.name pg m)

-- pluginsNeeded, over the sets of the extension points in their order.
unfoldable pub plugins_needed : List PluginSet → Map String PluginRef → Map String PluginRef
unfolding note_enabled
plugins_needed [] m = m
plugins_needed (none ∷ sets) m = plugins_needed sets m
plugins_needed (some pgs ∷ sets) m = plugins_needed sets (note_enabled pgs m)

-- The map of the plugins' arguments, of type `A`.
unfoldable pub plugin_config {ℓ} :
    {A : Type ℓ} → List (String × A) → Map String A → Result String (Map String A)
plugin_config [] m = value m
plugin_config {A = A} ((name, args) ∷ rest) m =
    let next = plugin_config rest (insert name args m) in
    elim (lookup name m) as (λ _. Result String (Map String A)) [
      | some _ ↦ error ("repeated config for plugin " ++s name)
      | none ↦ next
    ]

-- What the loop over the registry has made: the plugins, of type `P`, the weights and their total.
pub record Made {ℓ} (P : Type ℓ) : Type ℓ where
  pub plugins : Map String P
  pub weights : Map String ℤ
  pub total_priority : ℤ

-- A weight of zero becomes one.
abbrev pub weight_or_one : ℤ → ℤ
weight_or_one w = if eqb_ℤ w (pos 0) then pos 1 else w

-- A plugin that the factory has made, with its weight.
unfoldable pub note_plugin {ℓ} : {P : Type ℓ} → String → ℤ → P → Made P → Result String (Made P)
note_plugin name weight p m =
    let w = weight_or_one weight in
    let worth = wrap64 (w *ℤ max_node_score) in
    if ltb_ℤ (wrap64 (max_total_score -ℤ m.total_priority)) worth
    then error "total score of Score plugins could overflow"
    else value (record {
      plugins = insert name p m.plugins;
      weights = insert name w m.weights;
      total_priority = wrap64 (m.total_priority +ℤ worth);
    })

-- The loop over the registry. `make` gets the arguments of the plugin and calls its factory.
unfoldable pub make_plugins {ℓ} :
    {P : Type ℓ}
    → (String → Result String P)
    → Map String PluginRef
    → List String
    → Made P
    → Result String (Made P)
unfolding note_plugin
make_plugins make needed [] m = value m
make_plugins {P = P} make needed (name ∷ names) m =
    elim (lookup name needed) as (λ _. Result String (Made P)) [
      | none ↦ make_plugins make needed names m
      | some pg ↦
          and_then (make name)
            λ p. and_then (note_plugin name pg.weight p m) (make_plugins make needed names)
    ]

has : String → List String → Bool
has name [] = false
has name (s ∷ set) = if s === name then true else has name set

-- The loop of updatePluginList for an extension point: `as_plugin` is the assertion of the interface.
unfoldable pub update_plugin_list {ℓ κ} :
    {P : Type ℓ} {Q : Type κ}
    → String
    → (P → Option Q)
    → Map String P
    → List PluginRef
    → List String
    → List Q
    → Result String (List Q)
unfolding has
update_plugin_list kind as_plugin plugins [] set list = value list
update_plugin_list {Q = Q} kind as_plugin plugins (ep ∷ enabled) set list =
    let name = ep.name in
    elim (lookup name plugins) as (λ _. Result String (List Q)) [
      | none ↦ error (kind ++s " " ++s quote name ++s " does not exist")
      | some p ↦ elim (as_plugin p) as (λ _. Result String (List Q)) [
        | none ↦ error ("plugin " ++s quote name ++s " does not extend " ++s kind ++s " plugin")
        | some q ↦
            let rest =
              update_plugin_list kind as_plugin plugins enabled (name ∷ set) (list ++ q ∷ []) in
            if has name set
            then error ("plugin " ++s quote name ++s " already registered as " ++s quote kind)
            else rest
      ]
    ]

-- A set that is nil leaves the list as it is.
unfoldable pub update_plugins {ℓ κ} :
    {P : Type ℓ} {Q : Type κ}
    → String
    → (P → Option Q)
    → Map String P
    → PluginSet
    → Result String (List Q)
unfolding update_plugin_list
update_plugins kind as_plugin plugins none = value []
update_plugins kind as_plugin plugins (some enabled) =
    update_plugin_list kind as_plugin plugins enabled [] []
