-- ===== src/Scheduler/Framework/Setup/Total.antt =====
-- The check of NewFramework in scheduler/framework/runtime/framework.go that the weighted scores of a node
-- cannot overflow.
use cloud_prophet.Prelude.{
  ◌≡◌, refl, sym, ap, ◌∙◌, ℕ, zero, suc, ◌+◌, ◌-◌, ◌*◌, ◌^◌, ◌≤◌, ◌<◌, String, some, List, [], ◌∷◌,
  inl, inr, Bool-cases, Option-cases, Result, value, error, OnValue, no_value, has_value,
  OnValue-and_then, OnValue-if, OnValue-both, OnValue-map, none, ◌≢◌, ◌⊎◌, string_eq, ◌===◌, arith,
}
use cloud_prophet.Prelude.Int.{
  ℤ, pos, negsuc, pos_part, wrap64, wrap64-pos, ltb_ℤ, ◌-ℤ◌, ◌*ℤ◌, *ℤ-pos, +ℤ-pos, -ℤ-pos,
}
use cloud_prophet.Prelude.Map.{Map, lookup, insert, lookup-insert}
use cloud_prophet.Scheduler.Framework.Scoring.{max_node_score, max_total_score, weight_of}
use cloud_prophet.Scheduler.Framework.Scoring.Weighted.{SoundWeights}
use cloud_prophet.Scheduler.Framework.Setup.{
  PluginRef, Made, weight_or_one, note_plugin, make_plugins,
}

-- The sum of the weights, times 100.
abbrev pub worth : Map String ℤ → ℕ
worth [] = 0
worth ((_, w) ∷ m) = 100 * pos_part w + worth m

-- What holds of the plugins that are made so far.
pub record IsMade {P : Type 0} (m : Made P) : Type 0 where
  pub weights_sound : SoundWeights m.weights
  pub total : ℕ
  pub total_exact : m.total_priority ≡ pos total
  pub total_small : total < 2 ^ 63
  pub worth_total : worth m.weights ≤ total

-- Configured weights: int32 numbers that are not negative.
abbrev pub SoundRefs : Map String PluginRef → Type 0
SoundRefs needed =
    (k : String) (pg : PluginRef)
    → lookup k needed ≡ some pg
    → (n : ℕ) × (pg.weight ≡ pos n) × (n < 2 ^ 31)

worth-insert :
    (k : String) (n : ℕ) (m : Map String ℤ) → worth (insert k (pos n) m) ≤ 100 * n + worth m
unfolding insert
worth-insert k n [] = omega arith
worth-insert k n ((j, w) ∷ m) = ground (arith, worth-insert k n m)

weight_or_one-pos : (n : ℕ) → n < 2 ^ 31 → (w : ℕ) × (weight_or_one (pos n) ≡ pos w) × (w < 2 ^ 31)
weight_or_one-pos zero h = (1, refl, omega arith)
weight_or_one-pos (suc n) h = (suc n, ground arith, h)

worth_of : (w : ℕ) → w < 2 ^ 31 → wrap64 (pos w *ℤ max_node_score) ≡ pos (w * 100)
worth_of w h = ap wrap64 (*ℤ-pos w 100) ∙ wrap64-pos (w * 100) (omega arith)

room : (t : ℕ) → t < 2 ^ 63 → wrap64 (max_total_score -ℤ pos t) ≡ pos (2 ^ 63 - 1 - t)
room t h =
    ap wrap64 (-ℤ-pos (2 ^ 63 - 1) t (omega arith)) ∙ wrap64-pos (2 ^ 63 - 1 - t) (omega arith)

insert-SoundWeights :
    (name : String) (w : ℕ) (m : Map String ℤ)
    → w < 2 ^ 31
    → SoundWeights m
    → SoundWeights (insert name (pos w) m)
insert-SoundWeights name w m h sound k =
    let (n, e, small) = sound k in
    elim (Bool-cases (name === k)) [
      | inl same ↦ (w, rw (weight_of, lookup-insert name k (pos w) m, same) refl, h)
      | inr other ↦ (n, rw (weight_of, lookup-insert name k (pos w) m, other) e, small)
    ]

note_plugin-IsMade :
    {P : Type 0} (name : String) (n : ℕ) (p : P) (m : Made P)
    → n < 2 ^ 31
    → IsMade m
    → OnValue IsMade (note_plugin name (pos n) p m)
unfolding note_plugin
note_plugin-IsMade name n p m small made =
    let (w, e, w_small) = weight_or_one-pos n small in
    let t = made.total in
    rw (note_plugin, e, made.total_exact, worth_of w w_small, room t made.total_small)
      (OnValue-if (ltb_ℤ (pos (2 ^ 63 - 1 - t)) (pos (w * 100))) (λ over. no_value)
        λ fits. has_value (record {
          weights_sound = insert-SoundWeights name w m.weights w_small made.weights_sound;
          total = t + w * 100;
          total_exact = ap wrap64 (+ℤ-pos t (w * 100)) ∙ wrap64-pos (t + w * 100) (ground arith);
          total_small = ground arith;
          worth_total = omega (arith, worth-insert name w m.weights, made.worth_total);
        }))

any_result : {P : Type 0} (r : Result String P) → OnValue (λ _. Unit {0}) r
any_result (error e) = no_value
any_result (value v) = has_value tt

-- A name of the registry.
pub data Registered (k : String) : List String → Type 0 where
  first_name : {names : List String} → Registered k (k ∷ names)
  later_name :
      {name : String} {names : List String} → Registered k names → Registered k (name ∷ names)

-- What a configured weight becomes: 0 becomes 1, every other one stays.
abbrev pub BecomesWeight : ℤ → ℤ → Type 0
BecomesWeight configured w =
    ((configured ≡ pos 0) × (w ≡ pos 1)) ⊎ ((configured ≢ pos 0) × (w ≡ configured))

-- Every plugin that is in the registry and configured has its weight.
abbrev pub AllWeighed : Map String PluginRef → List String → Map String ℤ → Type 0
AllWeighed needed names weights =
    (k : String) (pg : PluginRef)
    → Registered k names
    → lookup k needed ≡ some pg
    → (w : ℤ) × (lookup k weights ≡ some w) × BecomesWeight pg.weight w

ref_inj : {a b : PluginRef} → some a ≡ some b → a ≡ b
ref_inj e = cc

Registered-none {ℓ} : {A : Type ℓ} {k : String} → Registered k [] → A
Registered-none r = elim r [ ]

Registered-cases :
    {k name : String} {names : List String}
    → Registered k (name ∷ names)
    → (name ≡ k) ⊎ Registered k names
Registered-cases first_name = inl refl
Registered-cases (later_name r) = inr r

weight_or_one-BecomesWeight : (w : ℤ) → BecomesWeight w (weight_or_one w)
weight_or_one-BecomesWeight (pos zero) = inl (refl, refl)
weight_or_one-BecomesWeight (pos (suc n)) = inr ((λ e. ground arith), ground arith)
weight_or_one-BecomesWeight (negsuc n) = inr ((λ e. cc), ground arith)

abbrev AtWeight : String → PluginRef → Map String ℤ → Type 0
AtWeight k pg weights = lookup k weights ≡ some (weight_or_one pg.weight)

-- From the weights before the loop to those after it.
abbrev Weighs : Map String PluginRef → List String → Map String ℤ → Map String ℤ → Type 0
Weighs needed names before after =
    (k : String) (pg : PluginRef)
    → lookup k needed ≡ some pg
    → (Registered k names → AtWeight k pg after) × (AtWeight k pg before → AtWeight k pg after)

Weighs-skip :
    (needed : Map String PluginRef) (name : String) (names : List String)
    (before after : Map String ℤ)
    → lookup name needed ≡ none
    → Weighs needed names before after
    → Weighs needed (name ∷ names) before after
Weighs-skip needed name names before after absent rest k pg there = (
  λ registered. elim (Registered-cases registered) [
    | inl same ↦ absurd (cc)
    | inr later ↦ (rest k pg there).0 later
  ],
  (rest k pg there).1,
)

Weighs-insert :
    (needed : Map String PluginRef) (name : String) (pg' : PluginRef) (names : List String)
    (before after : Map String ℤ)
    → lookup name needed ≡ some pg'
    → Weighs needed names (insert name (weight_or_one pg'.weight) before) after
    → Weighs needed (name ∷ names) before after
Weighs-insert needed name pg' names before after is rest k pg there =
    let w = weight_or_one pg'.weight in
    let (listed, kept) = rest k pg there in
    let found = lookup-insert name k w before in
    elim (Bool-cases (name === k)) [
      | inl same ↦
          let name_is : name ≡ k = (string_eq.beq_iff name k).0 same in
          let refs : some pg' ≡ some pg = sym is ∙ ap (λ x. lookup x needed) name_is ∙ there in
          let at : AtWeight k pg (insert name w before) =
            found ∙ rw same (ap (λ p. some (weight_or_one p.weight)) (ref_inj refs)) in
          ((λ registered. kept at), λ was. kept at)
      | inr other ↦ (
        λ registered. elim (Registered-cases registered) [
          | inl e ↦ (let yes = (string_eq.beq_iff name k).1 e in absurd (cc))
          | inr later ↦ listed later
        ],
        λ was. kept (found ∙ rw other was),
      )
    ]

note_plugin-weights :
    {P : Type 0} (name : String) (weight : ℤ) (p : P) (m : Made P)
    → OnValue
        (λ m'. m'.weights ≡ insert name (weight_or_one weight) m.weights)
        (note_plugin name weight p m)
unfolding note_plugin
note_plugin-weights name weight p m =
    OnValue-if
      (ltb_ℤ (wrap64 (max_total_score -ℤ m.total_priority))
        (wrap64 (weight_or_one weight *ℤ max_node_score)))
      (λ over. no_value) λ fits. has_value refl

make_plugins-Weighs :
    {P : Type 0} (make : String → Result String P) (needed : Map String PluginRef)
    (names : List String) (m : Made P)
    → OnValue (λ m'. Weighs needed names m.weights m'.weights) (make_plugins make needed names m)
unfolding make_plugins
make_plugins-Weighs make needed [] m =
    has_value (λ k pg there. ((λ r. Registered-none r), λ at. at))
make_plugins-Weighs make needed (name ∷ names) m = elim (Option-cases (lookup name needed)) [
  | inl e ↦
      rw (e, make_plugins)
        (OnValue-map (make_plugins-Weighs make needed names m)
          λ m' rest. Weighs-skip needed name names m.weights m'.weights e rest)
  | inr (pg, e) ↦
      rw (e, make_plugins)
        (OnValue-and_then {Q = λ _. Unit} (any_result (make name)) λ p _.
          OnValue-and_then (note_plugin-weights name pg.weight p m) λ m1 noted.
            OnValue-map (make_plugins-Weighs make needed names m1) λ m' rest.
              Weighs-insert needed name pg names m.weights m'.weights e (rw noted at rest))
]

made-IsMade :
    {P : Type 0} (make : String → Result String P) (needed : Map String PluginRef)
    (names : List String) (m : Made P)
    → SoundRefs needed
    → IsMade m
    → OnValue IsMade (make_plugins make needed names m)
unfolding make_plugins
made-IsMade make needed [] m sound made = has_value made
made-IsMade make needed (name ∷ names) m sound made = elim (Option-cases (lookup name needed)) [
  | inl e ↦ rw (e, make_plugins) (made-IsMade make needed names m sound made)
  | inr (pg, e) ↦
      let (n, weight, small) = sound name pg e in
      rw (e, weight, make_plugins)
        (OnValue-and_then {Q = λ _. Unit} (any_result (make name)) λ p _.
          OnValue-and_then (note_plugin-IsMade name n p m small made)
            λ m' made'. made-IsMade make needed names m' sound made')
]

-- As long as the configured weights are int32 numbers that are not negative, the loop of NewFramework
-- over the registry either returns an error or gives each plugin that is configured its weight, where 0
-- becomes 1. A node that gets the greatest score from every plugin has a total of at most
-- math.MaxInt64 then: the running total that the loop checks never wraps around itself.
pub make_plugins-IsMade :
    {P : Type 0} (make : String → Result String P) (needed : Map String PluginRef)
    (names : List String) (m : Made P)
    → SoundRefs needed
    → IsMade m
    → OnValue
        (λ m'. IsMade m' × AllWeighed needed names m'.weights)
        (make_plugins make needed names m)
make_plugins-IsMade make needed names m sound made =
    OnValue-both (made-IsMade make needed names m sound made) (
      OnValue-map (make_plugins-Weighs make needed names m) λ m' weighs k pg registered there. (
        weight_or_one pg.weight,
        (weighs k pg there).0 registered,
        weight_or_one-BecomesWeight pg.weight,
      ))
