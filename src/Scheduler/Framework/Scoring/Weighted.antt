-- ===== src/Scheduler/Framework/Scoring/Weighted.antt =====
-- RunScorePlugins of scheduler/framework/runtime/framework.go: every list of scores that it returns belongs
-- to a plugin and stays within the weight of that plugin.
use cloud_prophet.Prelude.{
  ◌≡◌, refl, sym, ap, ◌∙◌, ℕ, zero, suc, ◌*◌, ◌^◌, ◌<◌, String, Bool, true, false, ◌⊎◌, inl, inr,
  Option, some, List, [], ◌∷◌, if◌then◌else◌, Bool-cases, Option-cases, Result, OnValue, no_value,
  has_value, OnValue-and_then, string_eq, ◌===◌, beq_refl, length, length-set, arith,
}
use cloud_prophet.Prelude.Int.{ℤ, pos, pos_part}
use cloud_prophet.Prelude.Map.{
  Map, lookup, insert, lookup-insert, IsUnique, unique_nil, insert-IsUnique,
}
use cloud_prophet.Scheduler.Pod.{Pod}
use cloud_prophet.Scheduler.Node.{Node}
use cloud_prophet.Scheduler.Framework.Status.{Status, is_success}
use cloud_prophet.Scheduler.Framework.Plugins.{NodeScoreList, ScorePlugin, FrameworkImpl}
use cloud_prophet.Scheduler.Framework.Scoring.{
  PluginToNodeScores, weight_of, scores_of, start_scores, score_node, score_nodes, normalize_all,
  apply_weights, run_score_plugins, then_scores, zero_scores, overwrite,
}
use cloud_prophet.Scheduler.Framework.Scoring.Bounds.{AllWithin, weigh-Weighed}

-- The weights as int32 numbers that are not negative.
abbrev pub SoundWeights : Map String ℤ → Type 0
SoundWeights weights = (k : String) → (n : ℕ) × (weight_of k weights ≡ pos n) × (n < 2 ^ 31)

-- 100 times the weight of a plugin.
abbrev pub cap : Map String ℤ → String → ℕ
cap weights k = 100 * pos_part (weight_of k weights)

-- What holds of the map that RunScorePlugins returns.
pub record IsWeighted (weights : Map String ℤ) (n : ℕ) (m : PluginToNodeScores) : Type 0 where
  pub keys_unique : IsUnique m
  pub scores_within :
      (k : String) (l : NodeScoreList) → lookup k m ≡ some l → AllWithin (cap weights k) l
  pub scores_length : (k : String) (l : NodeScoreList) → lookup k m ≡ some l → length l ≡ n

zero_scores-length : (n : ℕ) → length (zero_scores n) ≡ n
unfolding zero_scores
zero_scores-length zero = refl
zero_scores-length (suc n) = ap suc (zero_scores-length n)

length-overwrite : (old new : NodeScoreList) → length (overwrite old new) ≡ length old
unfolding overwrite
length-overwrite [] new = refl
length-overwrite (s ∷ ss) [] = refl
length-overwrite (s ∷ ss) (t ∷ ts) = ap suc (length-overwrite ss ts)

some_inj : {a b : NodeScoreList} → some a ≡ some b → a ≡ b
some_inj e = cc

OnValue-then_scores :
    {Q R : PluginToNodeScores → Type 0} (what : String) (pod : Pod)
    {call : Result String PluginToNodeScores}
    {next : PluginToNodeScores → Result (Option Status) PluginToNodeScores}
    → OnValue Q call
    → ((m : PluginToNodeScores) → Q m → OnValue R (next m))
    → OnValue R (then_scores what pod call next)
OnValue-then_scores what pod no_value go = no_value
OnValue-then_scores what pod (has_value {v = m} holds) go = go m holds

module _ {S : Type 0} where
  abbrev pub is_named : String → List (ScorePlugin S) → Bool
  is_named k [] = false
  is_named k (pl ∷ pls) = if pl.name === k then true else is_named k pls

  -- Each name has a list of `n` scores.
  abbrev pub Sized : List (ScorePlugin S) → ℕ → PluginToNodeScores → Type 0
  Sized all n m = (k : String) → is_named k all ≡ true → length (scores_of k m) ≡ n

  -- Each key of the map is among the names, and has one entry.
  abbrev Named : List (ScorePlugin S) → ℕ → PluginToNodeScores → Type 0
  Named all n m =
      IsUnique m
      × ((k : String) (l : NodeScoreList) → lookup k m ≡ some l → is_named k all ≡ true)
      × Sized all n m

  insert-Sized :
      (all : List (ScorePlugin S)) (n : ℕ) (k : String) (l : NodeScoreList) (m : PluginToNodeScores)
      → length l ≡ n
      → Sized all n m
      → Sized all n (insert k l m)
  insert-Sized all n k l m size sized j named = elim (Bool-cases (k === j)) [
    | inl same ↦ rw (scores_of, lookup-insert k j l m, same) size
    | inr other ↦ rw (scores_of, lookup-insert k j l m, other) (sized j named)
  ]

  insert-Named :
      (all : List (ScorePlugin S)) (n : ℕ) (k : String) (l : NodeScoreList) (m : PluginToNodeScores)
      → is_named k all ≡ true
      → length l ≡ n
      → Named all n m
      → Named all n (insert k l m)
  insert-Named all n k l m named size (unique, keys, sized) = (
    insert-IsUnique k l unique,
    λ j i e. ground (arith, lookup-insert k j l m, string_eq.beq_iff k j, keys j i),
    insert-Sized all n k l m size sized,
  )

  data AllIn (all : List (ScorePlugin S)) : List (ScorePlugin S) → Type 0 where
    in_nil : AllIn all []
    in_cons :
        {pl : ScorePlugin S} {pls : List (ScorePlugin S)}
        → is_named pl.name all ≡ true
        → AllIn all pls
        → AllIn all (pl ∷ pls)

  module _ (state : S) (pod : Pod) (all : List (ScorePlugin S)) (n : ℕ) where
    score_node-Named :
        {pls : List (ScorePlugin S)} (node_name : String) (index : ℕ) (m : PluginToNodeScores)
        → AllIn all pls
        → Named all n m
        → OnValue (Named all n) (score_node state pod node_name index pls m)
    unfolding score_node
    score_node-Named node_name index m in_nil named = has_value named
    score_node-Named node_name index m (in_cons {pl = pl} {pls = pls} h ins) named =
        let rest = score_node-Named node_name index _ ins (
          insert-Named all n pl.name _ m h
            (length-set (scores_of pl.name m) index _ ∙ named.2 pl.name h) named) in
        elim (Bool-cases (is_success (pl.score state pod node_name).1)) [
          | inl good ↦ rw (good, score_node) rest
          | inr bad ↦ rw (bad, score_node) no_value
        ]

    score_nodes-Named :
        {pls : List (ScorePlugin S)}
        → AllIn all pls
        → (index : ℕ) (nodes : List Node) (m : PluginToNodeScores) → Named all n m
        → OnValue (Named all n) (score_nodes state pod pls index nodes m)
    unfolding score_nodes
    score_nodes-Named ins index [] m named = has_value named
    score_nodes-Named {pls} ins index (node ∷ nodes) m named =
        OnValue-and_then (score_node-Named node.name index m ins named)
          (score_nodes-Named ins (suc index) nodes)

    normalize_all-Named :
        {pls : List (ScorePlugin S)} (m : PluginToNodeScores)
        → AllIn all pls
        → Named all n m
        → OnValue (Named all n) (normalize_all state pod pls m)
    unfolding normalize_all
    normalize_all-Named m in_nil named = has_value named
    normalize_all-Named m (in_cons {pl = pl} {pls = pls} h ins) named =
        elim (Option-cases pl.normalize_score) [
          | inl e ↦ rw (e, normalize_all) (normalize_all-Named m ins named)
          | inr (normalize, e) ↦
              let rest = normalize_all-Named _ ins (
                insert-Named all n pl.name _ m h
                  (length-overwrite (scores_of pl.name m) _ ∙ named.2 pl.name h) named) in
              elim (Bool-cases (is_success (normalize state pod (scores_of pl.name m)).0)) [
                | inl good ↦ rw (e, good, normalize_all) rest
                | inr bad ↦ rw (e, bad, normalize_all) no_value
              ]
        ]

  -- Each list is within its cap, or its plugin is still to come.
  abbrev Left : Map String ℤ → List (ScorePlugin S) → PluginToNodeScores → Type 0
  Left weights pls m =
      (k : String) (l : NodeScoreList)
      → lookup k m ≡ some l
      → AllWithin (cap weights k) l ⊎ (is_named k pls ≡ true)

  insert-Left :
      (weights : Map String ℤ) (pl : ScorePlugin S) (pls : List (ScorePlugin S)) (l : NodeScoreList)
      (m : PluginToNodeScores)
      → AllWithin (cap weights pl.name) l
      → Left weights (pl ∷ pls) m
      → Left weights pls (insert pl.name l m)
  insert-Left weights pl pls l m within left k i e = elim (Bool-cases (pl.name === k)) [
    | inl same ↦
        let at : some l ≡ some i = ground (arith, lookup-insert pl.name k l m) in
        inl (rw (sym ((string_eq.beq_iff pl.name k).0 same), sym (some_inj at)) within)
    | inr other ↦ ground (arith, lookup-insert pl.name k l m, left k i)
  ]

  apply_weights-Weighted :
      (show_int : ℤ → String) (weights : Map String ℤ) (all : List (ScorePlugin S)) (n : ℕ)
      → SoundWeights weights
      → {pls : List (ScorePlugin S)} (m : PluginToNodeScores) → AllIn all pls
      → Named all n m
      → Left weights pls m
      → OnValue
          (λ m'. IsWeighted weights n m' × Sized all n m')
          (apply_weights show_int weights pls m)
  unfolding apply_weights
  apply_weights-Weighted show weights all n sound m in_nil (unique, keys, sized) left = has_value (
    record {
      keys_unique = unique;
      scores_within = λ k l e. elim (left k l e) [ inl within ↦ within | inr never ↦ absurd (cc) ];
      scores_length = λ k l e. rw (e, scores_of) at (sized k (keys k l e));
    },
    sized,
  )
  apply_weights-Weighted show weights all n sound m (in_cons {pl = pl} {pls = pls} h ins) named
        left =
      let (w, e, small) = sound pl.name in
      OnValue-and_then (rw (sym e) at (weigh-Weighed show pl.name w (scores_of pl.name m) small))
        λ scores (within, size).
          apply_weights-Weighted show weights all n sound (insert pl.name scores m) ins
            (insert-Named all n pl.name scores m h (size ∙ named.2 pl.name h) named)
            (insert-Left weights pl pls scores m (rw e within) left)

  AllIn-cons :
      {all pls : List (ScorePlugin S)} (pl : ScorePlugin S) → AllIn all pls → AllIn (pl ∷ all) pls
  AllIn-cons pl in_nil = in_nil
  AllIn-cons pl (in_cons h ins) = in_cons (ground arith) (AllIn-cons pl ins)

  AllIn-self : (all : List (ScorePlugin S)) → AllIn all all
  AllIn-self [] = in_nil
  AllIn-self (pl ∷ pls) = in_cons (rw (beq_refl pl.name) refl) (AllIn-cons pl (AllIn-self pls))

  start_scores-keys :
      (all : List (ScorePlugin S)) {pls : List (ScorePlugin S)} (n : ℕ)
      → AllIn all pls
      → IsUnique (start_scores pls n)
        × ((k : String) (l : NodeScoreList)
            → lookup k (start_scores pls n) ≡ some l
            → is_named k all ≡ true)
  unfolding start_scores lookup
  start_scores-keys all n in_nil = (unique_nil, λ k l e. absurd (cc))
  start_scores-keys all n (in_cons {pl = pl} {pls = pls} h ins) =
      let (unique, keys) = start_scores-keys all n ins in
      (
        insert-IsUnique pl.name _ unique,
        λ j i e. ground (
          arith,
          lookup-insert pl.name j (zero_scores n) (start_scores pls n),
          string_eq.beq_iff pl.name j,
          keys j i,
        ),
      )

  start_scores-Sized : (pls : List (ScorePlugin S)) (n : ℕ) → Sized pls n (start_scores pls n)
  unfolding start_scores
  start_scores-Sized [] n k named = absurd (cc)
  start_scores-Sized (pl ∷ pls) n k named = elim (Bool-cases (pl.name === k)) [
    | inl same ↦
        rw (scores_of, lookup-insert pl.name k (zero_scores n) (start_scores pls n), same)
          (zero_scores-length n)
    | inr other ↦
        rw (scores_of, lookup-insert pl.name k (zero_scores n) (start_scores pls n), other)
          (start_scores-Sized pls n k (rw other at named))
  ]

  -- If RunScorePlugins returns scores, and the weights are int32 numbers that are not negative, then the list
  -- under the name of each score plugin has a score for each node, no name stands twice in the map, and each
  -- score is between 0 and 100 times the weight of the plugin: none of the products has wrapped around,
  -- whatever the plugins return.
  pub run_score_plugins-IsWeighted :
      (show_int : ℤ → String) (f : FrameworkImpl S) (state : S) (pod : Pod) (nodes : List Node)
      → SoundWeights f.plugin_name_to_weight_map
      → OnValue
          (λ m.
            IsWeighted f.plugin_name_to_weight_map (length nodes) m
            × Sized f.score_plugins (length nodes) m)
          (run_score_plugins show_int f state pod nodes)
  unfolding run_score_plugins
  run_score_plugins-IsWeighted show f state pod nodes sound =
      let all = f.score_plugins in
      let n = length nodes in
      let ins = AllIn-self all in
      let (unique, keys) = start_scores-keys all n ins in
      let start : Named all n (start_scores all n) = (unique, keys, start_scores-Sized all n) in
      OnValue-then_scores _ pod (score_nodes-Named state pod all n ins 0 nodes _ start)
        λ scored named.
          OnValue-then_scores _ pod (normalize_all-Named state pod all n scored ins named)
            λ normalized named'.
              OnValue-then_scores _ pod
                (apply_weights-Weighted show f.plugin_name_to_weight_map all n sound normalized ins
                  named' (λ k l e. inr (named'.1 k l e)))
                λ weighted holds. has_value holds
