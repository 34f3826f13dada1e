-- ===== src/Scheduler/Framework/WaitingPods/Decision.antt =====
-- What scheduler/framework/runtime/waiting_pods_map.go promises: a waiting pod is decided once. It
-- is allowed when the last plugin allows it, unless a rejection came first.
use cloud_prophet.Prelude.{
  ◌≡◌, refl, ap, ◌∙◌, String, Bool, true, false, ◌&&◌, none, some, List, [], ◌∷◌, if◌then◌else◌,
  string_eq, ◌===◌, ◌==◌, length, arith,
}
use cloud_prophet.Prelude.Int.{ℤ}
use cloud_prophet.Prelude.Map.{Map, delete}
use cloud_prophet.Scheduler.Framework.Status.{new_status, is_success, get_code}
use cloud_prophet.Scheduler.Framework.WaitingPods.{
  Timer, WaitingPod, get_pending_plugins, send, allow, reject, expire, Event, allowed, rejected,
  expired, happen, happen_all,
}

pub data Decision : Type 0 where
  undecided : List String → Decision
  admitted refused : Decision

-- The names but one.
without : String → List String → List String
without p [] = []
without p (q ∷ qs) = if q === p then without p qs else q ∷ without p qs

left_or_admitted : List String → Decision
left_or_admitted [] = admitted
left_or_admitted (p ∷ ps) = undecided (p ∷ ps)

pub decide : Decision → Event → Decision
unfolding without left_or_admitted
decide (undecided ps) (allowed p) = left_or_admitted (without p ps)
decide (undecided ps) (rejected _) = refused
decide (undecided ps) (expired _ _) = refused
decide admitted _ = admitted
decide refused _ = refused

pub decide_all : Decision → List Event → Decision
unfolding decide
decide_all d [] = d
decide_all d (e ∷ es) = decide_all (decide d e) es

-- How a waiting pod stands: by the status in its channel, or by the plugins that are pending.
unfoldable pub view : WaitingPod → Decision
view w = elim (w.signal) as (λ _. Decision) [
  | none ↦ undecided (get_pending_plugins w.pending_plugins)
  | some s ↦ if is_success s then admitted else refused
]

get_pending_plugins-delete :
    (p : String) (m : Map String Timer)
    → get_pending_plugins (delete p m) ≡ without p (get_pending_plugins m)
unfolding get_pending_plugins delete without
get_pending_plugins-delete p [] = refl
get_pending_plugins-delete p ((q, t) ∷ m) = ground (arith, get_pending_plugins-delete p m)

left_or_admitted-length :
    (m : Map String Timer)
    → left_or_admitted (get_pending_plugins m)
      ≡ (if length m == 0 then admitted else undecided (get_pending_plugins m))
unfolding left_or_admitted get_pending_plugins
left_or_admitted-length [] = refl
left_or_admitted-length ((q, t) ∷ m) = ground arith

view-happen :
    (show_duration : ℤ → String) (w : WaitingPod) (e : Event)
    → view (happen show_duration w e) ≡ decide (view w) e
unfolding view happen decide allow reject expire send new_status is_success get_code
view-happen show w (allowed p) =
    let names = get_pending_plugins-delete p w.pending_plugins in
    let left = left_or_admitted-length (delete p w.pending_plugins) in ground (arith, names, left)
view-happen show w (rejected msg) = ground arith
view-happen show w (expired wait p) = ground arith

-- The calls and timers of a waiting pod do what the decision does: the channel and the pending plugins
-- stand, after any events in any order, for the decision that those events make, and a decision is
-- never taken back.
pub view-happen_all :
    (show_duration : ℤ → String) (w : WaitingPod) (es : List Event)
    → view (happen_all show_duration w es) ≡ decide_all (view w) es
unfolding happen_all decide_all
view-happen_all show w [] = refl
view-happen_all show w (e ∷ es) =
    view-happen_all show (happen show w e) es ∙ ap (λ d. decide_all d es) (view-happen show w e)

abbrev pub is_admitted : Decision → Bool
is_admitted admitted = true
is_admitted _ = false

-- The names allowed before anything else happens.
abbrev pub leading : List Event → List String
leading [] = []
leading (allowed p ∷ es) = p ∷ leading es
leading (_ ∷ es) = []

abbrev pub has_name : String → List String → Bool
has_name q [] = false
has_name q (p ∷ ps) = if q === p then true else has_name q ps

-- Each of the first names is among the second ones.
abbrev pub covers : List String → List String → Bool
covers [] ns = true
covers (q ∷ qs) ns = has_name q ns && covers qs ns

covers-cons : (p : String) (ps ns : List String) → covers ps (p ∷ ns) ≡ covers (without p ps) ns
unfolding without
covers-cons p [] ns = refl
covers-cons p (q ∷ qs) ns = ground (arith, covers-cons p qs ns)

decide_all-admitted : (es : List Event) → decide_all admitted es ≡ admitted
unfolding decide_all decide
decide_all-admitted [] = refl
decide_all-admitted (e ∷ es) = decide_all-admitted es

decide_all-refused : (es : List Event) → decide_all refused es ≡ refused
unfolding decide_all decide
decide_all-refused [] = refl
decide_all-refused (e ∷ es) = decide_all-refused es

decide_all-covers :
    (ps : List String) (es : List Event)
    → is_admitted (decide_all (left_or_admitted ps) es) ≡ covers ps (leading es)
unfolding decide_all decide left_or_admitted
decide_all-covers [] es = rw (decide_all-admitted es) refl
decide_all-covers (p ∷ ps) [] = refl
decide_all-covers (p ∷ ps) (rejected msg ∷ es) = rw (decide_all-refused es) refl
decide_all-covers (p ∷ ps) (expired wait q ∷ es) = rw (decide_all-refused es) refl
decide_all-covers (p ∷ ps) (allowed q ∷ es) =
    rw (covers-cons q (p ∷ ps) (leading es)) (decide_all-covers (without q (p ∷ ps)) es)

-- A pod that waits for at least one plugin, with nothing in its channel yet, ends admitted exactly when
-- each pending plugin allows it before any rejection and any timeout. No order of the plugins and no
-- later event matters.
pub happen_all-admitted :
    (show_duration : ℤ → String) (w : WaitingPod) (es : List Event) (p : String) (ps : List String)
    → w.signal ≡ none
    → get_pending_plugins w.pending_plugins ≡ p ∷ ps
    → is_admitted (view (happen_all show_duration w es)) ≡ covers (p ∷ ps) (leading es)
unfolding view left_or_admitted
happen_all-admitted show w es p ps empty pending =
    rw (view-happen_all show w es, view, empty, pending) (decide_all-covers (p ∷ ps) es)
