-- ===== src/Scheduler/Framework/Status/Merge.antt =====
-- What Merge of scheduler/framework/v1alpha1/interface.go gives, in whatever order `range` reads the
-- map.
use cloud_prophet.Prelude.{
  ◌≡◌, refl, ap, ◌∙◌, sym, String, Bool, true, false, ◌&&◌, ◌||◌, Option, none, some, List, [], ◌∷◌,
  ◌++◌, if◌then◌else◌, is_empty, append_assoc, append-nil, Returns, returns, Returns-map,
  Returns-bind, arith,
}
use mathlib.Core.List.{Permᴰ}
use mathlib.Core.List.Permᴰ
use cloud_prophet.Scheduler.Framework.Status.{
  Code, Status, PluginToStatus, new_status, get_code, Merging, note_status, merge_loop, final_code,
  start_merging, merge, is_success, code_is_success,
}

-- The codes that a failed filter may have.
abbrev pub is_failure : Code → Bool
is_failure Code.error = true
is_failure Code.unschedulable = true
is_failure Code.unschedulable_and_unresolvable = true
is_failure _ = false

abbrev is_error : Code → Bool
is_error Code.error = true
is_error _ = false

abbrev is_unresolvable : Code → Bool
is_unresolvable Code.unschedulable_and_unresolvable = true
is_unresolvable _ = false

abbrev is_plain : Code → Bool
is_plain Code.unschedulable = true
is_plain _ = false

abbrev pub entry_failed : String × Option Status → Bool
entry_failed (_, none) = false
entry_failed (_, some s) = is_failure s.code

abbrev pub all_failed : PluginToStatus → Bool
all_failed [] = true
all_failed (x ∷ p) = entry_failed x && all_failed p

abbrev entry_has : (Code → Bool) → String × Option Status → Bool
entry_has test (_, none) = false
entry_has test (_, some s) = test s.code

abbrev any_has : (Code → Bool) → PluginToStatus → Bool
any_has test [] = false
any_has test (x ∷ p) = entry_has test x || any_has test p

abbrev pub get_reasons : Option Status → List String
get_reasons none = []
get_reasons (some s) = s.reasons

-- The most severe code of the map, on no order.
abbrev pub worst : PluginToStatus → Code
worst p =
    if any_has is_error p
    then Code.error
    else if any_has is_unresolvable p
    then Code.unschedulable_and_unresolvable
    else if any_has is_plain p
    then Code.unschedulable
    else Code.success

abbrev pub entry_reasons : String × Option Status → List String
entry_reasons (_, none) = []
entry_reasons (_, some s) = s.reasons

abbrev pub all_reasons : PluginToStatus → List String
all_reasons [] = []
all_reasons (x ∷ p) = entry_reasons x ++ all_reasons p

abbrev final_of : Bool → Bool → Bool → Code → Code
final_of e u n c =
    if e
    then Code.error
    else if u
    then Code.unschedulable_and_unresolvable
    else if n
    then Code.unschedulable
    else c

note_status-final :
    (m : Merging) (s : Status) (e u n : Bool)
    → is_failure s.code ≡ true
    → let r = note_status m s in
      final_of (r.has_error || e) (r.has_unresolvable || u) (r.has_unschedulable || n) r.code
      ≡ final_of
          (m.has_error || (is_error s.code || e))
          (m.has_unresolvable || (is_unresolvable s.code || u))
          (m.has_unschedulable || (is_plain s.code || n))
          m.code
unfolding note_status
note_status-final m s e u n failed = ground arith

note_status-reasons :
    (m : Merging) (s : Status) → (note_status m s).reasons ≡ m.reasons ++ s.reasons
unfolding note_status
note_status-reasons m s = ground arith

abbrev Noted : Merging → PluginToStatus → Merging → Type 0
Noted m p r =
    (final_code r
      ≡ final_of (m.has_error || any_has is_error p)
          (m.has_unresolvable || any_has is_unresolvable p)
          (m.has_unschedulable || any_has is_plain p) m.code)
    × (r.reasons ≡ m.reasons ++ all_reasons p)

merge_loop-Noted :
    (m : Merging) (p : PluginToStatus) → all_failed p ≡ true → Returns (Noted m p) (merge_loop m p)
unfolding merge_loop final_code
merge_loop-Noted m [] failed = returns (ground arith, sym (append-nil m.reasons))
merge_loop-Noted m ((k, none) ∷ p) failed = absurd (cc)
merge_loop-Noted m ((k, some s) ∷ p) failed =
    Returns-map (merge_loop-Noted (note_status m s) p (ground arith)) λ r (code, reasons). (
      code ∙ note_status-final m s _ _ _ (ground arith),
      reasons
          ∙ ap (λ l. l ++ all_reasons p) (note_status-reasons m s)
          ∙ append_assoc m.reasons s.reasons (all_reasons p),
    )

abbrev Merged : PluginToStatus → Option Status → Type 0
Merged p s = (get_code s ≡ worst p) × (get_reasons s ≡ all_reasons p)

merge-Merged : (p : PluginToStatus) → all_failed p ≡ true → Returns (Merged p) (merge p)
unfolding merge get_code new_status
merge-Merged [] failed = returns (refl, refl)
merge-Merged (x ∷ p) failed =
    Returns-bind (merge_loop-Noted start_merging (x ∷ p) failed) λ r noted. returns noted

module _ (test : Code → Bool) where
  any_has-Permᴰ : {p q : PluginToStatus} → Permᴰ p q → any_has test p ≡ any_has test q
  any_has-Permᴰ Permᴰ.nil = refl
  any_has-Permᴰ (Permᴰ.cons {l₁ = p} {l₂ = q} e rest) = rw (e, any_has-Permᴰ rest) refl
  any_has-Permᴰ (Permᴰ.swap {a = a} {b = b} {l = l} e f) = rw (sym e, sym f) (ground arith)
  any_has-Permᴰ (Permᴰ.trans a b) = any_has-Permᴰ a ∙ any_has-Permᴰ b

all_failed-Permᴰ : {p q : PluginToStatus} → Permᴰ p q → all_failed p ≡ all_failed q
all_failed-Permᴰ Permᴰ.nil = refl
all_failed-Permᴰ (Permᴰ.cons e rest) = rw (e, all_failed-Permᴰ rest) refl
all_failed-Permᴰ (Permᴰ.swap {a = a} {b = b} {l = l} e f) = rw (sym e, sym f) (ground arith)
all_failed-Permᴰ (Permᴰ.trans a b) = all_failed-Permᴰ a ∙ all_failed-Permᴰ b

worst-Permᴰ : {p q : PluginToStatus} → Permᴰ p q → worst p ≡ worst q
worst-Permᴰ e =
    rw (any_has-Permᴰ is_error e, any_has-Permᴰ is_unresolvable e, any_has-Permᴰ is_plain e) refl

all_reasons-Permᴰ : {p q : PluginToStatus} → Permᴰ p q → Permᴰ (all_reasons p) (all_reasons q)
all_reasons-Permᴰ Permᴰ.nil = Permᴰ.nil
all_reasons-Permᴰ (Permᴰ.cons {b = b} e rest) =
    rw e (Permᴰ.append_left (entry_reasons b) (all_reasons-Permᴰ rest))
all_reasons-Permᴰ (Permᴰ.swap {a = a} {b = b} {l = l} e f) =
    rw
      (
        sym e,
        sym f,
        sym (append_assoc (entry_reasons a) (entry_reasons b) (all_reasons l)),
        sym (append_assoc (entry_reasons b) (entry_reasons a) (all_reasons l)),
      )
      (Permᴰ.append_right (all_reasons l) (Permᴰ.append_comm (entry_reasons a) (entry_reasons b)))
all_reasons-Permᴰ (Permᴰ.trans a b) = Permᴰ.trans (all_reasons-Permᴰ a) (all_reasons-Permᴰ b)

-- Two merged statuses that agree but for the order of the reasons.
pub record SameStatus (r s : Option Status) : Type 0 where
  pub same_code : get_code r ≡ get_code s
  pub same_reasons : Permᴰ (get_reasons r) (get_reasons s)

-- Of a map with failed statuses only, Merge gives the same code in whatever order the map is read, that
-- of the most severe status: Error, then UnschedulableAndUnresolvable, then Unschedulable. The reasons
-- are the same up to their order.
pub merge_perm :
    (p q : PluginToStatus)
    → all_failed p ≡ true
    → Permᴰ p q
    → Returns (λ r. (get_code r ≡ worst p) × Returns (SameStatus r) (merge q)) (merge p)
merge_perm p q failed perm = Returns-map (merge-Merged p failed) λ r (code, reasons). (
  code,
  Returns-map (merge-Merged q (sym (all_failed-Permᴰ perm) ∙ failed)) λ s (code', reasons').
      record {
        same_code = code ∙ worst-Permᴰ perm ∙ sym code';
        same_reasons = rw (reasons, reasons') (all_reasons-Permᴰ perm);
      },
)

worst-success : (p : PluginToStatus) → all_failed p ≡ true → code_is_success (worst p) ≡ is_empty p
worst-success [] failed = refl
worst-success ((k, none) ∷ p) failed = absurd (cc)
worst-success ((k, some s) ∷ p) failed = ground arith

-- A merged map of failures is a success only if the map is empty.
pub merge-failure :
    (p : PluginToStatus) → all_failed p ≡ true → Returns (λ s. is_success s ≡ is_empty p) (merge p)
unfolding is_success
merge-failure p failed =
    Returns-map (merge-Merged p failed) λ s (code, _). rw code (worst-success p failed)
