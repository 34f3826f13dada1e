-- ===== src/Scheduler/Framework/Status.antt =====
-- scheduler/framework/v1alpha1/interface.go: the results of plugins. A `*Status` is an
-- `Option Status`, with `none` for nil.
pub mod Merge
use cloud_prophet.Prelude.{
  String, Bool, true, false, ◌||◌, Option, none, some, List, [], ◌∷◌, ◌++◌, if◌then◌else◌, Run, ok,
  panic, ◌>>=◌,
}
use Prim.Native.String.{◌++◌ as ◌++s◌}
use cloud_prophet.Prelude.Map.{Map}

pub data Code : Type 0 where
  success error unschedulable unschedulable_and_unresolvable wait skip : Code

pub record Status : Type 0 where
  pub code : Code
  pub reasons : List String

abbrev pub PluginToStatus : Type 0
PluginToStatus = Map String (Option Status)

abbrev pub NodeToStatusMap : Type 0
NodeToStatusMap = Map String (Option Status)

unfoldable pub new_status : Code → List String → Option Status
new_status code reasons = some (record { code = code; reasons = reasons })

unfoldable pub get_code : Option Status → Code
get_code none = Code.success
get_code (some s) = s.code

-- strings.Join with ", ".
join : List String → String
join [] = ""
join (r ∷ []) = r
join (r ∷ r' ∷ rs) = r ++s ", " ++s join (r' ∷ rs)

unfoldable pub message : Option Status → String
unfolding join
message none = ""
message (some s) = join s.reasons

abbrev pub code_is_success : Code → Bool
code_is_success Code.success = true
code_is_success _ = false

abbrev pub code_is_unschedulable : Code → Bool
code_is_unschedulable Code.unschedulable = true
code_is_unschedulable Code.unschedulable_and_unresolvable = true
code_is_unschedulable _ = false

unfoldable pub is_success : Option Status → Bool
unfolding get_code
is_success s = code_is_success (get_code s)

unfoldable pub is_unschedulable : Option Status → Bool
unfolding get_code
is_unschedulable s = code_is_unschedulable (get_code s)

-- `none` is the nil error.
unfoldable pub as_error : Option Status → Option String
unfolding is_success message
as_error s = if is_success s then none else some (message s)

-- The variables of the loop of Merge.
pub record Merging : Type 0 where
  pub has_error : Bool
  pub has_unresolvable : Bool
  pub has_unschedulable : Bool
  pub code : Code
  pub reasons : List String

-- One turn of the loop, for a status that is not nil.
unfoldable pub note_status : Merging → Status → Merging
note_status m s =
    let next = record m { code = s.code; reasons = m.reasons ++ s.reasons } in
    elim (s.code) as (λ _. Merging) [
      | Code.error ↦ record next { has_error = true }
      | Code.unschedulable_and_unresolvable ↦ record next { has_unresolvable = true }
      | Code.unschedulable ↦ record next { has_unschedulable = true }
      | _ ↦ next
    ]

-- `s.reasons` panics on a nil status.
unfoldable pub merge_loop : Merging → PluginToStatus → Run Merging
unfolding note_status
merge_loop m [] = ok m
merge_loop m ((_, none) ∷ p) = panic
merge_loop m ((_, some s) ∷ p) = merge_loop (note_status m s) p

unfoldable pub final_code : Merging → Code
final_code m =
    if m.has_error
    then Code.error
    else if m.has_unresolvable
    then Code.unschedulable_and_unresolvable
    else if m.has_unschedulable
    then Code.unschedulable
    else m.code

abbrev pub start_merging : Merging
start_merging = record {
  has_error = false;
  has_unresolvable = false;
  has_unschedulable = false;
  code = Code.success;
  reasons = [];
}

unfoldable pub merge : PluginToStatus → Run (Option Status)
unfolding merge_loop final_code new_status
merge [] = ok none
merge (s ∷ p) = merge_loop start_merging (s ∷ p) >>= λ m. ok (new_status (final_code m) m.reasons)
