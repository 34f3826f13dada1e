-- ===== src/Scheduler/NodeInfo/SwapOut.antt =====
-- How RemovePod of scheduler/framework/v1alpha1/types.go cuts a pod out of the list of pods.
use cloud_prophet.Prelude.{
  ◌≡◌, refl, sym, ap, ◌∙◌, subst, ℕ, zero, suc, ◌-◌, String, Option, none, some, List, [], ◌∷◌,
  get_elem?, set, take, length, if◌then◌else◌, string_eq, ◌===◌, inl, inr, Bool-cases, Result,
  value, error, arith,
}
use mathlib.Core.List.{Permᴰ}
use mathlib.Core.List.Permᴰ
use cloud_prophet.Scheduler.Pod.{Pod, PodKeyError, get_pod_key}
use cloud_prophet.Scheduler.NodeInfo.{find_key, swap_out}

abbrev last : Pod → List Pod → Pod
last x [] = x
last x (y ∷ rest) = last y rest

abbrev init : Pod → List Pod → List Pod
init x [] = []
init x (y ∷ rest) = x ∷ init y rest

get_elem?-last :
    (x : Pod) (rest : List Pod) → get_elem? (x ∷ rest) (length rest) ≡ some (last x rest)
get_elem?-last x [] = refl
get_elem?-last x (y ∷ rest) = get_elem?-last y rest

take-init : (x : Pod) (rest : List Pod) → take (length rest) (x ∷ rest) ≡ init x rest
take-init x [] = refl
take-init x (y ∷ rest) = ap (λ l. x ∷ l) (take-init y rest)

last-Perm : (x : Pod) (rest : List Pod) → Permᴰ (x ∷ rest) (last x rest ∷ init x rest)
last-Perm x [] = Permᴰ.refl _
last-Perm x (y ∷ rest) = Permᴰ.trans (Permᴰ.cons refl (last-Perm y rest)) (Permᴰ.swap refl refl)

-- swap_out, with the index of the last element and what stands there.
abbrev cut : List Pod → ℕ → ℕ → Option Pod → List Pod
cut xs i n o = take n (elim o as (λ _. List Pod) [ none ↦ xs | some l ↦ set xs i l ])

swap_out-cut :
    (x : Pod) (rest : List Pod) (i : ℕ)
    → swap_out (x ∷ rest) i ≡ cut (x ∷ rest) i (length rest) (some (last x rest))
unfolding swap_out
swap_out-cut x rest i =
    let size : length (x ∷ rest) - 1 ≡ length rest = omega arith in
    ap (λ n. cut (x ∷ rest) i n (get_elem? (x ∷ rest) n)) size
    ∙ ap (cut (x ∷ rest) i (length rest)) (get_elem?-last x rest)

swap_out-zero :
    (x y : Pod) (rest : List Pod) → swap_out (x ∷ y ∷ rest) 0 ≡ last y rest ∷ init y rest
swap_out-zero x y rest = swap_out-cut x (y ∷ rest) 0 ∙ ap (λ l. last y rest ∷ l) (take-init y rest)

swap_out-suc :
    (x y : Pod) (rest : List Pod) (j : ℕ)
    → swap_out (x ∷ y ∷ rest) (suc j) ≡ x ∷ swap_out (y ∷ rest) j
swap_out-suc x y rest j =
    swap_out-cut x (y ∷ rest) (suc j) ∙ ap (λ l. x ∷ l) (sym (swap_out-cut y rest j))

some_inj : {a b : Pod} → some a ≡ some b → a ≡ b
some_inj e = cc

pub swap_out-Perm :
    (xs : List Pod) (i : ℕ) (p : Pod) → get_elem? xs i ≡ some p → Permᴰ xs (p ∷ swap_out xs i)
unfolding swap_out
swap_out-Perm [] i p e = absurd (cc)
swap_out-Perm (x ∷ []) zero p e = Permᴰ.cons (some_inj e) Permᴰ.nil
swap_out-Perm (x ∷ []) (suc i) p e = absurd (cc)
swap_out-Perm (x ∷ y ∷ rest) zero p e =
    rw (swap_out-zero x y rest) (Permᴰ.cons (some_inj e) (last-Perm y rest))
swap_out-Perm (x ∷ y ∷ rest) (suc j) p e =
    rw (swap_out-suc x y rest j)
      (Permᴰ.trans (Permᴰ.cons refl (swap_out-Perm (y ∷ rest) j p e)) (Permᴰ.swap refl refl))

index_inj : {a b : ℕ} → some a ≡ some b → a ≡ b
index_inj e = cc

abbrev later : Option ℕ → Option ℕ
later o = elim o as (λ _. Option ℕ) [ none ↦ none | some i ↦ some (suc i) ]

abbrev Found : String → List Pod → ℕ → Type 0
Found k ps i = (p : Pod) × (get_elem? ps i ≡ some p) × (get_pod_key p ≡ value k)

later-Found :
    (k : String) (p : Pod) (ps : List Pod) (i : ℕ) (found : Option ℕ)
    → ((j : ℕ) → found ≡ some j → Found k ps j)
    → later found ≡ some i
    → Found k (p ∷ ps) i
later-Found k p ps i none rest e = absurd (cc)
later-Found k p ps zero (some j) rest e = absurd (zero_suc j (index_inj e))
  where
    zero_suc : (j : ℕ) → suc j ≡ zero → ⊥
    zero_suc j e = ground arith
later-Found k p ps (suc i) (some j) rest e =
    let same : j ≡ i = omega (arith, index_inj e) in rest i (ap (λ n. some n) same)

key-Found :
    (k : String) (p : Pod) (ps : List Pod) (i : ℕ) (key : Result PodKeyError String)
    (found : Option ℕ)
    → get_pod_key p ≡ key
    → ((j : ℕ) → found ≡ some j → Found k ps j)
    → (elim key as (λ _. Option ℕ) [
      | error err ↦ later found
      | value j ↦ if k === j then some 0 else later found
    ])
      ≡ some i
    → Found k (p ∷ ps) i
key-Found k p ps i (error err) found is rest e = later-Found k p ps i found rest e
key-Found k p ps i (value j) found is rest e = elim (Bool-cases (k === j)) [
  | inl same ↦
      let here : some 0 ≡ some i = rw same at e in
      let key_is : k ≡ j = (string_eq.beq_iff k j).0 same in
      subst (Found k (p ∷ ps)) (index_inj here) (p, refl, is ∙ ap (λ s. value s) (sym key_is))
  | inr other ↦
      let further : later found ≡ some i = rw other at e in later-Found k p ps i found rest further
]

-- What find_key finds is the index of a pod with the key.
pub find_key-Found : (k : String) (ps : List Pod) (i : ℕ) → find_key k ps ≡ some i → Found k ps i
unfolding find_key
find_key-Found k [] i e = absurd (cc)
find_key-Found k (p ∷ ps) i e =
    key-Found k p ps i (get_pod_key p) (find_key k ps) refl (find_key-Found k ps) e

-- One pod with the key is gone from the list, and the others stay.
abbrev pub LosesPod : String → List Pod → List Pod → Type 0
LosesPod k before after = (p : Pod) × (get_pod_key p ≡ value k) × Permᴰ before (p ∷ after)

pub swap_out-LosesPod :
    (k : String) (ps : List Pod) (i : ℕ) → find_key k ps ≡ some i → LosesPod k ps (swap_out ps i)
swap_out-LosesPod k ps i e =
    let (p, at, key) = find_key-Found k ps i e in (p, key, swap_out-Perm ps i p at)
