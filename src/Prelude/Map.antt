-- ===== src/Prelude/Map.antt =====
-- Go maps, as association lists. The order of the entries is the order in which `range` meets
-- them; theorems hold for every list, so for every order.
use cloud_prophet.Prelude.Tests.{if◌then◌else◌, Bool-cases}
use cloud_prophet.Prelude.Lists.{length, is_empty}
use cloud_prophet.Prelude.Keys.{Eq, ◌===◌, beq_refl}
use Prim.Native.Nat.{◌+◌}
use mathlib.Core.Path.{◌≡◌, refl}
use mathlib.Core.Logic.{inl, inr}
use mathlib.Core.Bool.{Bool, true, false, ◌&&◌}
use mathlib.Core.List.{List, [], ◌∷◌}
use mathlib.Core.Option.{Option, none, some}
use native.Mathlib.Omega.{arith}

abbrev pub Map {ℓ κ} : Type ℓ → Type κ → Type (ℓ ⊔ κ)
Map K V = List (K × V)

module _ {ℓ κ} {K : Type ℓ} {V : Type κ} ⦃e : Eq K⦄ where
  unfoldable pub lookup : K → List (K × V) → Option V
  lookup k [] = none
  lookup k ((j, v) ∷ m) = if j === k then some v else lookup k m

  unfoldable pub insert : K → V → List (K × V) → List (K × V)
  insert k v [] = (k, v) ∷ []
  insert k v ((j, w) ∷ m) = if j === k then (k, v) ∷ m else (j, w) ∷ insert k v m

  unfoldable pub delete : K → List (K × V) → List (K × V)
  delete k [] = []
  delete k ((j, v) ∷ m) = if j === k then delete k m else (j, v) ∷ delete k m

  pub lookup-insert :
      (k j : K) (v : V) (m : List (K × V))
      → lookup j (insert k v m) ≡ (if k === j then some v else lookup j m)
  unfolding lookup insert
  lookup-insert k j v [] = refl
  lookup-insert k j v ((i, w) ∷ m) =
      ground (arith, e.beq_iff k j, e.beq_iff i k, e.beq_iff i j, lookup-insert k j v m)

  pub lookup-delete :
      (k j : K) (m : List (K × V)) → lookup j (delete k m) ≡ (if k === j then none else lookup j m)
  unfolding lookup delete
  lookup-delete k j [] = ground arith
  lookup-delete k j ((i, w) ∷ m) =
      ground (arith, e.beq_iff k j, e.beq_iff i k, e.beq_iff i j, lookup-delete k j m)

  pub lookup-insert_self : (k : K) (v : V) (m : List (K × V)) → lookup k (insert k v m) ≡ some v
  lookup-insert_self k v m = simp (lookup-insert, beq_refl)

  pub lookup-delete_self : (k : K) (m : List (K × V)) → lookup k (delete k m) ≡ none
  lookup-delete_self k m = simp (lookup-delete, beq_refl)

  pub length-insert_new :
      (k : K) (v : V) (m : List (K × V)) → lookup k m ≡ none → length (insert k v m) ≡ length m + 1
  unfolding lookup insert
  length-insert_new k v [] h = refl
  length-insert_new k v ((j, w) ∷ m) h = ground (arith, length-insert_new k v m)

  pub length-insert_old :
      (k : K) (v w : V) (m : List (K × V)) → lookup k m ≡ some w → length (insert k v m) ≡ length m
  unfolding lookup insert
  length-insert_old k v w [] h = absurd (cc)
  length-insert_old k v w ((j, u) ∷ m) h = ground (arith, length-insert_old k v w m)

  -- No key has two entries.
  pub data IsUnique : List (K × V) → Type (ℓ ⊔ κ) where
    unique_nil : IsUnique []
    unique_cons :
        {k : K} {v : V} {m : List (K × V)} → lookup k m ≡ none → IsUnique m → IsUnique ((k, v) ∷ m)

  abbrev nil : List (K × V)
  nil = []

  lookup-nil : (k : K) → lookup k nil ≡ none
  unfolding lookup
  lookup-nil k = refl

  pub delete-absent : (k : K) (m : List (K × V)) → lookup k m ≡ none → delete k m ≡ m
  unfolding lookup delete
  delete-absent k [] h = refl
  delete-absent k ((j, v) ∷ m) h = ground (arith, delete-absent k m)

  pub insert-IsUnique : (k : K) (v : V) {m : List (K × V)} → IsUnique m → IsUnique (insert k v m)
  unfolding insert
  insert-IsUnique k v unique_nil = unique_cons (lookup-nil k) unique_nil
  insert-IsUnique k v (unique_cons {k = j} {v = w} {m = m} h u) =
      let rest = insert-IsUnique k v u in
      elim (Bool-cases (j === k)) [
        | inl same ↦ rw same (unique_cons (rw ((e.beq_iff j k).0 same) at h) u)
        | inr other ↦
            rw other (
              unique_cons (ground (arith, lookup-insert k j v m, e.beq_iff j k, e.beq_iff k j))
                rest)
      ]

  pub delete-IsUnique : (k : K) {m : List (K × V)} → IsUnique m → IsUnique (delete k m)
  unfolding delete
  delete-IsUnique k unique_nil = unique_nil
  delete-IsUnique k (unique_cons {k = j} {v = w} {m = m} h u) =
      let rest = delete-IsUnique k u in
      elim (Bool-cases (j === k)) [
        | inl same ↦ rw same rest
        | inr other ↦ rw other (unique_cons (ground (arith, lookup-delete k j m)) rest)
      ]

  pub length-delete :
      (k : K) (w : V) {m : List (K × V)}
      → IsUnique m
      → lookup k m ≡ some w
      → length (delete k m) + 1 ≡ length m
  unfolding lookup delete
  length-delete k w unique_nil h = absurd (cc)
  length-delete k w (unique_cons {k = j} {v = v} {m = m} n u) h =
      ground (arith, length-delete k w u, delete-absent k m, e.beq_iff j k)

  -- Every value passes the test.
  abbrev pub all_values : (V → Bool) → List (K × V) → Bool
  all_values test [] = true
  all_values test ((k, v) ∷ m) = test v && all_values test m

  pub all_values-insert :
      (test : V → Bool) (k : K) (v : V) (m : List (K × V))
      → test v ≡ true
      → all_values test m ≡ true
      → all_values test (insert k v m) ≡ true
  unfolding insert
  all_values-insert test k v [] h hs = ground arith
  all_values-insert test k v ((j, w) ∷ m) h hs = ground (arith, all_values-insert test k v m)

  pub is_empty-insert : (k : K) (v : V) (m : List (K × V)) → is_empty (insert k v m) ≡ false
  unfolding insert
  is_empty-insert k v [] = refl
  is_empty-insert k v ((j, w) ∷ m) = ground arith
