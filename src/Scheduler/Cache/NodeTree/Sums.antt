-- ===== src/Scheduler/Cache/NodeTree/Sums.antt =====
-- Sums over the arrays of a node tree.
use cloud_prophet.Prelude.{
  ℕ, ◌+◌, ◌<◌, ◌≡◌, refl, String, none, some, List, [], ◌∷◌, arith, string_eq, ◌===◌, Bool-cases,
  inl, inr, ◌⊎◌, zero, suc, beq_refl,
}
use cloud_prophet.Prelude.Map.{
  Map, lookup, insert, IsUnique, unique_nil, unique_cons, delete-absent,
}
use cloud_prophet.Prelude.Map
use cloud_prophet.Scheduler.Cache.NodeTree.{NodeArray}

unfoldable pub sum_by : (NodeArray → ℕ) → List (String × NodeArray) → ℕ
sum_by f [] = 0
sum_by f ((z, na) ∷ m) = f na + sum_by f m

pub sum_by-insert_new :
    (f : NodeArray → ℕ) (z : String) (b : NodeArray) (m : List (String × NodeArray))
    → lookup z m ≡ none
    → sum_by f (insert z b m) ≡ sum_by f m + f b
unfolding sum_by lookup insert
sum_by-insert_new f z b [] e = omega arith
sum_by-insert_new f z b ((y, c) ∷ m) e = ground (arith, sum_by-insert_new f z b m)

pub sum_by-insert_old :
    (f : NodeArray → ℕ) (z : String) (a b : NodeArray) (m : List (String × NodeArray))
    → lookup z m ≡ some a
    → sum_by f (insert z b m) + f a ≡ sum_by f m + f b
unfolding sum_by lookup insert
sum_by-insert_old f z a b [] e = absurd (cc)
sum_by-insert_old f z a b ((y, c) ∷ m) e = elim (Bool-cases (y === z)) [
  | inl here ↦ let same : c ≡ a = ground (arith, here, e) in rw (here, same) (omega arith)
  | inr there ↦
      let later : lookup z m ≡ some a = ground (arith, there, e) in
      rw there (omega (arith, sum_by-insert_old f z a b m later))
]

pub sum_by-delete :
    (f : NodeArray → ℕ) (z : String) (a : NodeArray) {m : List (String × NodeArray)}
    → IsUnique m
    → lookup z m ≡ some a
    → sum_by f (Map.delete z m) + f a ≡ sum_by f m
unfolding sum_by lookup Map.delete
sum_by-delete f z a unique_nil e = absurd (cc)
sum_by-delete f z a (unique_cons {k = y} {v = c} {m = m} n u) e = elim (Bool-cases (y === z)) [
  | inl here ↦
      let same : c ≡ a = ground (arith, here, e) in
      let gone : Map.delete z m ≡ m =
        delete-absent z m (rw ((string_eq.beq_iff y z).0 here) at n) in
      rw (here, same, gone) (omega arith)
  | inr there ↦
      let later : lookup z m ≡ some a = ground (arith, there, e) in
      rw there (omega (arith, sum_by-delete f z a u later))
]

lt_cases : (n : ℕ) → (0 < n) ⊎ (n ≡ 0)
lt_cases zero = inr refl
lt_cases (suc n) = inl (omega arith)

-- A sum that is not zero has a summand that is not.
pub sum_by_pos :
    (f : NodeArray → ℕ) {m : List (String × NodeArray)}
    → IsUnique m
    → 0 < sum_by f m
    → (z : String) × (a : NodeArray) × (lookup z m ≡ some a) × (0 < f a)
unfolding sum_by lookup
sum_by_pos f unique_nil p = absurd (omega arith)
sum_by_pos f (unique_cons {k = y} {v = c} {m = m} n u) p = elim (lt_cases (f c)) [
  | inl here ↦ (y, c, rw beq_refl, here)
  | inr zero_here ↦
      let (z, a, e, q) = sum_by_pos f u (omega arith) in
      (z, a, ground (arith, n, e, string_eq.beq_iff y z), q)
]
