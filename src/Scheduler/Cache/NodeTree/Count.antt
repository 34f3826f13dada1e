-- ===== src/Scheduler/Cache/NodeTree/Count.antt =====
-- How often a name stands in a slice.
use cloud_prophet.Prelude.{
  ℕ, zero, suc, ◌+◌, ◌-◌, ◌<◌, ◌≤◌, ◌≡◌, refl, String, true, false, some, List, [], ◌∷◌, ◌++◌,
  arith, if◌then◌else◌, length, get_elem?, string_eq, ◌===◌, beq_refl, Bool-cases, inl, inr,
}
use cloud_prophet.Scheduler.Cache.NodeTree.{has_node, remove_first}

unfoldable pub count : String → List String → ℕ
count n [] = 0
count n (m ∷ ms) = (if m === n then 1 else 0) + count n ms

abbrev pub drop : ℕ → List String → List String
drop zero xs = xs
drop (suc k) [] = []
drop (suc k) (x ∷ xs) = drop k xs

pub count-nil : (n : String) → count n [] ≡ 0
unfolding count
count-nil n = refl

pub count-append :
    (n m : String) (xs : List String)
    → count n (xs ++ m ∷ []) ≡ count n xs + (if m === n then 1 else 0)
unfolding count
count-append n m [] = omega arith
count-append n m (x ∷ xs) = omega (arith, count-append n m xs)

pub count-has_node : (n : String) (xs : List String) → has_node n xs ≡ false → count n xs ≡ 0
unfolding count has_node
count-has_node n [] e = refl
count-has_node n (x ∷ xs) e = ground (arith, count-has_node n xs)

pub has_node-count : (n : String) (xs : List String) → has_node n xs ≡ true → 0 < count n xs
unfolding count has_node
has_node-count n [] e = absurd (cc)
has_node-count n (x ∷ xs) e = ground (arith, has_node-count n xs)

-- Removing the first of the elements that are `n`, if there is one.
pub count-remove_first :
    (n m : String) (xs : List String)
    → 0 < count n xs
    → count m (remove_first n xs) + (if n === m then 1 else 0) ≡ count m xs
unfolding count remove_first
count-remove_first n m [] p = absurd (omega arith)
count-remove_first n m (x ∷ xs) p = ground (
  arith,
  count-remove_first n m xs,
  string_eq.beq_iff x n,
  string_eq.beq_iff x m,
  string_eq.beq_iff n m,
)

pub length-remove_first :
    (n : String) (xs : List String) → 0 < count n xs → length (remove_first n xs) + 1 ≡ length xs
unfolding count remove_first
length-remove_first n [] p = absurd (omega arith)
length-remove_first n (x ∷ xs) p = ground (arith, length-remove_first n xs)

-- The element at an index is the first of the rest from there.
pub count-drop :
    (n x : String) (xs : List String) (i : ℕ)
    → get_elem? xs i ≡ some x
    → count n (drop i xs) ≡ (if x === n then 1 else 0) + count n (drop (suc i) xs)
unfolding count
count-drop n x [] i e = absurd (cc)
count-drop n x (y ∷ ys) zero e = let same : y ≡ x = cc in rw same
count-drop n x (y ∷ ys) (suc i) e = count-drop n x ys i e

pub count-get_elem? :
    (x : String) (xs : List String) (i : ℕ) → get_elem? xs i ≡ some x → 0 < count x xs
unfolding count
count-get_elem? x [] i e = absurd (cc)
count-get_elem? x (y ∷ ys) zero e = let same : y ≡ x = cc in ground (arith, same, beq_refl x)
count-get_elem? x (y ∷ ys) (suc i) e = omega (arith, count-get_elem? x ys i e)

-- An element that stands in the slice has an index.
pub index_of :
    (x : String) (xs : List String) → 0 < count x xs → (i : ℕ) × (get_elem? xs i ≡ some x)
unfolding count
index_of x [] p = absurd (omega arith)
index_of x (y ∷ ys) p = elim (Bool-cases (y === x)) [
  | inl here ↦ (0, let same : y ≡ x = (string_eq.beq_iff y x).0 here in rw same)
  | inr there ↦ let (i, e) = index_of x ys (ground (arith, there, p)) in (suc i, e)
]

pub length-drop : (i : ℕ) (xs : List String) → length (drop i xs) ≡ length xs - i
length-drop zero xs = omega arith
length-drop (suc i) [] = omega arith
length-drop (suc i) (x ∷ xs) = omega (arith, length-drop i xs)

pub count-drop_le : (n : String) (i : ℕ) (xs : List String) → count n (drop i xs) ≤ count n xs
unfolding count
count-drop_le n zero xs = omega arith
count-drop_le n (suc i) [] = omega arith
count-drop_le n (suc i) (x ∷ xs) = omega (arith, count-drop_le n i xs)

pub count-cons :
    (n m : String) (xs : List String) → count n (m ∷ xs) ≡ (if m === n then 1 else 0) + count n xs
unfolding count
count-cons n m xs = refl

pub count-length : (n : String) (xs : List String) → count n xs ≤ length xs
unfolding count
count-length n [] = omega arith
count-length n (x ∷ xs) = ground (arith, count-length n xs)
