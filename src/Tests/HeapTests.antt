-- ===== src/Tests/HeapTests.antt =====
-- A heap of two objects under scheduler/internal/heap/heap.go.
use cloud_prophet.Prelude.{
  ℕ, zero, suc, ◌<◌, ◌≡◌, refl, subst, String, Bool, false, Bool-cases, inl, inr, eq_of_beq, ◌>>=◌,
  none, some, [], ◌∷◌, arith, ltb, if◌then◌else◌, get_elem?, string_eq, ◌===◌, ok, Returns, Result,
  value, error,
}
use cloud_prophet.Prelude.Int.{pos}
use cloud_prophet.Prelude.Map.{lookup, insert}
use cloud_prophet.Prelude.Map
use cloud_prophet.Scheduler.Heap.{Heap, add, delete, pop, get_by_key, len, object_not_found}
use cloud_prophet.Scheduler.Heap.Container.{fix, parent}
use cloud_prophet.Scheduler.Heap.Container
use cloud_prophet.Scheduler.Heap.Storage
use cloud_prophet.Scheduler.Heap.Storage.Laws.{IsStrictWeak, content, index_in, before}
use cloud_prophet.Scheduler.Heap.Spec.{IsValid, Added, Removed, Pops, Peeks}
use cloud_prophet.Scheduler.Heap.Spec

abbrev Entry : Type 0
Entry = String × ℕ

-- The key is the name; an empty name has none.
abbrev key_func : Entry → Result String String
key_func e = if e.0 === "" then error "no name" else value (e.0)

abbrev less : Entry → Entry → Bool
less a b = ltb a.1 b.1

less-IsStrictWeak : IsStrictWeak less
less-IsStrictWeak = record { asym = λ a b e. ground arith; trans = λ a b c d e. ground arith }

abbrev entry : String → ℕ → Entry
entry s n = (s, n)

abbrev two : Heap Entry
two = record {
  store = record {
    items =
        ("a", record { obj = entry "a" 5; index = 0 })
        ∷ ("b", record { obj = entry "b" 7; index = 1 })
        ∷ [];
    queue = "a" ∷ "b" ∷ [];
  };
  metric_recorder = some (pos 2);
}

first : {a b : String} → some a ≡ some b → a ≡ b
first e = cc

two-indexed :
    (k : String) (i : ℕ)
    → get_elem? two.store.queue i ≡ some k
    → index_in (lookup k two.store.items) ≡ some i
unfolding lookup
two-indexed k zero e = subst (λ x. index_in (lookup x two.store.items) ≡ some 0) (first e) refl
two-indexed k (suc zero) e =
    subst (λ x. index_in (lookup x two.store.items) ≡ some 1) (first e) refl
two-indexed k (suc (suc i)) e = absurd (cc)

two-ordered :
    (c : ℕ) → 0 < c → c < Storage.len two.store → before less two.store c (parent c) ≡ false
unfolding lookup content Storage.len
two-ordered zero p q = absurd (omega arith)
two-ordered (suc zero) p q = refl
two-ordered (suc (suc c)) p q = absurd (omega arith)

two-keyed : (k : String) (o : Entry) → content two.store k ≡ some o → key_func o ≡ value k
unfolding lookup content
two-keyed k o e = elim (Bool-cases ("a" === k)) [
  | inl a ↦
      subst (λ x. key_func o ≡ value x) (eq_of_beq "a" k a)
        (let same : entry "a" 5 ≡ o = ground (arith, a, e) in
          subst (λ x. key_func x ≡ value "a") same refl)
  | inr na ↦ elim (Bool-cases ("b" === k)) [
    | inl b ↦
        subst (λ x. key_func o ≡ value x) (eq_of_beq "b" k b)
          (let same : entry "b" 7 ≡ o = ground (arith, na, b, e) in
            subst (λ x. key_func x ≡ value "b") same refl)
    | inr nb ↦ absurd (ground (arith, na, nb, e))
  ]
]

two-IsValid : IsValid key_func less two
unfolding lookup Storage.len
two-IsValid = record {
  consistent = record {
    indexed = two-indexed;
    queued = λ k i e. ground (arith, string_eq.beq_iff "a" k, string_eq.beq_iff "b" k, e);
  };
  ordered = two-ordered;
  keyed = two-keyed;
  gauged = λ n e. ground (arith, e);
}

-- A key that is there is replaced and sifted to the root; a new one is pushed.
add_runs :
    (add key_func less two (entry "b" 1)
      ≡ ok (
        record two {
          store = record {
            items =
                ("a", record { obj = entry "a" 5; index = 1 })
                ∷ ("b", record { obj = entry "b" 1; index = 0 })
                ∷ [];
            queue = "b" ∷ "a" ∷ [];
          };
        },
        none,
      ))
    × ((add key_func less two (entry "c" 6) >>= λ (h, _). ok h.store.queue)
        ≡ ok ("a" ∷ "b" ∷ "c" ∷ []))
unfolding add lookup insert Container.push fix Storage.len Storage.less Storage.swap Storage.push
    Container.down_loop Container.down_step Container.up_loop
add_runs = (refl, refl)

pop_run : (pop key_func less two >>= λ (_, r). ok r) ≡ ok (value (entry "a" 5))
unfolding pop Container.pop Container.down_loop Container.down_step Storage.len Storage.swap
    Storage.less Storage.pop lookup insert Map.delete
pop_run = refl

add-Added_example :
    Returns
      (λ (h', e). (e ≡ none) × Added key_func less two "b" (entry "b" 1) h')
      (add key_func less two (entry "b" 1))
add-Added_example =
    Spec.add-Added key_func less less-IsStrictWeak two (entry "b" 1) "b" two-IsValid refl

pop-Pops_example : Returns (Pops key_func less less-IsStrictWeak two) (pop key_func less two)
unfolding len Storage.len
pop-Pops_example = Spec.pop-Pops key_func less less-IsStrictWeak two two-IsValid (omega arith)

delete-not_found_example : delete key_func less two (entry "z" 1) ≡ ok (two, some object_not_found)
unfolding get_by_key lookup
delete-not_found_example = Spec.delete-not_found key_func less two (entry "z" 1) "z" refl refl
