-- ===== src/Scheduler/Queue/PriorityQueue/MoveAll.antt =====
-- The moves of many pods: MoveAllToActiveOrBackoffQueue and flushUnschedulableQLeftover.
use cloud_prophet.Prelude.{
  ℕ, ◌+◌, ◌≡◌, refl, ◌∙◌, ap, inl, inr, String, Bool, true, false, ◌||◌, Option, none, some, List,
  [], ◌∷◌, map, arith, length, if◌then◌else◌, string_eq, ◌===◌, beq_refl, Returns, returns,
  Returns-bind, Returns-map, value, Bool-cases,
}
use cloud_prophet.Prelude.Int.{ℤ, ◌-ℤ◌, ltb_ℤ}
use cloud_prophet.Prelude.Map.{lookup, IsUnique, unique_nil, unique_cons}
use cloud_prophet.Scheduler.Pod.{Pod, QueuedPodInfo, get_pod_full_name}
use cloud_prophet.Scheduler.Queue.PriorityQueue.{
  PriorityQueue, QueueEnv, pod_info_key_func, move_each, broadcast,
  move_pods_to_active_or_backoff_queue, move_all_to_active_or_backoff_queue, stale,
  unschedulable_q_time_interval,
}
use cloud_prophet.Scheduler.Queue.PriorityQueue.Invariant.{EnvLaws, IsValid, waiting}
use cloud_prophet.Scheduler.Queue.PriorityQueue.Move.{InQueue, move_one-MovedOne, InQueue-moved}
use cloud_prophet.Scheduler.Queue.Backoff.{is_pod_backing_off}

-- Whether a pod of the list has the full name.
pub has_name : String → List QueuedPodInfo → Bool
has_name n [] = false
has_name n (info ∷ rest) = get_pod_full_name info.pod === n || has_name n rest

-- Distinct pods, each under its full name in the unschedulable queue `w`.
abbrev pub Movable : (String → Option QueuedPodInfo) → List QueuedPodInfo → Type 0
Movable w [] = Unit {0}
Movable w (info ∷ rest) =
    (w (get_pod_full_name info.pod) ≡ some info)
    × (has_name (get_pod_full_name info.pod) rest ≡ false)
    × Movable w rest

Movable-keep :
    (n : String) (w w' : String → Option QueuedPodInfo) (infos : List QueuedPodInfo)
    → ((m : String) → w' m ≡ (if n === m then none else w m))
    → has_name n infos ≡ false
    → Movable w infos
    → Movable w' infos
unfolding has_name
Movable-keep n w w' [] e h m = tt
Movable-keep n w w' (info ∷ rest) e h m = (
  ground (
    arith,
    e (get_pod_full_name info.pod),
    m.0,
    h,
    string_eq.beq_iff n (get_pod_full_name info.pod),
    string_eq.beq_iff (get_pod_full_name info.pod) n,
  ),
  m.1,
  Movable-keep n w w' rest e (ground (arith, h)) m.2,
)

module _ (env : QueueEnv) (Named : Pod → Type 0) (laws : EnvLaws env Named) where
  -- Every pod of the list has a place in the active or the backoff queue.
  abbrev pub AllQueued : PriorityQueue → List QueuedPodInfo → Type 0
  AllQueued q [] = Unit {0}
  AllQueued q (info ∷ rest) =
      ((k : String) → pod_info_key_func env info ≡ value k → InQueue env Named laws q k info)
      × AllQueued q rest

  pub record MovedAll (p : PriorityQueue) (infos : List QueuedPodInfo) (q : PriorityQueue)
      : Type 0 where
    pub valid : IsValid env Named q
    pub queued : AllQueued q infos
    pub kept :
        (k : String) (a : QueuedPodInfo)
        → InQueue env Named laws p k a
        → InQueue env Named laws q k a
    pub left :
        (n : String)
        → waiting env Named q n ≡ (if has_name n infos then none else waiting env Named p n)
    pub cycle : q.scheduling_cycle ≡ p.scheduling_cycle

  -- Each distinct waiting pod gets a place in the active or the backoff queue and leaves the
  -- unschedulable one; all other pods stay where they are.
  pub move_each-MovedAll :
      (p : PriorityQueue) (infos : List QueuedPodInfo) (clock : ℕ → ℤ)
      → IsValid env Named p
      → Movable (waiting env Named p) infos
      → Returns (MovedAll p infos) (move_each env p infos clock)
  unfolding move_each has_name
  move_each-MovedAll p [] clock v m =
      returns (record { valid = v; queued = tt; kept = λ k a i. i; left = λ n. refl; cycle = refl })
  move_each-MovedAll p (info ∷ rest) clock v m =
      let named = v.parts.named_waiting (get_pod_full_name info.pod) info m.0 in
      let (k, e) = laws.total info.pod named in
      let b = is_pod_backing_off p.config (clock (length rest)) info in
      Returns-bind (move_one-MovedOne env Named laws p info k v m.0 e (clock (length rest))) λ q z.
        let (here, stay) = InQueue-moved env Named laws p info k v m.0 e b q z in
        Returns-map
          (move_each-MovedAll q rest clock z.valid (
            Movable-keep (get_pod_full_name info.pod) (waiting env Named p) (waiting env Named q)
              rest z.left m.1 m.2))
          λ r y. record {
            valid = y.valid;
            queued = ((λ k' e'. y.kept k' info (here_at q k k' info e e' here)), y.queued);
            kept = λ j a i. y.kept j a (stay j a i);
            left = λ n.
                ground (
                  arith,
                  y.left n,
                  z.left n,
                  m.1,
                  string_eq.beq_iff (get_pod_full_name info.pod) n,
                );
            cycle = y.cycle ∙ z.cycle;
          }
    where
      here_at :
          (q : PriorityQueue) (k k' : String) (a : QueuedPodInfo)
          → pod_info_key_func env a ≡ value k
          → pod_info_key_func env a ≡ value k'
          → InQueue env Named laws q k a
          → InQueue env Named laws q k' a
      here_at q k k' a e e' i = let same : k ≡ k' = cc in rw same at i

  -- movePodsToActiveOrBackoffQueue also remembers the scheduling cycle of the move request, and
  -- wakes Pop.
  abbrev pub MoveRequest : PriorityQueue → List QueuedPodInfo → PriorityQueue → Type 0
  MoveRequest p infos q = MovedAll p infos q × (q.move_request_cycle ≡ q.scheduling_cycle)

  pub move_pods-MoveRequest :
      (p : PriorityQueue) (infos : List QueuedPodInfo) (clock : ℕ → ℤ)
      → IsValid env Named p
      → Movable (waiting env Named p) infos
      → Returns (MoveRequest p infos) (move_pods_to_active_or_backoff_queue env p infos clock)
  unfolding move_pods_to_active_or_backoff_queue broadcast
  move_pods-MoveRequest p infos clock v m =
      Returns-bind (move_each-MovedAll p infos clock v m) λ q z. returns (
        record {
          valid = record {
            parts = record {
              active = z.valid.parts.active;
              backoff = z.valid.parts.backoff;
              unschedulable = z.valid.parts.unschedulable;
              nominated = z.valid.parts.nominated;
              named_active = z.valid.parts.named_active;
              named_backoff = z.valid.parts.named_backoff;
              named_waiting = z.valid.parts.named_waiting;
            };
            apart = z.valid.apart;
          };
          queued = AllQueued-frame q (requested q) infos refl refl z.queued;
          kept = z.kept;
          left = z.left;
          cycle = z.cycle;
        },
        refl,
      )
    where
      requested : PriorityQueue → PriorityQueue
      requested q = record q {
        move_request_cycle = q.scheduling_cycle;
        broadcasts = q.broadcasts + 1;
      }

      AllQueued-frame :
          (q r : PriorityQueue) (infos : List QueuedPodInfo)
          → r.active_q ≡ q.active_q
          → r.pod_backoff_q ≡ q.pod_backoff_q
          → AllQueued q infos
          → AllQueued r infos
      AllQueued-frame q r [] a b h = tt
      AllQueued-frame q r (info ∷ rest) a b h =
          ((λ k e. rw (a, b) (h.0 k e)), AllQueued-frame q r rest a b h.1)

-- The entries of a list stand in the map `w` under the names of their pods.
abbrev Entries : (String → Option QueuedPodInfo) → List (String × QueuedPodInfo) → Type 0
Entries w [] = Unit {0}
Entries w ((k, info) ∷ m) = (w k ≡ some info) × (get_pod_full_name info.pod ≡ k) × Entries w m

-- A part of the entries of a map with distinct keys.
data Part (test : QueuedPodInfo → Bool)
    : List (String × QueuedPodInfo) → List QueuedPodInfo → Type 0 where
  part_nil : Part test [] []
  part_in :
      {k : String} {info : QueuedPodInfo} {m : List (String × QueuedPodInfo)}
      {infos : List QueuedPodInfo}
      → test info ≡ true
      → Part test m infos
      → Part test ((k, info) ∷ m) (info ∷ infos)
  part_out :
      {k : String} {info : QueuedPodInfo} {m : List (String × QueuedPodInfo)}
      {infos : List QueuedPodInfo}
      → test info ≡ false
      → Part test m infos
      → Part test ((k, info) ∷ m) infos

Part-has_name :
    (test : QueuedPodInfo → Bool) (w : String → Option QueuedPodInfo) (n : String)
    {m : List (String × QueuedPodInfo)} {infos : List QueuedPodInfo}
    → Part test m infos
    → Entries w m
    → lookup n m ≡ none
    → has_name n infos ≡ false
unfolding lookup has_name
Part-has_name test w n part_nil t e = refl
Part-has_name test w n (part_in {k = k} {info = i} {m = m} h p) t e =
    ground (arith, Part-has_name test w n p t.2, t.1, e)
Part-has_name test w n (part_out {k = k} {info = i} {m = m} h p) t e =
    Part-has_name test w n p t.2 (ground (arith, e))

Part-Movable :
    (test : QueuedPodInfo → Bool) (w : String → Option QueuedPodInfo)
    {m : List (String × QueuedPodInfo)} {infos : List QueuedPodInfo}
    → Part test m infos
    → Entries w m
    → IsUnique m
    → Movable w infos
Part-Movable test w part_nil t u = tt
Part-Movable test w (part_in {infos = infos} h p) (a, b, t) (unique_cons n u) = (
  ap w b ∙ a,
  ap (λ x. has_name x infos) b ∙ Part-has_name test w _ p t n,
  Part-Movable test w p t u,
)
Part-Movable test w (part_out h p) (a, b, t) (unique_cons n u) = Part-Movable test w p t u

IsUnique-Entries :
    (w : String → Option QueuedPodInfo) {m : List (String × QueuedPodInfo)}
    → ((k : String) (info : QueuedPodInfo)
        → lookup k m ≡ some info
        → (w k ≡ some info) × (get_pod_full_name info.pod ≡ k))
    → IsUnique m
    → Entries w m
unfolding lookup
IsUnique-Entries w h unique_nil = tt
IsUnique-Entries w h (unique_cons {k = k} {v = i} {m = m} n u) =
    let here : (w k ≡ some i) × (get_pod_full_name i.pod ≡ k) = h k i (rw (beq_refl k)) in
    (
      here.0,
      here.1,
      IsUnique-Entries w (λ j a e. h j a (ground (arith, string_eq.beq_iff k j, n, e))) u,
    )

all-Part : (m : List (String × QueuedPodInfo)) → Part (λ _. true) m (map (λ (k, info). info) m)
all-Part [] = part_nil
all-Part ((k, info) ∷ m) = part_in refl (all-Part m)

abbrev is_stale : ℤ → QueuedPodInfo → Bool
is_stale now info = ltb_ℤ unschedulable_q_time_interval (now -ℤ info.timestamp)

stale-Part :
    (env : QueueEnv) (now : ℤ) (m : List (String × QueuedPodInfo))
    → Part (is_stale now) m (stale env now m)
stale-Part env now [] = part_nil
stale-Part env now ((k, info) ∷ m) = elim (Bool-cases (is_stale now info)) [
  | inl old ↦ rw old (part_in old (stale-Part env now m))
  | inr recent ↦ rw recent (part_out recent (stale-Part env now m))
]

module _ (env : QueueEnv) (Named : Pod → Type 0) (laws : EnvLaws env Named) (p : PriorityQueue)
    (v : IsValid env Named p) where
  waiting-Entries : Entries (waiting env Named p) p.unschedulable_q.pod_info_map
  waiting-Entries =
      IsUnique-Entries (waiting env Named p) (λ k info e. (e, v.parts.unschedulable.keyed k info e))
        v.parts.unschedulable.distinct

  -- MoveAllToActiveOrBackoffQueue gives every pod of the unschedulable queue a place in the active or
  -- the backoff queue, loses none that was there, and keeps the invariant.
  pub move_all-MoveRequest :
      (clock : ℕ → ℤ)
      → Returns
          (MoveRequest env Named laws p (map (λ (k, info). info) p.unschedulable_q.pod_info_map))
          (move_all_to_active_or_backoff_queue env p clock)
  unfolding move_all_to_active_or_backoff_queue
  move_all-MoveRequest clock = move_pods-MoveRequest env Named laws p _ clock v (
      Part-Movable (λ _. true) (waiting env Named p) (all-Part _) waiting-Entries
        v.parts.unschedulable.distinct)
