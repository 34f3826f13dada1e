-- ===== src/Scheduler/NodeInfo/Ports.antt =====
-- scheduler/framework/v1alpha1/types.go: HostPortInfo, the host ports in use on a node. The inner
-- map, a set of ProtocolPort, is a list.
use cloud_prophet.Prelude.{
  ℕ, ◌+◌, ◌≡◌, refl, subst, sym, ◌∙◌, ap, String, Bool, true, false, ◌&&◌, ◌||◌, Option, none, some,
  List, [], ◌∷◌, arith, if◌then◌else◌, length, string_eq, ◌===◌, beq_refl, Bool-cases, Option-cases,
  inl, inr, ◌↔◌, not, ◌⊎◌,
}
use cloud_prophet.Prelude.Int.{ℤ, pos, leb_ℤ, eqb_ℤ, eq_of_parts}
use cloud_prophet.Prelude.Map.{Map, lookup, insert, lookup-insert, lookup-delete}
use cloud_prophet.Prelude.Map

pub record ProtocolPort : Type 0 where
  pub protocol : String
  pub port : ℤ

abbrev pub HostPortInfo : Type 0
HostPortInfo = Map String (List ProtocolPort)

abbrev pub default_bind_all_host_ip : String
default_bind_all_host_ip = "0.0.0.0"

abbrev pub sanitize_ip : String → String
sanitize_ip ip = if ip === "" then default_bind_all_host_ip else ip

abbrev pub sanitize_protocol : String → String
sanitize_protocol protocol = if protocol === "" then "TCP" else protocol

-- The second test of NewProtocolPort never applies after sanitize.
abbrev pub new_protocol_port : String → ℤ → ProtocolPort
new_protocol_port protocol port = record { protocol = sanitize_protocol protocol; port = port }

unfoldable pub same_port : ProtocolPort → ProtocolPort → Bool
same_port a b = a.protocol === b.protocol && eqb_ℤ a.port b.port

unfoldable pub has_port : ProtocolPort → List ProtocolPort → Bool
has_port p [] = false
has_port p (q ∷ qs) = same_port q p || has_port p qs

unfoldable pub insert_port : ProtocolPort → List ProtocolPort → List ProtocolPort
unfolding has_port
insert_port p ps = if has_port p ps then ps else p ∷ ps

unfoldable pub delete_port : ProtocolPort → List ProtocolPort → List ProtocolPort
delete_port p [] = []
delete_port p (q ∷ qs) = if same_port q p then delete_port p qs else q ∷ delete_port p qs

unfoldable pub add : HostPortInfo → String → String → ℤ → HostPortInfo
unfolding insert_port
add h ip protocol port =
    let addr = sanitize_ip ip in
    let pp = new_protocol_port protocol port in
    let added = elim (lookup addr h) as (λ _. HostPortInfo) [
      | none ↦ insert addr (pp ∷ []) h
      | some ps ↦ insert addr (insert_port pp ps) h
    ] in
    if leb_ℤ port (pos 0) then h else added

unfoldable pub remove : HostPortInfo → String → String → ℤ → HostPortInfo
unfolding delete_port
remove h ip protocol port =
    let addr = sanitize_ip ip in
    let pp = new_protocol_port protocol port in
    let removed = elim (lookup addr h) as (λ _. HostPortInfo) [
      | none ↦ h
      | some ps ↦ elim (delete_port pp ps) as (λ _. HostPortInfo) [
        | [] ↦ Map.delete addr h
        | q ∷ qs ↦ insert addr (q ∷ qs) h
      ]
    ] in
    if leb_ℤ port (pos 0) then h else removed

unfoldable pub len : HostPortInfo → ℕ
len [] = 0
len ((ip, ps) ∷ h) = length ps + len h

-- The loop over the addresses.
unfoldable pub any_address : ProtocolPort → List (String × List ProtocolPort) → Bool
unfolding has_port
any_address pp [] = false
any_address pp ((ip, ps) ∷ h) = has_port pp ps || any_address pp h

unfoldable pub at_address : HostPortInfo → String → ProtocolPort → Bool
unfolding has_port
at_address h ip pp = elim (lookup ip h) [ none ↦ false | some ps ↦ has_port pp ps ]

unfoldable pub check_conflict : HostPortInfo → String → String → ℤ → Bool
unfolding any_address at_address
check_conflict h ip protocol port =
    let addr = sanitize_ip ip in
    let pp = new_protocol_port protocol port in
    let found =
      if addr === default_bind_all_host_ip
      then any_address pp h
      else at_address h default_bind_all_host_ip pp || at_address h addr pp in
    if leb_ℤ port (pos 0) then false else found

eqb_iff : (a b : ℤ) → (eqb_ℤ a b ≡ true) ↔ (a ≡ b)
eqb_iff a b = ((λ h. eq_of_parts a b (ground (arith, h))), (λ e. rw e (ground arith)))

port_ext : (p q : ProtocolPort) → p.protocol ≡ q.protocol → p.port ≡ q.port → p ≡ q
port_ext p q e g = ap (λ x. record p { protocol = x }) e ∙ ap (λ y. record q { port = y }) g

same_port_iff : (p q : ProtocolPort) → (same_port p q ≡ true) ↔ (p ≡ q)
unfolding same_port
same_port_iff p q = (
  (λ h.
      port_ext p q ((string_eq.beq_iff p.protocol q.protocol).0 (and_left _ _ h))
        ((eqb_iff p.port q.port).0 (and_right _ _ h))),
  (λ e. rw e (both (beq_refl q.protocol) ((eqb_iff q.port q.port).1 refl))),
)
  where
    and_left : (x y : Bool) → x && y ≡ true → x ≡ true
    and_left x y h = ground (arith, h)

    and_right : (x y : Bool) → x && y ≡ true → y ≡ true
    and_right x y h = ground (arith, h)

    both : {x y : Bool} → x ≡ true → y ≡ true → x && y ≡ true
    both a b = rw (a, b) refl

has-insert_port :
    (p q : ProtocolPort) (ps : List ProtocolPort)
    → has_port q (insert_port p ps) ≡ same_port p q || has_port q ps
unfolding has_port insert_port
has-insert_port p q ps = elim (Bool-cases (has_port p ps)) [
  | inr new ↦ rw new refl
  | inl old ↦ rw old (ground (arith, same_port_iff p q, old))
]

has-delete_port :
    (p q : ProtocolPort) (ps : List ProtocolPort)
    → has_port q (delete_port p ps) ≡ (if same_port p q then false else has_port q ps)
unfolding has_port delete_port
has-delete_port p q [] = ground arith
has-delete_port p q (x ∷ ps) =
    ground (arith, has-delete_port p q ps, same_port_iff x p, same_port_iff x q, same_port_iff p q)

used-insert :
    (k ip : String) (ps : List ProtocolPort) (pp : ProtocolPort) (h : HostPortInfo)
    → at_address (insert k ps h) ip pp ≡ (if k === ip then has_port pp ps else at_address h ip pp)
unfolding at_address
used-insert k ip ps pp h = rw (at_address, lookup-insert k ip ps h) (ground arith)

abbrev has_in : ProtocolPort → Option (List ProtocolPort) → Bool
has_in pp none = false
has_in pp (some ps) = has_port pp ps

at-same :
    (h : HostPortInfo) (k j : String) (pp : ProtocolPort) (o : Option (List ProtocolPort))
    → lookup k h ≡ o
    → (k === j) ≡ true
    → at_address h j pp ≡ has_in pp o
unfolding at_address
at-same h k j pp none e same = rw (sym ((string_eq.beq_iff k j).0 same), e, at_address) refl
at-same h k j pp (some ps) e same = rw (sym ((string_eq.beq_iff k j).0 same), e, at_address) refl

-- Add marks a port of a positive number in use at its address, and no other.
pub add-used :
    (h : HostPortInfo) (ip protocol : String) (port : ℤ) (ip' : String) (pp : ProtocolPort)
    → at_address (add h ip protocol port) ip' pp ≡ (
        (not (leb_ℤ port (pos 0))
          && (sanitize_ip ip === ip' && same_port (new_protocol_port protocol port) pp))
        || at_address h ip' pp)
unfolding add
add-used h ip protocol port ip' pp = elim (Bool-cases (leb_ℤ port (pos 0))) [
  | inl no_port ↦ rw (no_port, add) refl
  | inr some_port ↦ elim (Option-cases (lookup (sanitize_ip ip) h)) [
    | inl fresh ↦
        rw (some_port, fresh, add, used-insert) (ground (arith, at-same h _ ip' pp none fresh))
    | inr (ps, old) ↦
        rw (some_port, old, add, used-insert, has-insert_port)
          (ground (arith, at-same h _ ip' pp (some ps) old))
  ]
]

used-delete :
    (k ip : String) (pp : ProtocolPort) (h : HostPortInfo)
    → at_address (Map.delete k h) ip pp ≡ (if k === ip then false else at_address h ip pp)
unfolding at_address
used-delete k ip pp h = rw (at_address, lookup-delete k ip h) (ground arith)

List-cases :
    (ps : List ProtocolPort)
    → (ps ≡ []) ⊎ ((q : ProtocolPort) × (qs : List ProtocolPort) × (ps ≡ q ∷ qs))
List-cases [] = inl refl
List-cases (q ∷ qs) = inr (q, qs, refl)

-- Remove frees a port at its address, and no other.
pub remove-used :
    (h : HostPortInfo) (ip protocol : String) (port : ℤ) (ip' : String) (pp : ProtocolPort)
    → at_address (remove h ip protocol port) ip' pp ≡ (
        if not (leb_ℤ port (pos 0))
          && (sanitize_ip ip === ip' && same_port (new_protocol_port protocol port) pp)
        then false
        else at_address h ip' pp)
unfolding remove has_port
remove-used h ip protocol port ip' pp = elim (Bool-cases (leb_ℤ port (pos 0))) [
  | inl no_port ↦ rw (no_port, remove) refl
  | inr some_port ↦ elim (Option-cases (lookup (sanitize_ip ip) h)) [
    | inl nothing ↦
        rw (some_port, nothing, remove) (ground (arith, at-same h _ ip' pp none nothing))
    | inr (ps, old) ↦
        let key = new_protocol_port protocol port in
        let off = has-delete_port key pp ps in
        elim (List-cases (delete_port key ps)) [
          | inl last ↦
              let off' : false ≡ (if same_port key pp then false else has_port pp ps) =
                rw last at off in
              rw (some_port, old, last, remove, used-delete)
                (ground (arith, at-same h _ ip' pp (some ps) old, off'))
          | inr (q, qs, more) ↦
              let off' : has_port pp (q ∷ qs)
                  ≡ (if same_port key pp then false else has_port pp ps) =
                rw more at off in
              rw (some_port, old, more, remove, used-insert)
                (ground (arith, at-same h _ ip' pp (some ps) old, off'))
        ]
  ]
]

any-at_address :
    (h : List (String × List ProtocolPort)) (ip : String) (pp : ProtocolPort)
    → at_address h ip pp ≡ true
    → any_address pp h ≡ true
unfolding at_address any_address lookup
any-at_address [] ip pp e = absurd (cc)
any-at_address ((k, ps) ∷ h) ip pp e = elim (Bool-cases (k === ip)) [
  | inl here ↦ let used : has_port pp ps ≡ true = rw (here, at_address) at e in rw used refl
  | inr there ↦
      let later : at_address h ip pp ≡ true = rw (there, at_address) at e in
      ground (arith, any-at_address h ip pp later)
]

-- A port that is added conflicts with the same port at its address, and at every address if either
-- is the address that binds all.
pub check_conflict-add :
    (h : HostPortInfo) (ip ip' protocol : String) (port : ℤ)
    → leb_ℤ port (pos 0) ≡ false
    → ((sanitize_ip ip === sanitize_ip ip' || sanitize_ip ip === default_bind_all_host_ip)
        || sanitize_ip ip' === default_bind_all_host_ip)
      ≡ true
    → check_conflict (add h ip protocol port) ip' protocol port ≡ true
unfolding check_conflict
check_conflict-add h ip ip' protocol port some_port near =
    let pp = new_protocol_port protocol port in
    let own : at_address (add h ip protocol port) (sanitize_ip ip) pp ≡ true =
      add-used h ip protocol port (sanitize_ip ip) pp
      ∙ rw (some_port, beq_refl (sanitize_ip ip), (same_port_iff pp pp).1 refl) refl in
    let any = any-at_address (add h ip protocol port) (sanitize_ip ip) pp own in
    let at = λ (j : String) (same : (sanitize_ip ip === j) ≡ true).
      subst (λ x. at_address (add h ip protocol port) x pp ≡ true)
        ((string_eq.beq_iff (sanitize_ip ip) j).0 same) own in
    elim (Bool-cases (sanitize_ip ip' === default_bind_all_host_ip)) [
      | inl all ↦ rw (some_port, all, check_conflict) any
      | inr one ↦
          rw (some_port, one, check_conflict)
            (either _ _ _ _ _ near one (at default_bind_all_host_ip) (at (sanitize_ip ip')))
    ]
  where
    either :
        (s d a x y : Bool)
        → (s || d) || a ≡ true
        → a ≡ false
        → (d ≡ true → x ≡ true)
        → (s ≡ true → y ≡ true)
        → x || y ≡ true
    either s d a x y h n f g = ground (arith, h, n, f, g)
