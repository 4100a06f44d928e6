-- ===== src/Network/PeerPool/Validating.antt =====
-- p2p/peer_pool.go: the peers that are accepted.
use dscuss.Prelude.{
  ℕ, ◌≡◌, refl, ap, sym, ◌∙◌, subst, arith, Bool, true, false, not, ◌&&◌, ◌||◌, Bool-cases, inl,
  inr, List, [], ◌++◌, map, any, all, all_of_mem, any_of_mem, find, find-none, Memᴰ, Option, none,
  some, ◌==◌, if◌then◌else◌,
}
use dscuss.Entity.{EntityId}
use dscuss.Network.ConnectionProvider.{Address}
use dscuss.Network.PeerPool.{
  Member, append, has_id, is_double, hand_over, validated, validate_peer, set_id, accept, Step,
}
use dscuss.Network.PeerPool.Members.{mem-snoc, mem-map, mem-remove_gone}

-- No two peers that were accepted have the same user.
pub IsUnique : List Member → Type 0
IsUnique peers =
    (a b : Member) (id : EntityId)
    → Memᴰ a peers
    → Memᴰ b peers
    → a.is_accepted ≡ true
    → b.is_accepted ≡ true
    → has_id id a.id ≡ true
    → has_id id b.id ≡ true
    → a.ptr ≡ b.ptr

-- Where a function keeps what the invariant is about, or keeps no accepted peer but as it was.
map-IsUnique :
    (f : Member → Member) (peers : List Member)
    → ((m : Member)
        → Memᴰ m peers
        → (f m).is_accepted ≡ true
        → ((f m).ptr ≡ m.ptr) × (m.is_accepted ≡ true) × ((f m).id ≡ m.id))
    → IsUnique peers
    → IsUnique (map f peers)
unfolding IsUnique
map-IsUnique f peers k v a b id i j p q s t =
    let (m, mi, me) = mem-map f peers i in
    let (n, ni, ne) = mem-map f peers j in
    let (mp, ma, mid) = k m mi (ap (λ x. x.is_accepted) (sym me) ∙ p) in
    let (np, na, nid) = k n ni (ap (λ x. x.is_accepted) (sym ne) ∙ q) in
    ap (λ x. x.ptr) me
    ∙ mp
    ∙ v m n id mi ni ma na (ap (has_id id) (sym mid) ∙ ap (λ x. has_id id x.id) (sym me) ∙ s)
        (ap (has_id id) (sym nid) ∙ ap (λ x. has_id id x.id) (sym ne) ∙ t)
    ∙ sym np
    ∙ ap (λ x. x.ptr) (sym ne)

append-IsUnique :
    (peers : List Member) (n : Member)
    → n.is_accepted ≡ false
    → IsUnique peers
    → IsUnique (append peers n)
unfolding IsUnique append
append-IsUnique peers n f v a b id i j p q s t = elim (mem-snoc peers n i) [
  | inl x ↦ elim (mem-snoc peers n j) [
    | inl y ↦ v a b id x y p q s t
    | inr e ↦ absurd (ground (arith, ap (λ x. x.is_accepted) e))
  ]
  | inr e ↦ absurd (ground (arith, ap (λ x. x.is_accepted) e))
]

hand_over-same :
    (new other : ℕ) (addrs : List Address) (m : Member)
    → ((hand_over new other addrs m).ptr ≡ m.ptr)
      × ((hand_over new other addrs m).is_accepted ≡ m.is_accepted)
      × ((hand_over new other addrs m).id ≡ m.id)
hand_over-same new other addrs m = by_tests (m.ptr == other) (m.ptr == new)
  where
    result : Bool → Bool → Member
    result b c =
        if b
        then record m { addresses = m.addresses ++ addrs }
        else if c
        then record m { addresses = [] }
        else m

    by_tests :
        (b c : Bool)
        → ((result b c).ptr ≡ m.ptr)
          × ((result b c).is_accepted ≡ m.is_accepted)
          × ((result b c).id ≡ m.id)
    by_tests true c = (refl, refl, refl)
    by_tests false true = (refl, refl, refl)
    by_tests false false = (refl, refl, refl)

set_id-same :
    (p : ℕ) (id : EntityId) (m : Member)
    → (m.ptr == p && m.is_accepted) ≡ false
    → (set_id p id m).is_accepted ≡ true
    → ((set_id p id m).ptr ≡ m.ptr) × (m.is_accepted ≡ true) × ((set_id p id m).id ≡ m.id)
set_id-same p id m h = by_ptr (m.ptr == p) refl
  where
    by_ptr :
        (b : Bool)
        → (m.ptr == p) ≡ b
        → (if b then record m { id = some id } else m).is_accepted ≡ true
        → ((if b then record m { id = some id } else m).ptr ≡ m.ptr)
          × (m.is_accepted ≡ true)
          × ((if b then record m { id = some id } else m).id ≡ m.id)
    by_ptr true e a = absurd (ground arith)
    by_ptr false e a = (refl, a, refl)

-- What an answer of `ValidatePeer` comes to.
abbrev Answers : List Member → ℕ → EntityId → Bool × List Member → Type 0
Answers peers new id (true, ms) = (ms ≡ peers) × (any (is_double new id) peers ≡ false)
Answers peers new id (false, ms) = IsUnique peers → IsUnique ms

validate_peer-Answers :
    (peers : List Member) (new : ℕ) (id : EntityId) (addrs : List Address)
    → Answers peers new id (validate_peer peers new id addrs)
unfolding validate_peer
validate_peer-Answers peers new id addrs = by_double (find (is_double new id) peers) refl
  where
    by_double :
        (o : Option Member)
        → find (is_double new id) peers ≡ o
        → Answers peers new id (validated peers new addrs o)
    by_double none e = (refl, find-none (is_double new id) peers e)
    by_double (some d) e =
        map-IsUnique (hand_over new d.ptr addrs) peers
          (λ m i a. let (p, acc, j) = hand_over-same new d.ptr addrs m in (p, sym acc ∙ a, j))

same_id : (o : Option EntityId) (i j : EntityId) → has_id i o ≡ true → has_id j o ≡ true → i ≡ j
same_id none i j h k = absurd (ground arith)
same_id (some x) i j h k = ground arith

-- A peer that was accepted before, and the one that is accepted now.
accept-IsUnique :
    (peers : List Member) (p : ℕ) (id : EntityId)
    → all (λ m. not (m.ptr == p) || has_id id m.id) peers ≡ true
    → any (is_double p id) peers ≡ false
    → IsUnique peers
    → IsUnique (map (accept p) peers)
unfolding IsUnique
accept-IsUnique peers p id h d v a b id0 i j ia ib s t =
    let (m, mi, me) = mem-map (accept p) peers i in
    let (n, ni, ne) = mem-map (accept p) peers j in
    ap (λ x. x.ptr) me
    ∙ both m n mi ni (m.ptr == p) (n.ptr == p) refl refl (ap (λ x. x.is_accepted) (sym me) ∙ ia)
        (ap (λ x. x.is_accepted) (sym ne) ∙ ib) (ap (λ x. has_id id0 x.id) (sym me) ∙ s)
        (ap (λ x. has_id id0 x.id) (sym ne) ∙ t)
    ∙ sym (ap (λ x. x.ptr) ne)
  where
    marked : Bool → Member → Member
    marked c m = if c then record m { is_accepted = true } else m

    alone :
        (m n : Member)
        → Memᴰ m peers
        → Memᴰ n peers
        → (m.ptr == p) ≡ true
        → (n.ptr == p) ≡ false
        → has_id id0 m.id ≡ true
        → has_id id0 n.id ≡ true
        → m.ptr ≡ n.ptr
    alone m n mi ni e f s t =
        let own : (not (m.ptr == p) || has_id id m.id) ≡ true =
          all_of_mem (λ x. not (x.ptr == p) || has_id id x.id) peers h mi in
        let same : id0 ≡ id = same_id m.id id0 id s (ground arith) in
        let other : has_id id n.id ≡ true = ap (λ i. has_id i n.id) (sym same) ∙ t in
        let double : is_double p id n ≡ true = ground arith in
        absurd (ground (arith, any_of_mem (is_double p id) peers ni double))

    both :
        (m n : Member)
        → Memᴰ m peers
        → Memᴰ n peers
        → (c e : Bool) → (m.ptr == p) ≡ c
        → (n.ptr == p) ≡ e
        → (marked c m).is_accepted ≡ true
        → (marked e n).is_accepted ≡ true
        → has_id id0 (marked c m).id ≡ true
        → has_id id0 (marked e n).id ≡ true
        → (marked c m).ptr ≡ (marked e n).ptr
    both m n mi ni true true e f ia ib s t = ground arith
    both m n mi ni true false e f ia ib s t = alone m n mi ni e f s t
    both m n mi ni false true e f ia ib s t = sym (alone n m ni mi f e t s)
    both m n mi ni false false e f ia ib s t = v m n id0 mi ni ia ib s t

Step-IsUnique : (peers peers' : List Member) → Step peers peers' → IsUnique peers → IsUnique peers'
Step-IsUnique peers peers' (Step.appended ms p addrs) v = append-IsUnique ms _ refl v
Step-IsUnique peers peers' (Step.identified ms p id h) v =
    map-IsUnique (set_id p id) ms (λ m i a. set_id-same p id m (none_accepted m i) a) v
  where
    none_accepted : (m : Member) → Memᴰ m ms → (m.ptr == p && m.is_accepted) ≡ false
    none_accepted m i = elim (Bool-cases (m.ptr == p && m.is_accepted)) [
      | inl e ↦ absurd (ground (arith, any_of_mem (λ x. x.ptr == p && x.is_accepted) ms i e))
      | inr e ↦ e
    ]
Step-IsUnique peers peers' (Step.refused ms p id addrs ms' e) v =
    subst (Answers ms p id) e (validate_peer-Answers ms p id addrs) v
Step-IsUnique peers peers' (Step.accepted ms p id addrs ms' h e) v =
    let (same, single) = subst (Answers ms p id) e (validate_peer-Answers ms p id addrs) in
    subst (λ l. IsUnique (map (accept p) l)) (sym same) (accept-IsUnique ms p id h single v)
Step-IsUnique peers peers' (Step.ticked ms seen) v =
    unfold IsUnique in
    (λ a b id i j p q s t. v a b id (mem-remove_gone seen ms i) (mem-remove_gone seen ms j) p q s t)

-- The lists of peers that an empty pool comes to.
pub data Reached : List Member → Type 0 where
  start : Reached []
  step : (peers peers' : List Member) → Reached peers → Step peers peers' → Reached peers'

-- Whatever connections, handshakes and ticks follow each other, no two peers of the pool that
-- `ValidatePeer` accepted have the same user, if a user is set only for a peer that is not accepted
-- yet and a peer is validated with the user that was set.
pub Reached-IsUnique : (peers : List Member) → Reached peers → IsUnique peers
Reached-IsUnique peers Reached.start = unfold IsUnique in (λ a b id i. elim i [ ])
Reached-IsUnique peers (Reached.step ms ms' r s) = Step-IsUnique ms ms' s (Reached-IsUnique ms r)
