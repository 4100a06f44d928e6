-- ===== src/Network/ConnectionProvider/Counts.antt =====
-- p2p/connection_provider.go: counting the open connections.
use dscuss.Prelude.{
  ℕ, suc, ◌+◌, ◌^◌, ◌<◌, ◌≤◌, ◌≡◌, ap, sym, ◌∙◌, arith, Bool, true, false, not, List, [], ◌∷◌, ◌++◌,
  ◌==◌, if◌then◌else◌,
}
use dscuss.Network.ConnectionProvider.{Address, Connection, new_connection, increment, decrement}

-- The open connections in one direction.
abbrev pub count : Bool → List Connection → ℕ
count b [] = 0
count true (c ∷ cs) = if c.is_incoming then suc (count true cs) else count true cs
count false (c ∷ cs) = if c.is_incoming then count false cs else suc (count false cs)

count-append : (b : Bool) (xs ys : List Connection) → count b (xs ++ ys) ≡ count b xs + count b ys
count-append b [] ys = omega arith
count-append true (c ∷ xs) ys = ground (arith, count-append true xs ys)
count-append false (c ∷ xs) ys = ground (arith, count-append false xs ys)

pub increment_small : (n m : ℕ) → n < m → m < 2 ^ 32 → increment n ≡ suc n
increment_small n m l w = omega arith

decrement_small : (n m : ℕ) → n ≡ suc m → n < 2 ^ 32 → decrement n ≡ m
decrement_small n m e w = omega arith

-- The counts of the open connections and one more.
pub count_one_more :
    (cs : List Connection) (remote : Address) (b : Bool)
    → (count b (cs ++ new_connection remote b ∷ []) ≡ suc (count b cs))
      × (count (not b) (cs ++ new_connection remote b ∷ []) ≡ count (not b) cs)
count_one_more cs remote true = (
  ground (arith, count-append true cs (new_connection remote true ∷ [])),
  ground (arith, count-append false cs (new_connection remote true ∷ [])),
)
count_one_more cs remote false = (
  ground (arith, count-append false cs (new_connection remote false ∷ [])),
  ground (arith, count-append true cs (new_connection remote false ∷ [])),
)

pub below_of_ne : (i n m : ℕ) → i ≡ suc n → n < m → (i == m) ≡ false → suc n < m
below_of_ne i n m e l f = ground arith

pub count_split :
    (b : Bool) (before : List Connection) (c : Connection) (after : List Connection)
    → count b (before ++ c ∷ after) ≡ count b (before ++ after) + count b (c ∷ [])
count_split b before c after = omega (
  arith,
  count-append b before (c ∷ after),
  count-append b before after,
  count-append b (c ∷ []) after,
)

pub drop_one :
    (i : Bool) (n m : ℕ)
    → n ≡ m + (if i then 1 else 0)
    → n < 2 ^ 32
    → ((if i then decrement n else n) ≡ m) × (m ≤ n)
drop_one true n m e w = (decrement_small n m (omega arith) w, omega arith)
drop_one false n m e w = (omega arith, omega arith)

pub drop_other :
    (i : Bool) (n m : ℕ)
    → n ≡ m + (if i then 0 else 1)
    → n < 2 ^ 32
    → ((if i then n else decrement n) ≡ m) × (m ≤ n)
drop_other true n m e w = (omega arith, omega arith)
drop_other false n m e w = (decrement_small n m (omega arith) w, omega arith)

-- A change of the addresses of a connection changes no count.
pub count_same :
    (b : Bool) (before : List Connection) (c d : Connection) (after : List Connection)
    → c.is_incoming ≡ d.is_incoming
    → count b (before ++ c ∷ after) ≡ count b (before ++ d ∷ after)
count_same b before c d after e =
    count_split b before c after
    ∙ ap (λ n. count b (before ++ after) + n) (one b)
    ∙ sym (count_split b before d after)
  where
    one : (b : Bool) → count b (c ∷ []) ≡ count b (d ∷ [])
    one true = ap (λ i. if i then 1 else 0) e
    one false = ap (λ i. if i then 0 else 1) e
