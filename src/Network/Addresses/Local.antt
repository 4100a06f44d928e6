-- ===== src/Network/Addresses/Local.antt =====
-- address/address.go, p2p/dht_crawler.go: an address of the crawler's own node.
use dscuss.Prelude.{
  ◌≡◌, refl, ap, sym, ◌∙◌, arith, Bytes, Bool, true, false, any, ◌==◌, Bool-cases, inl, inr, [],
  ◌∷◌, Option, none, some, Result, ok, err, fatal, ◌>>=◌, if◌then◌else◌, ℤ, ℕ,
}
use dscuss.Network.ConnectionProvider.{Address}
use dscuss.Network.Addresses.{
  Libraries, Interfaces, colon, is_valid, split_last, is_address_local, is_port_local, parse,
  parse_port, parse_parts,
}

-- What the patterns ask for: a valid address has a colon.
abbrev pub HasPort : Libraries → Type 0
HasPort lib = (a : Address) → is_valid lib a ≡ true → any (λ b. b == colon) a ≡ true

-- Whether the crawler takes an address for one of its own node.
abbrev pub is_true : Result Bool → Bool
is_true (ok b) = b
is_true (err e) = true
is_true fatal = true

abbrev pub is_own : Libraries → ℤ → Interfaces → Address → Bool
is_own lib port is a = is_true (is_address_local lib is a port)

abbrev split_cons : ℕ → ℕ → Bytes → Option (Bytes × Bytes) → Option (Bytes × Bytes)
split_cons c b bs (some s) = some (b ∷ s.0, s.1)
split_cons c b bs none = if b == c then some ([], bs) else none

split_cons_total :
    (c b : ℕ) (bs : Bytes) (o : Option (Bytes × Bytes))
    → ((b == c) ≡ false → (s : Bytes × Bytes) × (o ≡ some s))
    → (s : Bytes × Bytes) × (split_cons c b bs o ≡ some s)
split_cons_total c b bs (some s) h = ((b ∷ s.0, s.1), refl)
split_cons_total c b bs none h = elim (Bool-cases (b == c)) [
  | inl e ↦ (([], bs), rw e refl)
  | inr e ↦ let t = (h e).1 in absurd (ground arith)
]

split_last_total :
    (c : ℕ) (bs : Bytes)
    → any (λ b. b == c) bs ≡ true
    → (s : Bytes × Bytes) × (split_last c bs ≡ some s)
unfolding split_last
split_last_total c [] h = absurd (ground arith)
split_last_total c (b ∷ bs) h =
    split_cons_total c b bs (split_last c bs) (λ e. split_last_total c bs (ground arith))

parse_total :
    (lib : Libraries) (a : Address)
    → any (λ b. b == colon) a ≡ true
    → (p : Option (Bytes × ℤ)) × (parse lib a ≡ ok p)
unfolding parse
parse_total lib a h =
    let t = split_last_total colon a h in
    (parse_port t.0.0 (lib.atoi t.0.1), ap (parse_parts lib) t.1)

-- An address with a colon is parsed without a panic.
pub is_address_local_total :
    (lib : Libraries) (is : Interfaces) (a : Address) (port : ℤ)
    → any (λ b. b == colon) a ≡ true
    → is_address_local lib is a port ≡ ok (is_own lib port is a)
unfolding is_address_local
is_address_local_total lib is a port h =
    let t = parse_total lib a h in
    let e : is_address_local lib is a port ≡ ok (is_port_local lib is port t.0) =
      ap (λ r. r >>= (λ p. ok (is_port_local lib is port p))) t.1 in
    e ∙ ap ok (sym (ap is_true e))
