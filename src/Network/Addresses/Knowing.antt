-- ===== src/Network/Addresses/Knowing.antt =====
-- p2p/connection_provider.go: which addresses a provider knows after `AddressFound`.
use dscuss.Prelude.{
  ◌≡◌, refl, ap, sym, ◌∙◌, bytes_eq, bytes_eq_iff, Bool, true, false, ◌||◌, Bool-cases, inl, inr,
  [], ◌∷◌, ◌++◌, Option, none, some, if◌then◌else◌,
}
use dscuss.Network.ConnectionProvider.{
  Address, AddressMap, load, add, add_unless, Provider, address_found,
}

-- The entry of an address that may have been found, after the entry before.
abbrev pub or_unused : Option Bool → Bool → Option Bool
or_unused (some b) x = some b
or_unused none x = if x then some false else none

pub or_unused-false : (o : Option Bool) → or_unused o false ≡ o
or_unused-false (some b) = refl
or_unused-false none = refl

pub or_unused-or :
    (o : Option Bool) (x y : Bool) → or_unused (or_unused o x) y ≡ or_unused o (x || y)
or_unused-or (some b) x y = refl
or_unused-or none true y = refl
or_unused-or none false y = refl

load-append :
    (m : AddressMap) (k a : Address)
    → load (m ++ record { key = k; is_used = false } ∷ []) a ≡ or_unused (load m a) (bytes_eq k a)
unfolding load
load-append [] k a = refl
load-append (e ∷ m) k a = elim (Bool-cases (bytes_eq e.key a)) [
  | inl s ↦ rw s refl
  | inr s ↦ rw s (load-append m k a)
]

-- The entry of every address after one is found.
pub load-address_found :
    (cp : Provider) (k a : Address)
    → load (address_found cp k).out_addrs a ≡ or_unused (load cp.out_addrs a) (bytes_eq k a)
unfolding address_found add
load-address_found cp k a = by_entry (load cp.out_addrs k) refl
  where
    by_entry :
        (o : Option Bool)
        → load cp.out_addrs k ≡ o
        → load (add_unless o cp.out_addrs (record { key = k; is_used = false })) a
          ≡ or_unused (load cp.out_addrs a) (bytes_eq k a)
    by_entry none e = load-append cp.out_addrs k a
    by_entry (some b) e = elim (Bool-cases (bytes_eq k a)) [
      | inl s ↦
          let found : load cp.out_addrs a ≡ some b =
            ap (load cp.out_addrs) (sym ((bytes_eq_iff k a).0 s)) ∙ e in
          found ∙ ap (λ o. or_unused o (bytes_eq k a)) (sym found)
      | inr s ↦ sym (ap (or_unused (load cp.out_addrs a)) s ∙ or_unused-false (load cp.out_addrs a))
    ]
