-- ===== src/Network/ConnectionProvider/Releasing.antt =====
-- p2p/connection_provider.go: an address from its dialling to the close of the connection.
use dscuss.Prelude.{
  List, any, subst, bytes_eq_refl, leb, ◌≡◌, refl, ap, sym, ◌∙◌, arith, Bool, true, false,
  Bool-cases, inl, inr, [], ◌∷◌, Option, none, some, bytes_eq, bytes_eq_iff, ◌==◌, if◌then◌else◌,
}
use dscuss.Network.Addresses.Knowing.{or_unused, load-address_found}
use dscuss.Network.ConnectionProvider.{
  Step, Connection, Entry, try_to_connect, dialled, dial_all, listen, establish, Address,
  AddressMap, load, change, Provider, increment, connected, release, close_connection,
}

load-change_same :
    (m : AddressMap) (k : Address) (b v : Bool) → load m k ≡ some b → load (change m k v) k ≡ some v
unfolding load change
load-change_same [] k b v h = absurd (ground arith)
load-change_same (e ∷ es) k b v h = elim (Bool-cases (bytes_eq e.key k)) [
  | inl s ↦ rw (s, s) refl
  | inr s ↦ rw (s, s) (load-change_same es k b v (ground arith))
]

load-change_other :
    (m : AddressMap) (k l : Address) (v : Bool)
    → bytes_eq k l ≡ false
    → load (change m k v) l ≡ load m l
unfolding load change
load-change_other [] k l v h = refl
load-change_other (e ∷ es) k l v h = elim (Bool-cases (bytes_eq e.key k)) [
  | inl s ↦
      let other : bytes_eq e.key l ≡ false =
        ap (λ x. bytes_eq x l) ((bytes_eq_iff e.key k).0 s) ∙ h in
      rw (s, other) refl
  | inr s ↦
      rw s (ap (λ r. if bytes_eq e.key l then some e.is_used else r) (load-change_other es k l v h))
]

release_one :
    (m : AddressMap) (a k : Address) (b : Bool)
    → load m k ≡ some b
    → load (release m (a ∷ [])) k ≡ some (if bytes_eq a k then false else b)
unfolding release
release_one m a k b h = by_entry (load m a) refl
  where
    by_entry :
        (o : Option Bool)
        → load m a ≡ o
        → load (elim o [ none ↦ release m [] | some c ↦ release (change m a false) [] ]) k
          ≡ some (if bytes_eq a k then false else b)
    by_entry none e =
        h ∙ ap (λ x. some (if x then false else b)) (sym (elsewhere (bytes_eq a k) refl))
      where
        elsewhere : (x : Bool) → bytes_eq a k ≡ x → bytes_eq a k ≡ false
        elsewhere false t = t
        elsewhere true t =
            let found : load m a ≡ some b = ap (load m) ((bytes_eq_iff a k).0 t) ∙ h in
            absurd (ground arith)
    by_entry (some c) e = by_test (bytes_eq a k) refl
      where
        by_test :
            (x : Bool)
            → bytes_eq a k ≡ x
            → load (change m a false) k ≡ some (if bytes_eq a k then false else b)
        by_test true t =
            ap (λ l. load (change m l false) k) ((bytes_eq_iff a k).0 t)
            ∙ load-change_same m k b false h
            ∙ ap (λ x. some (if x then false else b)) (sym t)
        by_test false t =
            load-change_other m a k false t ∙ h ∙ ap (λ x. some (if x then false else b)) (sym t)

abbrev pick : Bool → Provider → Bool × Provider
pick x c = if x then (false, c) else (true, c)

either_addrs : (x : Bool) (c : Provider) → (pick x c).1.out_addrs ≡ c.out_addrs
either_addrs true c = refl
either_addrs false c = refl

connected-out_addrs :
    (cp : Provider) (addr remote : Address)
    → (connected cp addr remote).1.out_addrs ≡ change cp.out_addrs addr true
unfolding connected
connected-out_addrs cp addr remote = either_addrs (increment cp.out_count == cp.max_out) _

-- The address is used, whatever the entry is that is released.
release_entry :
    (m : AddressMap) (k a : Address) (l : List Address) (o : Option Bool)
    → bytes_eq k a ≡ false
    → ((n : AddressMap) → load (release n l) a ≡ load n a)
    → load (elim o [ none ↦ release m l | some b ↦ release (change m k false) l ]) a ≡ load m a
release_entry m k a l none h ih = ih m
release_entry m k a l (some b) h ih = ih (change m k false) ∙ load-change_other m k a false h

release_spared :
    (a : Address) (l : List Address)
    → any (λ k. bytes_eq k a) l ≡ false
    → (m : AddressMap) → load (release m l) a ≡ load m a
unfolding release
release_spared a [] h m = refl
release_spared a (k ∷ l) h m =
    release_entry m k a l (load m k) (ground arith) (release_spared a l (ground arith))

-- What a connection that is closed by a step has not among its addresses.
abbrev pub Spares : (a : Address) (cp cp' : Provider) → Step cp cp' → Type 0
Spares a _ _ (Step.closed cp before c after e) = any (λ k. bytes_eq k a) c.addresses ≡ false
Spares a _ _ (Step.found cp k) = Unit
Spares a _ _ (Step.listened cp conn) = Unit
Spares a _ _ (Step.established cp order dial) = Unit
Spares a _ _ (Step.addressed cp before c after new e) = Unit
Spares a _ _ (Step.cleared cp before c after e) = Unit

-- Steps in which no connection with the address is closed.
pub data Meanwhile (a : Address) (cp : Provider) : Provider → Type 0 where
  here : Meanwhile a cp cp
  later : (t u : Provider) → Meanwhile a cp t → (st : Step t u) → Spares a t u st → Meanwhile a cp u

used-connected :
    (cp : Provider) (a addr remote : Address) (b : Bool)
    → load cp.out_addrs a ≡ some b
    → (bytes_eq addr a ≡ false → b ≡ true)
    → load (connected cp addr remote).1.out_addrs a ≡ some true
used-connected cp a addr remote b h other =
    ap (λ m. load m a) (connected-out_addrs cp addr remote) ∙ elim (Bool-cases (bytes_eq addr a)) [
      | inl e ↦
          subst (λ k. load (change cp.out_addrs k true) a ≡ some true)
            (sym ((bytes_eq_iff addr a).0 e)) (load-change_same cp.out_addrs a b true h)
      | inr e ↦ load-change_other cp.out_addrs addr a true e ∙ h ∙ ap some (other e)
    ]

used-dialled :
    (cp : Provider) (a addr : Address) (is_used : Bool) (dial : Option Address)
    → load cp.out_addrs a ≡ some true
    → load (try_to_connect cp addr is_used dial).1.out_addrs a ≡ some true
unfolding try_to_connect dialled
used-dialled cp a addr true dial h = h
used-dialled cp a addr false none h = h
used-dialled cp a addr false (some remote) h = used-connected cp a addr remote true h (λ e. refl)

used-if :
    (x : Bool) (c d : Provider) (a : Address)
    → load c.out_addrs a ≡ some true
    → load d.out_addrs a ≡ some true
    → load (if x then c else d).out_addrs a ≡ some true
used-if true c d a h k = h
used-if false c d a h k = k

used-dial_all :
    (dial : Address → Option Address) (a : Address) (es : List Entry) (cp : Provider)
    → load cp.out_addrs a ≡ some true
    → load (dial_all dial es cp).out_addrs a ≡ some true
unfolding dial_all
used-dial_all dial a [] cp h = h
used-dial_all dial a (e ∷ es) cp h =
    let first = used-dialled cp a e.key e.is_used (dial e.key) h in
    used-if (try_to_connect cp e.key e.is_used (dial e.key)).0 _ _ a
      (used-dial_all dial a es _ first) first

used-listen :
    (cp : Provider) (conn : Option Address) (a : Address)
    → load cp.out_addrs a ≡ some true
    → load (listen cp conn).out_addrs a ≡ some true
unfolding listen
used-listen cp none a h = used-if (leb cp.max_in cp.in_count) cp cp a h h
used-listen cp (some remote) a h = used-if (leb cp.max_in cp.in_count) cp _ a h h

used-Step :
    (a : Address) (cp cp' : Provider) (st : Step cp cp')
    → Spares a cp cp' st
    → load cp.out_addrs a ≡ some true
    → load cp'.out_addrs a ≡ some true
unfolding establish close_connection
used-Step a _ _ (Step.found cp k) n h =
    load-address_found cp k a ∙ ap (λ o. or_unused o (bytes_eq k a)) h
used-Step a _ _ (Step.listened cp conn) n h = used-listen cp conn a h
used-Step a _ _ (Step.established cp order dial) n h =
    used-if (leb cp.max_out cp.out_count) cp _ a h (used-dial_all dial a order cp h)
used-Step a _ _ (Step.closed cp before c after e) n h =
    release_spared a c.addresses n cp.out_addrs ∙ h
used-Step a _ _ (Step.addressed cp before c after new e) n h = h
used-Step a _ _ (Step.cleared cp before c after e) n h = h

used-Meanwhile :
    (a : Address) (cp t : Provider)
    → load cp.out_addrs a ≡ some true
    → Meanwhile a cp t
    → load t.out_addrs a ≡ some true
used-Meanwhile a cp _ h Meanwhile.here = h
used-Meanwhile a cp _ h (Meanwhile.later t u m st n) =
    used-Step a t u st n (used-Meanwhile a cp t h m)

-- An address that the provider knows and connects to is used from then on, through all steps that
-- close no connection with that address. When a connection that has only the remote address of the
-- socket is closed after such steps, the address is released if it is that remote address, and
-- stays used if it is another one, as it is for the name of a host.
pub close_connection-connected :
    (cp : Provider) (addr remote : Address) (b : Bool)
    → load cp.out_addrs addr ≡ some b
    → (t : Provider) → Meanwhile addr (connected cp addr remote).1 t
    → (load t.out_addrs addr ≡ some true)
      × ((before after : List Connection) (c : Connection)
          → c.addresses ≡ remote ∷ []
          → load (close_connection t before c after).out_addrs addr
            ≡ some (if bytes_eq remote addr then false else true))
unfolding close_connection
close_connection-connected cp addr remote b h t m =
    let first =
      used-connected cp addr addr remote b h
        (λ e. let s = bytes_eq_refl addr in absurd (ground arith)) in
    let used = used-Meanwhile addr (connected cp addr remote).1 t first m in
    (
      used,
      λ before after c e.
          ap (λ l. load (release t.out_addrs l) addr) e
          ∙ release_one t.out_addrs remote addr true used,
    )
