-- ===== src/Network/PeerPool/Removing.antt =====
-- p2p/peer_pool.go: the list of peers without one of them.
use dscuss.Prelude.{
  fill_gap, fill_gap-perm, ℕ, ◌≡◌, refl, arith, Bool, true, false, List, [], ◌∷◌, any, ◌==◌,
  if◌then◌else◌,
}
use mathlib.Core.List.{Perm}
use mathlib.Core.List.Perm
use dscuss.Network.PeerPool.{Member, with_member, remove}

-- What `Remove` comes to.
pub data Removed (peers : List Member) (p : ℕ) : Bool × List Member → Type 0 where
  taken :
      (m : Member) (rest : List Member)
      → m.ptr ≡ p
      → Perm (m ∷ rest) peers
      → Removed peers p (true, rest)
  missing : any (λ m. m.ptr == p) peers ≡ false → Removed peers p (false, peers)

with_member-Removed :
    (m : Member) (ms : List Member) (p : ℕ) (r : Bool × List Member)
    → (m.ptr == p) ≡ false
    → Removed ms p r
    → Removed (m ∷ ms) p (with_member m r)
with_member-Removed m ms p r e (Removed.taken x rest q h) =
    Removed.taken x (m ∷ rest) q (Perm.trans (Perm.swap m x rest) (Perm.cons m h))
with_member-Removed m ms p r e (Removed.missing h) = Removed.missing (ground arith)

-- `Remove` takes one peer with the pointer out of the list and keeps the others, up to their order,
-- and says so; where no peer has the pointer, it changes nothing.
pub remove-Removed : (peers : List Member) (p : ℕ) → Removed peers p (remove peers p)
unfolding remove
remove-Removed [] p = Removed.missing refl
remove-Removed (m ∷ ms) p = by_ptr (m.ptr == p) refl (remove-Removed ms p)
  where
    by_ptr :
        (b : Bool)
        → (m.ptr == p) ≡ b
        → Removed ms p (remove ms p)
        → Removed (m ∷ ms) p (if b then (true, fill_gap ms) else with_member m (remove ms p))
    by_ptr true e ih = Removed.taken m (fill_gap ms) (ground arith) (Perm.cons m (fill_gap-perm ms))
    by_ptr false e ih = with_member-Removed m ms p (remove ms p) e ih
