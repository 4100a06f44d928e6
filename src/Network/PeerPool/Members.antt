-- ===== src/Network/PeerPool/Members.antt =====
-- p2p/peer_pool.go: which peers are in the list.
use dscuss.Prelude.{
  fill_gap, move_last, ℕ, ◌≡◌, refl, Bool, true, false, inl, inr, ◌⊎◌, List, [], ◌∷◌, ◌++◌, map,
  Memᴰ, ◌==◌, if◌then◌else◌,
}
use dscuss.Network.PeerPool.{Member, with_member, remove, remove_if, remove_gone}

pub mem-snoc :
    (ms : List Member) (m : Member) {a : Member} → Memᴰ a (ms ++ m ∷ []) → Memᴰ a ms ⊎ (a ≡ m)
mem-snoc [] m (Memᴰ.head e) = inr e
mem-snoc [] m (Memᴰ.tail i) = elim i [ ]
mem-snoc (x ∷ ms) m (Memᴰ.head e) = inl (Memᴰ.head e)
mem-snoc (x ∷ ms) m (Memᴰ.tail i) = elim (mem-snoc ms m i) [
  | inl j ↦ inl (Memᴰ.tail j)
  | inr e ↦ inr e
]

pub mem-map :
    (f : Member → Member) (ms : List Member) {a : Member}
    → Memᴰ a (map f ms)
    → (m : Member) × Memᴰ m ms × (a ≡ f m)
mem-map f [] i = elim i [ ]
mem-map f (x ∷ ms) (Memᴰ.head e) = (x, Memᴰ.head refl, e)
mem-map f (x ∷ ms) (Memᴰ.tail i) = let (m, j, e) = mem-map f ms i in (m, Memᴰ.tail j, e)

mem-move_last :
    (x : Member) (acc ms : List Member) {a : Member}
    → Memᴰ a (move_last x acc ms)
    → (a ≡ x) ⊎ (Memᴰ a acc ⊎ Memᴰ a ms)
mem-move_last x acc [] (Memᴰ.head e) = inl e
mem-move_last x acc [] (Memᴰ.tail i) = inr (inl i)
mem-move_last x acc (m ∷ ms) i = elim (mem-move_last m (acc ++ x ∷ []) ms i) [
  | inl e ↦ inr (inr (Memᴰ.head e))
  | inr (inl j) ↦ elim (mem-snoc acc x j) [ inl k ↦ inr (inl k) | inr e ↦ inl e ]
  | inr (inr j) ↦ inr (inr (Memᴰ.tail j))
]

mem-fill_gap : (ms : List Member) {a : Member} → Memᴰ a (fill_gap ms) → Memᴰ a ms
mem-fill_gap [] i = i
mem-fill_gap (m ∷ ms) i = elim (mem-move_last m [] ms i) [
  | inl e ↦ Memᴰ.head e
  | inr (inl j) ↦ elim j [ ]
  | inr (inr j) ↦ Memᴰ.tail j
]

mem-remove : (ms : List Member) (p : ℕ) {a : Member} → Memᴰ a (remove ms p).1 → Memᴰ a ms
unfolding remove
mem-remove [] p i = i
mem-remove (m ∷ ms) p {a} i = by_ptr (m.ptr == p) (remove ms p) (mem-remove ms p) i
  where
    by_ptr :
        (b : Bool) (r : Bool × List Member)
        → (Memᴰ a r.1 → Memᴰ a ms)
        → Memᴰ a (if b then (true, fill_gap ms) else with_member m r).1
        → Memᴰ a (m ∷ ms)
    by_ptr true r ih j = Memᴰ.tail (mem-fill_gap ms j)
    by_ptr false (f, rest) ih (Memᴰ.head e) = Memᴰ.head e
    by_ptr false (f, rest) ih (Memᴰ.tail j) = Memᴰ.tail (ih j)

pub mem-remove_gone :
    (seen ms : List Member) {a : Member} → Memᴰ a (remove_gone seen ms) → Memᴰ a ms
unfolding remove_gone
mem-remove_gone [] ms i = i
mem-remove_gone (s ∷ seen) ms i =
    by_flag s.is_gone (mem-remove_gone seen (remove_if s.is_gone ms s.ptr) i)
  where
    by_flag : (b : Bool) {a : Member} → Memᴰ a (remove_if b ms s.ptr) → Memᴰ a ms
    by_flag true j = mem-remove ms s.ptr j
    by_flag false j = j
