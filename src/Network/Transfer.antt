-- ===== src/Network/Transfer.antt =====
-- p2p/connection/io.go: the limits on what is read from and written to a socket.
use dscuss.Prelude.{
  ℕ, ◌+◌, ◌-◌, ◌*◌, ◌≤◌, ◌≡◌, arith, ◌||◌, Bool-cases, inl, inr, List, [], ◌∷◌, ltb, ◌==◌,
  if◌then◌else◌, Option, some, Error, packet_size_exceeded,
}

abbrev pub max_packet_size : ℕ
max_packet_size = 10 * 1024

-- A call of `Read` or `Write`: the size of the buffer, and what the underlying reader or writer would
-- return for it.
pub record Call : Type 0 where
  pub size : ℕ
  pub moved : ℕ
  pub error : Option Error

-- The limit of io.Reader and io.Writer: they do not move more than the buffer holds.
pub record Fits (c : Call) : Type 0 where
  pub within : c.moved ≤ c.size

-- `limitedReader.Read` and `limitedWriter.Write`, with the field `N`; what is returned, and the new
-- `N`.
unfoldable pub limited : ℕ → Call → (ℕ × Option Error) × ℕ
limited n c =
    if (n == 0) || ltb n c.size
    then ((0, some packet_size_exceeded), n)
    else ((c.moved, c.error), n - c.moved)

-- The calls for one packet, one after the other: the bytes that are moved, and the last `N`.
unfoldable pub transfer : ℕ → List Call → ℕ × ℕ
unfolding limited
transfer n [] = (0, n)
transfer n (c ∷ cs) =
    let (r, n') = limited n c in let (moved, left) = transfer n' cs in (r.0 + moved, left)

-- The calls whose underlying reader or writer keeps to its limit.
pub data AllFit : List Call → Type 0 where
  no_call : AllFit []
  call : (c : Call) (cs : List Call) → Fits c → AllFit cs → AllFit (c ∷ cs)

limited-sum : (n : ℕ) (c : Call) → Fits c → (limited n c).0.0 + (limited n c).1 ≡ n
unfolding limited
limited-sum n c f = elim (Bool-cases ((n == 0) || ltb n c.size)) [
  | inl e ↦ rw e (omega arith)
  | inr e ↦ let room : c.size ≤ n = ground arith in rw e (omega (arith, f.within))
]

-- What is moved by the calls for one packet, and what is left of the limit after them, make up the
-- limit, if the underlying reader or writer does not move more than its buffer holds: so a packet
-- never takes more bytes than the limit.
pub transfer_bounded :
    (n : ℕ) (cs : List Call)
    → AllFit cs
    → ((transfer n cs).0 + (transfer n cs).1 ≡ n) × ((transfer n cs).0 ≤ n)
unfolding transfer
transfer_bounded n cs f = let e = sum n cs f in (e, omega arith)
  where
    sum : (n : ℕ) (cs : List Call) → AllFit cs → (transfer n cs).0 + (transfer n cs).1 ≡ n
    sum n cs AllFit.no_call = omega arith
    sum n cs (AllFit.call c ds v w) = omega (arith, limited-sum n c v, sum (limited n c).1 ds w)
