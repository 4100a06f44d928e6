-- ===== src/Crypto/Proving/Finding.antt =====
-- crypto/pow.go: what `Find` returns.
use dscuss.Prelude.{
  ◌<◌, ℕ, ◌==◌, ==_iff, ◌≡◌, subst, arith, Bytes, Bool, true, false, Bool-cases, inl, inr, some,
  Result, ok, if◌then◌else◌,
}
use dscuss.Env.{Env}
use dscuss.Crypto.{validate_pow}
use dscuss.Crypto.Proving.{
  Phase, looping, finished, selecting, validating, sending, Search, new_search, set_phase, Step,
  Reached, HasReturned, Later,
}

-- What is sent and what is received is a proof.
abbrev Proves : Env → Bytes → Phase → Type 0
Proves env bytes looping = Unit
Proves env bytes finished = Unit
Proves env bytes (selecting n) = Unit
Proves env bytes (validating n) = Unit
Proves env bytes (sending n) = validate_pow env bytes n ≡ true

record IsProven (env : Env) (bytes : Bytes) (s : Search) : Type 0 where
  phases : (i : ℕ) → Proves env bytes (s.phases i)
  proof : (n : ℕ) → s.proof ≡ some n → validate_pow env bytes n ≡ true

Proves-set :
    (env : Env) (bytes : Bytes) (s : Search) (i j : ℕ) (p : Phase)
    → Proves env bytes p
    → ((j : ℕ) → Proves env bytes (s.phases j))
    → Proves env bytes (if j == i then p else s.phases j)
Proves-set env bytes s i j p h hs = pick (j == i)
  where
    pick : (b : Bool) → Proves env bytes (if b then p else s.phases j)
    pick true = h
    pick false = hs j

Step-IsProven :
    (env : Env) (bytes : Bytes) (s t : Search)
    → IsProven env bytes s
    → Step env bytes s t
    → IsProven env bytes t
unfolding dscuss.Crypto.Proving.take_nonce dscuss.Crypto.Proving.receive
Step-IsProven env bytes _ _ h (Step.took s i e) = record {
  phases = λ j. Proves-set env bytes s i j (selecting _) tt h.phases;
  proof = h.proof;
}
Step-IsProven env bytes _ _ h (Step.left s i n e f) = record {
  phases = λ j. Proves-set env bytes s i j finished tt h.phases;
  proof = h.proof;
}
Step-IsProven env bytes _ _ h (Step.passed s i n e f) = record {
  phases = λ j. Proves-set env bytes s i j (validating n) tt h.phases;
  proof = h.proof;
}
Step-IsProven env bytes _ _ h (Step.failed s i n e f) = record {
  phases = λ j. Proves-set env bytes s i j looping tt h.phases;
  proof = h.proof;
}
Step-IsProven env bytes _ _ h (Step.found s i n e v) = record {
  phases = λ j. Proves-set env bytes s i j (sending n) v h.phases;
  proof = h.proof;
}
Step-IsProven env bytes _ _ h (Step.received s i n e f) =
    let v : validate_pow env bytes n ≡ true = subst (Proves env bytes) e (h.phases i) in
    record {
      phases = λ j. Proves-set env bytes s i j finished tt h.phases;
      proof = λ m q. subst (λ k. validate_pow env bytes k ≡ true) (ground arith) v;
    }
Step-IsProven env bytes _ _ h (Step.closed s n e) = record { phases = h.phases; proof = h.proof }

Reached-IsProven :
    (env : Env) (bytes : Bytes) (s : Search) → Reached env bytes s → IsProven env bytes s
unfolding new_search
Reached-IsProven env bytes _ Reached.start = record {
  phases = λ i. tt;
  proof = λ n e. absurd (ground arith);
}
Reached-IsProven env bytes _ (Reached.step s t r st) =
    Step-IsProven env bytes s t (Reached-IsProven env bytes s r) st

-- In whatever order the workers run, what `Find` returns passes `Validate`, and is not 0.
pub find_proof :
    (env : Env) (bytes : Bytes) (cpus : ℕ) (s : Search)
    → Reached env bytes s
    → (n : ℕ) → HasReturned cpus s (ok n)
    → (validate_pow env bytes n ≡ true) × ((n == 0) ≡ false)
find_proof env bytes cpus s r n (m, e, stopped, fin, q) = elim (Bool-cases (m == 0)) [
  | inl z ↦ absurd (ground (arith, z, q))
  | inr z ↦
      let same : m ≡ n = ground (arith, z, q) in
      subst (λ k. (validate_pow env bytes k ≡ true) × ((k == 0) ≡ false)) same
        ((Reached-IsProven env bytes s r).proof m e, z)
]

-- A worker that is still to send when the proof has been received.
abbrev pub IsStuck : ℕ → ℕ → Search → Type 0
IsStuck i m s = (n : ℕ) × (s.proof ≡ some n) × (s.phases i ≡ sending m)

stay :
    (s : Search) (i j m : ℕ) (q : Phase)
    → s.phases i ≡ sending m
    → (s.phases j ≡ sending m → q ≡ sending m)
    → (if i == j then q else s.phases i) ≡ sending m
stay s i j m q h f = elim (Bool-cases (i == j)) [
  | inl e ↦ rw e (f (subst (λ k. s.phases k ≡ sending m) ((==_iff i j).0 e) h))
  | inr e ↦ rw e h
]

Step-IsStuck :
    (env : Env) (bytes : Bytes) (i m : ℕ) (s t : Search)
    → IsStuck i m s
    → Step env bytes s t
    → IsStuck i m t
unfolding dscuss.Crypto.Proving.take_nonce dscuss.Crypto.Proving.receive
Step-IsStuck env bytes i m _ _ (n, p, h) (Step.took s j e) =
    (n, p, stay s i j m (selecting _) h (λ c. absurd (ground arith)))
Step-IsStuck env bytes i m _ _ (n, p, h) (Step.left s j k e f) =
    (n, p, stay s i j m finished h (λ c. absurd (ground arith)))
Step-IsStuck env bytes i m _ _ (n, p, h) (Step.passed s j k e f) =
    (n, p, stay s i j m (validating k) h (λ c. absurd (ground arith)))
Step-IsStuck env bytes i m _ _ (n, p, h) (Step.failed s j k e f) =
    (n, p, stay s i j m looping h (λ c. absurd (ground arith)))
Step-IsStuck env bytes i m _ _ (n, p, h) (Step.found s j k e v) =
    (n, p, stay s i j m (sending k) h (λ c. absurd (ground arith)))
Step-IsStuck env bytes i m _ _ (n, p, h) (Step.received s j k e f) = absurd (ground arith)
Step-IsStuck env bytes i m _ _ (n, p, h) (Step.closed s k e) = (n, p, h)

Later-IsStuck :
    (env : Env) (bytes : Bytes) (i m : ℕ) (s t : Search)
    → IsStuck i m s
    → Later env bytes s t
    → IsStuck i m t
Later-IsStuck env bytes i m s _ h Later.here = h
Later-IsStuck env bytes i m s _ h (Later.after t u l st) =
    Step-IsStuck env bytes i m t u (Later-IsStuck env bytes i m s t h l) st

-- If one of the workers of `Find` is still to send a proof when another proof has been received, then
-- `Find` does not return, whatever steps follow.
pub find_stuck :
    (env : Env) (bytes : Bytes) (cpus i m : ℕ) (s : Search)
    → IsStuck i m s
    → i < cpus
    → (t : Search) → Later env bytes s t
    → (r : Result ℕ) → ¬ HasReturned cpus t r
find_stuck env bytes cpus i m s h b t l r (n, e, stopped, fin, q) =
    let (k, p, sends) = Later-IsStuck env bytes i m s t h l in
    let ended = fin i b in absurd (ground (arith, sends, ended))
