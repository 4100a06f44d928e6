-- ===== src/Crypto/Proving.antt =====
-- crypto/pow.go: the search for a proof of work, as steps of `Find` and its workers in any order.
pub mod Finding
use dscuss.Prelude.{
  ℕ, ◌+◌, ◌%◌, ◌^◌, ◌==◌, ◌≡◌, Bytes, Bool, true, false, Option, none, some, Result, ok, fatal,
  if◌then◌else◌, ◌<◌,
}
use dscuss.Env.{Env}
use dscuss.Crypto.{validate_pow}

-- Where a worker is: at the head of its loop; before the select, with its nonce; in `Validate`; at
-- the sending of the proof; after its end.
pub data Phase : Type 0 where
  looping finished : Phase
  selecting validating sending : ℕ → Phase

-- The counter that the workers share, what `Find` has read from resultChan, and whether stopChan is
-- closed.
pub record Search : Type 0 where
  pub counter : ℕ
  pub phases : ℕ → Phase
  pub proof : Option ℕ
  pub is_stopped : Bool

unfoldable pub new_search : Search
new_search = record { counter = 0; phases = λ i. looping; proof = none; is_stopped = false }

abbrev pub set_phase : Search → ℕ → Phase → Search
set_phase s i p = record s { phases = λ j. if j == i then p else s.phases j }

-- The outer `nonce` of the loop stays 0, so the loop goes on; the counter is of 64 bits.
unfoldable pub take_nonce : Search → ℕ → Search
take_nonce s i =
    let nonce = (s.counter + 1) % 2 ^ 64 in
    record (set_phase s i (selecting nonce)) { counter = nonce }

unfoldable pub receive : Search → ℕ → ℕ → Search
receive s i nonce = record (set_phase s i finished) { proof = some nonce }

-- The steps of the workers, each with its number, and of `Find`.
pub data Step (env : Env) (bytes : Bytes) : Search → Search → Type 0 where
  took : (s : Search) (i : ℕ) → s.phases i ≡ looping → Step env bytes s (take_nonce s i)
  left :
      (s : Search) (i n : ℕ)
      → s.phases i ≡ selecting n
      → s.is_stopped ≡ true
      → Step env bytes s (set_phase s i finished)
  passed :
      (s : Search) (i n : ℕ)
      → s.phases i ≡ selecting n
      → s.is_stopped ≡ false
      → Step env bytes s (set_phase s i (validating n))
  failed :
      (s : Search) (i n : ℕ)
      → s.phases i ≡ validating n
      → validate_pow env bytes n ≡ false
      → Step env bytes s (set_phase s i looping)
  found :
      (s : Search) (i n : ℕ)
      → s.phases i ≡ validating n
      → validate_pow env bytes n ≡ true
      → Step env bytes s (set_phase s i (sending n))
  received :
      (s : Search) (i n : ℕ)
      → s.phases i ≡ sending n
      → s.proof ≡ none
      → Step env bytes s (receive s i n)
  closed :
      (s : Search) (n : ℕ) → s.proof ≡ some n → Step env bytes s (record s { is_stopped = true })

pub data Reached (env : Env) (bytes : Bytes) : Search → Type 0 where
  start : Reached env bytes new_search
  step : (s t : Search) → Reached env bytes s → Step env bytes s t → Reached env bytes t

-- The states that follow one in which the search is.
pub data Later (env : Env) (bytes : Bytes) (s : Search) : Search → Type 0 where
  here : Later env bytes s s
  after : (t u : Search) → Later env bytes s t → Step env bytes t u → Later env bytes s u

-- `Find` returns the proof once `cpus` workers have ended; a proof 0 is log.Fatal.
abbrev pub HasReturned : ℕ → Search → Result ℕ → Type 0
HasReturned cpus s r =
    (n : ℕ) × (s.proof ≡ some n)
    × (s.is_stopped ≡ true)
    × ((i : ℕ) → i < cpus → s.phases i ≡ finished)
    × (r ≡ (if n == 0 then fatal else ok n))
