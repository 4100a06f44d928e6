-- ===== src/Witnesses/OfProofs.antt =====
-- The search for a proof of work at concrete values.
use dscuss.Prelude.{ℕ, zero, suc, ◌<◌, ◌==◌, ◌≡◌, refl, arith, Bytes, codes, true, false, ok}
use dscuss.Crypto.{validate_pow}
use dscuss.Crypto.Proving.{
  finished, validating, sending, Search, new_search, set_phase, take_nonce, receive, Step, Reached,
  Later, HasReturned,
}
use dscuss.Crypto.Proving.Finding.{find_proof, find_stuck, IsStuck}
use dscuss.Witnesses.Samples.{sample_env}

abbrev user_bytes : Bytes
user_bytes = codes "user"

abbrev first_taken : Search
first_taken = take_nonce new_search 0

abbrev first_found : Search
first_found = set_phase (set_phase first_taken 0 (validating 1)) 0 (sending 1)

abbrev first_received : Search
first_received = record (receive first_found 0 1) { is_stopped = true }

first-Reached : Reached sample_env user_bytes first_received
unfolding new_search take_nonce receive validate_pow
first-Reached =
    Reached.step _ _
      (Reached.step _ _
        (Reached.step _ _
          (Reached.step _ _ (Reached.step _ _ Reached.start (Step.took new_search 0 refl))
            (Step.passed first_taken 0 1 refl refl))
          (Step.found (set_phase first_taken 0 (validating 1)) 0 1 refl refl))
        (Step.received first_found 0 1 refl refl))
      (Step.closed (receive first_found 0 1) 1 refl)

first-HasReturned : HasReturned 1 first_received (ok 1)
unfolding new_search take_nonce receive
first-HasReturned = (1, refl, refl, ended, refl)
  where
    ended : (i : ℕ) → i < 1 → first_received.phases i ≡ finished
    ended zero b = refl
    ended (suc i) b = absurd (omega arith)

find_proof_example : (validate_pow sample_env user_bytes 1 ≡ true) × ((1 == 0) ≡ false)
find_proof_example =
    find_proof sample_env user_bytes 1 first_received first-Reached 1 first-HasReturned

-- A second worker has found a proof before the first one's was received.
abbrev both_found : Search
both_found = set_phase first_found 1 (sending 2)

both-IsStuck : IsStuck 1 2 (receive both_found 0 1)
unfolding new_search take_nonce receive
both-IsStuck = (1, refl, refl)

find_stuck_example : ¬ HasReturned 2 (receive both_found 0 1) (ok 1)
find_stuck_example =
    find_stuck sample_env user_bytes 2 1 2 (receive both_found 0 1) both-IsStuck (omega arith)
      (receive both_found 0 1) Later.here (ok 1)
