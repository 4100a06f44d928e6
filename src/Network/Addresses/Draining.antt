-- ===== src/Network/Addresses/Draining.antt =====
-- p2p/dht_crawler.go: draining the results of the DHT.
use dscuss.Prelude.{
  ◌≡◌, refl, ap, sym, ◌∙◌, Bytes, Bool, true, false, List, [], ◌∷◌, ◌++◌, Result, ok, err, fatal,
  ◌>>=◌,
}
use std.Path.{fun_ext}
use dscuss.Network.ConnectionProvider.{Address, load}
use dscuss.Network.Addresses.{
  Libraries, Crawler, Sighting, DrainTurn, stopped, results, handle_new_address, handle_peers,
  handle_result, drain_addresses,
}
use dscuss.Network.Addresses.Knowing.{or_unused}
use dscuss.Network.Addresses.Local.{HasPort}
use dscuss.Network.Addresses.Crawling.{is_news, handle_peers-Handled}

bind_assoc :
    {A B C : Type 0} (r : Result A) (f : A → Result B) (g : B → Result C)
    → r >>= (λ a. f a >>= g) ≡ r >>= f >>= g
bind_assoc (ok a) f g = refl
bind_assoc (err e) f g = refl
bind_assoc fatal f g = refl

handle_peers-append :
    (lib : Libraries) (dc : Crawler) (xs ys : List Sighting)
    → handle_peers lib dc (xs ++ ys) ≡ handle_peers lib dc xs >>= (λ d. handle_peers lib d ys)
unfolding handle_peers
handle_peers-append lib dc [] ys = refl
handle_peers-append lib dc (x ∷ xs) ys =
    let first = handle_new_address lib x.0 dc (lib.decode_peer_address x.1) in
    ap (λ f. first >>= f) (fun_ext (λ d. handle_peers-append lib d xs ys))
    ∙ bind_assoc first (λ d. handle_peers lib d xs) (λ d. handle_peers lib d ys)

-- The sightings of a result, and those of all the turns before the stop.
abbrev pub sightings_of : List (Bytes × List Sighting) → List Sighting
sightings_of [] = []
sightings_of (r ∷ rs) = r.1 ++ sightings_of rs

abbrev pub sightings : List DrainTurn → List Sighting
sightings [] = []
sightings (stopped ∷ ts) = []
sightings (results r ∷ ts) = sightings_of r ++ sightings ts

abbrev pub has_stopped : List DrainTurn → Bool
has_stopped [] = false
has_stopped (stopped ∷ ts) = true
has_stopped (results r ∷ ts) = has_stopped ts

handle_result-sightings :
    (lib : Libraries) (rs : List (Bytes × List Sighting)) (dc : Crawler)
    → handle_result lib dc rs ≡ handle_peers lib dc (sightings_of rs)
unfolding handle_result handle_peers
handle_result-sightings lib [] dc = refl
handle_result-sightings lib (r ∷ rs) dc =
    ap (λ f. handle_peers lib dc r.1 >>= f) (fun_ext (λ d. handle_result-sightings lib rs d))
    ∙ sym (handle_peers-append lib dc r.1 (sightings_of rs))

drain-sightings :
    (lib : Libraries) (ts : List DrainTurn) (dc : Crawler)
    → drain_addresses lib dc ts
      ≡ handle_peers lib dc (sightings ts) >>= (λ d. ok (has_stopped ts, d))
unfolding drain_addresses handle_peers
drain-sightings lib [] dc = refl
drain-sightings lib (stopped ∷ ts) dc = refl
drain-sightings lib (results r ∷ ts) dc =
    ap (λ q. q >>= (λ d. drain_addresses lib d ts)) (handle_result-sightings lib r dc)
    ∙ ap (λ f. handle_peers lib dc (sightings_of r) >>= f) (fun_ext (λ d. drain-sightings lib ts d))
    ∙ bind_assoc (handle_peers lib dc (sightings_of r)) (λ d. handle_peers lib d (sightings ts))
        (λ d. ok (has_stopped ts, d))
    ∙ ap (λ q. q >>= (λ d. ok (has_stopped ts, d)))
        (sym (handle_peers-append lib dc (sightings_of r) (sightings ts)))

-- Draining the results of the DHT never panics, if a valid address has a colon. An address that the
-- crawler has not processed becomes known to the provider exactly if it is valid and its first
-- sighting, among all before the stop, finds it to be of another node; the entries of the addresses
-- that the provider knew stay as they were.
pub drain_addresses_lem :
    (lib : Libraries)
    → HasPort lib
    → (dc : Crawler) (ts : List DrainTurn)
    → (dc' : Crawler) × (drain_addresses lib dc ts ≡ ok (has_stopped ts, dc'))
      × ((a : Address)
          → load dc'.ac.out_addrs a
            ≡ or_unused
                (load dc.ac.out_addrs a)
                (is_news lib dc.adv_port dc.processed (sightings ts) a))
drain_addresses_lem lib l dc ts =
    let t = handle_peers-Handled lib l (sightings ts) dc in
    (
      t.after,
      drain-sightings lib ts dc ∙ ap (λ q. q >>= (λ d. ok (has_stopped ts, d))) t.returns,
      t.entries,
    )
