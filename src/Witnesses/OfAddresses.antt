-- ===== src/Witnesses/OfAddresses.antt =====
-- The providers of addresses at concrete values.
use dscuss.Prelude.{
  ◌≡◌, arith, codes, bytes_eq, true, false, not, ◌&&◌, any, all, ◌==◌, Bool-cases, inl, inr, List,
  [], ◌∷◌, none, some, ok, fatal, pos,
}
use dscuss.Network.ConnectionProvider.{Address, Provider, load, new}
use dscuss.Network.Addresses.{
  Libraries, Crawler, Scanned, DrainTurn, results, stopped, colon, is_valid, read_addresses,
  drain_addresses, ip_net,
}
use dscuss.Network.Addresses.Knowing.{or_unused}
use dscuss.Network.Addresses.Listing.{read_addresses_lem}
use dscuss.Network.Addresses.Local.{HasPort}
use dscuss.Network.Addresses.Crawling.{is_news}
use dscuss.Network.Addresses.Draining.{sightings, has_stopped, drain_addresses_lem}

-- A pattern matches what has a colon; every port is 8004; an IP and an encoded peer are texts.
abbrev sample_libraries : Libraries
sample_libraries = record {
  match_string = λ p a. any (λ b. b == colon) a;
  atoi = λ s. some (pos 8004);
  ip_string = λ ip. ip;
  sha1 = λ s. s;
  decode_peer_address = λ x. x;
  decode_info_hash = λ s. some s;
}

sample_libraries-HasPort : HasPort sample_libraries
unfolding is_valid
sample_libraries-HasPort a h = elim (Bool-cases (any (λ b. b == colon) a)) [
  | inl c ↦ c
  | inr c ↦ absurd (ground arith)
]

abbrev two_lines : Scanned
two_lines = record { lines = codes "10.0.0.1:8004" ∷ codes "junk" ∷ []; has_failed = false }

read_addresses_lem_example :
    ((all (is_valid sample_libraries) two_lines.lines && not two_lines.has_failed) ≡ true
      → (cp' : Provider) × (read_addresses sample_libraries (some two_lines) (new 1 1) ≡ ok cp')
        × ((a : Address)
            → load cp'.out_addrs a
              ≡ or_unused
                  (load (new 1 1).out_addrs a)
                  (any (λ line. bytes_eq line a) two_lines.lines)))
    × ((all (is_valid sample_libraries) two_lines.lines && not two_lines.has_failed) ≡ false
        → read_addresses sample_libraries (some two_lines) (new 1 1) ≡ fatal)
read_addresses_lem_example = read_addresses_lem sample_libraries two_lines (new 1 1)

abbrev sample_crawler : Crawler
sample_crawler = record { adv_port = pos 8004; subs = []; processed = []; ac = new 1 1 }

-- The address of the node itself, seen before and after its interface is up, and that of a peer.
abbrev sample_turns : List DrainTurn
sample_turns =
    results
      ((codes "hash", (none, codes "10.0.0.2:8004") ∷ (none, codes "10.0.0.1:8004") ∷ []) ∷ [])
    ∷ results (
        (
          codes "hash",
          (some (some (ip_net (codes "10.0.0.1") ∷ []) ∷ []), codes "10.0.0.1:8004") ∷ [],
        )
        ∷ [])
    ∷ stopped
    ∷ []

drain_addresses_lem_example :
    (dc' : Crawler) × (drain_addresses sample_libraries sample_crawler sample_turns
      ≡ ok (has_stopped sample_turns, dc'))
    × ((a : Address)
        → load dc'.ac.out_addrs a
          ≡ or_unused (load sample_crawler.ac.out_addrs a) (
              is_news sample_libraries sample_crawler.adv_port sample_crawler.processed
                (sightings sample_turns)
                a))
drain_addresses_lem_example =
    drain_addresses_lem sample_libraries sample_libraries-HasPort sample_crawler sample_turns
