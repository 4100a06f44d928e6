-- ===== src/Network/Addresses/Crawling.antt =====
-- p2p/dht_crawler.go: what the crawler hands on of the peers that it sees.
use dscuss.Prelude.{
  ◌≡◌, refl, ap, sym, ◌∙◌, subst, arith, bytes_eq, bytes_eq_iff, Bool, true, false, not, ◌&&◌, ◌||◌,
  any, find, Bool-cases, inl, inr, List, [], ◌∷◌, Option, none, some, ok, if◌then◌else◌, ℤ,
}
use dscuss.Network.ConnectionProvider.{Address, load, address_found}
use dscuss.Network.Addresses.{
  Libraries, Crawler, Interfaces, Sighting, is_valid, handle_new_address, handle_peers,
}
use dscuss.Network.Addresses.Knowing.{or_unused, or_unused-false, or_unused-or, load-address_found}
use dscuss.Network.Addresses.Local.{HasPort, is_own, is_address_local_total}

-- The first sighting of an address decides: it is of another node.
abbrev pub is_other : Libraries → ℤ → Address → Option Sighting → Bool
is_other lib port a none = false
is_other lib port a (some x) = not (is_own lib port x.0 a)

-- Whether the sightings make an address one to hand on.
abbrev pub is_news : Libraries → ℤ → List Address → List Sighting → Address → Bool
is_news lib port processed xs a =
    not (any (λ k. bytes_eq k a) processed)
    && (is_valid lib a
        && is_other lib port a (find (λ x. bytes_eq (lib.decode_peer_address x.1) a) xs))

-- One address: what the provider knows after it, and what is processed.
handle_unchanged :
    (lib : Libraries) (is : Interfaces) (dc : Crawler) (a : Address)
    → (is_valid lib a && not (any (λ k. bytes_eq k a) dc.processed)) ≡ false
    → handle_new_address lib is dc a ≡ ok dc
unfolding handle_new_address
handle_unchanged lib is dc a h = elim (Bool-cases (is_valid lib a)) [
  | inl v ↦ let p : any (λ k. bytes_eq k a) dc.processed ≡ true = ground arith in rw (v, p) refl
  | inr v ↦ rw v refl
]

abbrev next_crawler : Libraries → Interfaces → Crawler → Address → Crawler
next_crawler lib is dc a = record dc {
  ac = if is_own lib dc.adv_port is a then dc.ac else address_found dc.ac a;
  processed = a ∷ dc.processed;
}

handle_processed :
    (lib : Libraries)
    → HasPort lib
    → (is : Interfaces) (dc : Crawler) (a : Address)
    → (is_valid lib a && not (any (λ k. bytes_eq k a) dc.processed)) ≡ true
    → handle_new_address lib is dc a ≡ ok (next_crawler lib is dc a)
unfolding handle_new_address
handle_processed lib l is dc a h =
    let v : is_valid lib a ≡ true = ground arith in
    let p : any (λ k. bytes_eq k a) dc.processed ≡ false = ground arith in
    rw (v, p, is_address_local_total lib is a dc.adv_port (l a v)) refl

load-handed :
    (is_own : Bool) (dc : Crawler) (x a : Address)
    → load (if is_own then dc.ac else address_found dc.ac x).out_addrs a
      ≡ or_unused (load dc.ac.out_addrs a) (bytes_eq x a && not is_own)
load-handed false dc x a = elim (Bool-cases (bytes_eq x a)) [
  | inl s ↦ rw (load-address_found dc.ac x a, s) refl
  | inr s ↦ rw (load-address_found dc.ac x a, s) refl
]
load-handed true dc x a = elim (Bool-cases (bytes_eq x a)) [
  | inl s ↦ rw s (sym (or_unused-false (load dc.ac.out_addrs a)))
  | inr s ↦ rw s (sym (or_unused-false (load dc.ac.out_addrs a)))
]

-- What is handed on after the sightings, in all that follow `x` and at `x` itself.
is_news-unchanged :
    (lib : Libraries) (port : ℤ) (processed : List Address) (x : Sighting) (xs : List Sighting)
    (a : Address)
    → (is_valid lib (lib.decode_peer_address x.1)
        && not (any (λ k. bytes_eq k (lib.decode_peer_address x.1)) processed))
      ≡ false
    → is_news lib port processed (x ∷ xs) a ≡ is_news lib port processed xs a
is_news-unchanged lib port processed x xs a h =
    elim (Bool-cases (bytes_eq (lib.decode_peer_address x.1) a)) [
      | inl s ↦
          let at_a : (is_valid lib a && not (any (λ k. bytes_eq k a) processed)) ≡ false =
            subst (λ y. (is_valid lib y && not (any (λ k. bytes_eq k y) processed)) ≡ false)
              ((bytes_eq_iff (lib.decode_peer_address x.1) a).0 s) h in
          elim (Bool-cases (is_valid lib a)) [
            | inl v ↦ let p : any (λ k. bytes_eq k a) processed ≡ true = ground arith in rw p refl
            | inr v ↦ rw v refl
          ]
      | inr s ↦ rw s refl
    ]

is_news-processed :
    (lib : Libraries) (port : ℤ) (processed : List Address) (x : Sighting) (xs : List Sighting)
    (a : Address)
    → (is_valid lib (lib.decode_peer_address x.1)
        && not (any (λ k. bytes_eq k (lib.decode_peer_address x.1)) processed))
      ≡ true
    → is_news lib port processed (x ∷ xs) a ≡ (
        (bytes_eq (lib.decode_peer_address x.1) a
          && not (is_own lib port x.0 (lib.decode_peer_address x.1)))
        || is_news lib port (lib.decode_peer_address x.1 ∷ processed) xs a)
is_news-processed lib port processed x xs a h =
    elim (Bool-cases (bytes_eq (lib.decode_peer_address x.1) a)) [
      | inl s ↦
          let e = (bytes_eq_iff (lib.decode_peer_address x.1) a).0 s in
          let at_a : (is_valid lib a && not (any (λ k. bytes_eq k a) processed)) ≡ true =
            subst (λ y. (is_valid lib y && not (any (λ k. bytes_eq k y) processed)) ≡ true) e h in
          let v : is_valid lib a ≡ true = ground arith in
          let p : any (λ k. bytes_eq k a) processed ≡ false = ground arith in
          let own = ap (is_own lib port x.0) e in
          elim (Bool-cases (is_own lib port x.0 a)) [
            | inl o ↦ let o' = own ∙ o in rw (s, p, v, o, o') refl
            | inr o ↦ let o' = own ∙ o in rw (s, p, v, o, o') refl
          ]
      | inr s ↦ rw s refl
    ]

-- The sightings are handled: no panic, and the entries of the provider after them.
pub record Handled (lib : Libraries) (dc : Crawler) (xs : List Sighting) : Type 0 where
  pub after : Crawler
  pub returns : handle_peers lib dc xs ≡ ok after
  pub entries :
      (a : Address)
      → load after.ac.out_addrs a
        ≡ or_unused (load dc.ac.out_addrs a) (is_news lib dc.adv_port dc.processed xs a)

never : (p v : Bool) → (not p && (v && false)) ≡ false
never true v = refl
never false true = refl
never false false = refl

pub handle_peers-Handled :
    (lib : Libraries) → HasPort lib → (xs : List Sighting) (dc : Crawler) → Handled lib dc xs
unfolding handle_peers
handle_peers-Handled lib l [] dc = record {
  after = dc;
  returns = refl;
  entries = λ a. sym (
      ap (or_unused (load dc.ac.out_addrs a))
        (never (any (λ k. bytes_eq k a) dc.processed) (is_valid lib a))
      ∙ or_unused-false (load dc.ac.out_addrs a));
}
handle_peers-Handled lib l (x ∷ xs) dc =
    let y = lib.decode_peer_address x.1 in
    elim (Bool-cases (is_valid lib y && not (any (λ k. bytes_eq k y) dc.processed))) [
      | inl c ↦
          let t = handle_peers-Handled lib l xs (next_crawler lib x.0 dc y) in
          record {
            after = t.after;
            returns = rw (handle_processed lib l x.0 dc y c) t.returns;
            entries = λ a.
                t.entries a
                ∙ ap (λ o. or_unused o (is_news lib dc.adv_port (y ∷ dc.processed) xs a))
                    (load-handed (is_own lib dc.adv_port x.0 y) dc y a)
                ∙ or_unused-or (load dc.ac.out_addrs a)
                    (bytes_eq y a && not (is_own lib dc.adv_port x.0 y))
                    (is_news lib dc.adv_port (y ∷ dc.processed) xs a)
                ∙ ap (or_unused (load dc.ac.out_addrs a))
                    (sym (is_news-processed lib dc.adv_port dc.processed x xs a c));
          }
      | inr c ↦
          let t = handle_peers-Handled lib l xs dc in
          record {
            after = t.after;
            returns = rw (handle_unchanged lib x.0 dc y c) t.returns;
            entries = λ a.
                t.entries a
                ∙ ap (or_unused (load dc.ac.out_addrs a))
                    (sym (is_news-unchanged lib dc.adv_port dc.processed x xs a c));
          }
    ]
