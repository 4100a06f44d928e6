-- ===== src/Network/Addresses/Listing.antt =====
-- p2p/address_list.go: reading the file of addresses.
use dscuss.Prelude.{
  ◌≡◌, refl, ap, sym, ◌∙◌, arith, Bytes, bytes_eq, true, false, not, ◌&&◌, any, all, Bool-cases,
  inl, inr, List, [], ◌∷◌, some, ok, fatal,
}
use dscuss.Network.ConnectionProvider.{Address, Provider, load, address_found}
use dscuss.Network.Addresses.{Libraries, Scanned, is_valid, read_lines, read_addresses}
use dscuss.Network.Addresses.Knowing.{or_unused, or_unused-false, or_unused-or, load-address_found}

-- The lines are taken over into the provider.
record Taken (lib : Libraries) (lines : List Bytes) (cp : Provider) : Type 0 where
  after : Provider
  returns : read_lines lib lines cp ≡ ok after
  entries :
      (a : Address)
      → load after.out_addrs a
        ≡ or_unused (load cp.out_addrs a) (any (λ line. bytes_eq line a) lines)

read_lines-Taken :
    (lib : Libraries) (lines : List Bytes) (cp : Provider)
    → all (is_valid lib) lines ≡ true
    → Taken lib lines cp
unfolding read_lines
read_lines-Taken lib [] cp h = record {
  after = cp;
  returns = refl;
  entries = λ a. sym (or_unused-false (load cp.out_addrs a));
}
read_lines-Taken lib (line ∷ lines) cp h =
    let v : is_valid lib line ≡ true = ground arith in
    let t = read_lines-Taken lib lines (address_found cp line) (ground arith) in
    record {
      after = t.after;
      returns = rw v t.returns;
      entries = λ a.
          t.entries a
          ∙ ap (λ o. or_unused o (any (λ l. bytes_eq l a) lines)) (load-address_found cp line a)
          ∙ or_unused-or (load cp.out_addrs a) (bytes_eq line a) (any (λ l. bytes_eq l a) lines);
    }

read_lines-fatal :
    (lib : Libraries) (lines : List Bytes) (cp : Provider)
    → all (is_valid lib) lines ≡ false
    → read_lines lib lines cp ≡ fatal
unfolding read_lines dscuss.Network.Addresses.error_finding_addresses
read_lines-fatal lib [] cp h = absurd (ground arith)
read_lines-fatal lib (line ∷ lines) cp h = elim (Bool-cases (is_valid lib line)) [
  | inl v ↦ rw v (read_lines-fatal lib lines (address_found cp line) (ground arith))
  | inr v ↦ rw v refl
]

-- Reading the file of addresses returns if every line is a valid address and the scanner has no
-- error; then the provider knows the addresses of the lines, not in use where they are new to it,
-- and what it knew before, and nothing else. With a single invalid line, or an error of the
-- scanner, the process ends.
pub read_addresses_lem :
    (lib : Libraries) (f : Scanned) (cp : Provider)
    → ((all (is_valid lib) f.lines && not f.has_failed) ≡ true
        → (cp' : Provider) × (read_addresses lib (some f) cp ≡ ok cp')
          × ((a : Address)
              → load cp'.out_addrs a
                ≡ or_unused (load cp.out_addrs a) (any (λ line. bytes_eq line a) f.lines)))
      × ((all (is_valid lib) f.lines && not f.has_failed) ≡ false
          → read_addresses lib (some f) cp ≡ fatal)
unfolding read_addresses dscuss.Network.Addresses.error_finding_addresses
read_addresses_lem lib f cp = (
  (λ h.
      let whole : f.has_failed ≡ false = ground arith in
      let t = read_lines-Taken lib f.lines cp (ground arith) in
      (t.after, rw (t.returns, whole) refl, t.entries)),
  (λ h. elim (Bool-cases (all (is_valid lib) f.lines)) [
    | inl v ↦
        let failed : f.has_failed ≡ true = ground arith in
        rw ((read_lines-Taken lib f.lines cp v).returns, failed) refl
    | inr v ↦ rw (read_lines-fatal lib f.lines cp v) refl
  ]),
)
