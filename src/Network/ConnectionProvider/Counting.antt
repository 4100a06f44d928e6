-- ===== src/Network/ConnectionProvider/Counting.antt =====
-- p2p/connection_provider.go: the counts of the connections and their limits.
use dscuss.Prelude.{
  suc, ◌^◌, ◌<◌, ◌≤◌, ◌≡◌, refl, ap, sym, ◌∙◌, subst, arith, Bool, true, false, List, [], ◌∷◌, ◌++◌,
  Option, none, some, leb, ◌==◌, if◌then◌else◌,
}
use dscuss.Network.ConnectionProvider.{
  Address, Entry, Connection, add_addresses, clear_addresses, increment, Provider, new,
  address_found, accepted, listen, connected, dialled, try_to_connect, dial_all, establish,
  close_connection, Step, Reached,
}
use dscuss.Network.ConnectionProvider.Counts.{
  count, increment_small, count_one_more, below_of_ne, count_split, drop_one, drop_other,
  count_same,
}

-- Each count is the number of the open connections in its direction, and within its limit.
pub record IsCounted (cp : Provider) : Type 0 where
  pub incoming : cp.in_count ≡ count true cp.open_connections
  pub outgoing : cp.out_count ≡ count false cp.open_connections
  pub in_bound : cp.in_count ≤ cp.max_in
  pub out_bound : cp.out_count ≤ cp.max_out
  pub in_word : cp.max_in < 2 ^ 32
  pub out_word : cp.max_out < 2 ^ 32

if-IsCounted :
    (b : Bool) (x y : Provider)
    → (b ≡ true → IsCounted x)
    → (b ≡ false → IsCounted y)
    → IsCounted (if b then x else y)
if-IsCounted true x y p q = p refl
if-IsCounted false x y p q = q refl

listen-IsCounted :
    (cp : Provider) (conn : Option Address) → IsCounted cp → IsCounted (listen cp conn)
unfolding listen
listen-IsCounted cp none v = if-IsCounted (leb cp.max_in cp.in_count) cp cp (λ e. v) (λ e. v)
listen-IsCounted cp (some remote) v =
    if-IsCounted (leb cp.max_in cp.in_count) cp (accepted cp (some remote)) (λ e. v)
      (λ e.
        let room : cp.in_count < cp.max_in = ground arith in
        let one = increment_small cp.in_count cp.max_in room v.in_word in
        let (more, same) = count_one_more cp.open_connections remote true in
        record {
          incoming = one ∙ ap suc v.incoming ∙ sym more;
          outgoing = v.outgoing ∙ sym same;
          in_bound = subst (λ n. n ≤ cp.max_in) (sym one) room;
          out_bound = v.out_bound;
          in_word = v.in_word;
          out_word = v.out_word;
        })

-- A turn of the dialling loop, which goes on below the limit only.
record IsDialled (cp : Provider) (r : Bool × Provider) : Type 0 where
  counted : IsCounted r.1
  room : r.0 ≡ true → r.1.out_count < r.1.max_out

stop_at-IsDialled :
    (cp c : Provider) (b : Bool)
    → IsCounted c
    → (b ≡ false → c.out_count < c.max_out)
    → IsDialled cp (if b then (false, c) else (true, c))
stop_at-IsDialled cp c true v room = record { counted = v; room = λ e. absurd (ground arith) }
stop_at-IsDialled cp c false v room = record { counted = v; room = λ e. room refl }

connected-IsDialled :
    (cp : Provider) (addr remote : Address)
    → IsCounted cp
    → cp.out_count < cp.max_out
    → IsDialled cp (connected cp addr remote)
unfolding connected
connected-IsDialled cp addr remote v room =
    let one = increment_small cp.out_count cp.max_out room v.out_word in
    let (more, same) = count_one_more cp.open_connections remote false in
    stop_at-IsDialled cp _ (increment cp.out_count == cp.max_out)
      (record {
        incoming = v.incoming ∙ sym same;
        outgoing = one ∙ ap suc v.outgoing ∙ sym more;
        in_bound = v.in_bound;
        out_bound = subst (λ n. n ≤ cp.max_out) (sym one) room;
        in_word = v.in_word;
        out_word = v.out_word;
      })
      (λ e.
        subst (λ n. n < cp.max_out) (sym one)
          (below_of_ne (increment cp.out_count) cp.out_count cp.max_out one room e))

dialled-IsDialled :
    (cp : Provider) (addr : Address) (dial : Option Address)
    → IsCounted cp
    → cp.out_count < cp.max_out
    → IsDialled cp (dialled cp addr dial)
unfolding dialled
dialled-IsDialled cp addr none v room = record { counted = v; room = λ e. room }
dialled-IsDialled cp addr (some remote) v room = connected-IsDialled cp addr remote v room

try_to_connect-IsDialled :
    (cp : Provider) (addr : Address) (is_used : Bool) (dial : Option Address)
    → IsCounted cp
    → cp.out_count < cp.max_out
    → IsDialled cp (try_to_connect cp addr is_used dial)
unfolding try_to_connect
try_to_connect-IsDialled cp addr true dial v room = record { counted = v; room = λ e. room }
try_to_connect-IsDialled cp addr false dial v room = dialled-IsDialled cp addr dial v room

dial_all-IsCounted :
    (dial : Address → Option Address) (order : List Entry) (cp : Provider)
    → IsCounted cp
    → cp.out_count < cp.max_out
    → IsCounted (dial_all dial order cp)
unfolding dial_all
dial_all-IsCounted dial [] cp v room = v
dial_all-IsCounted dial (e ∷ es) cp v room =
    let r = try_to_connect cp e.key e.is_used (dial e.key) in
    let d : IsDialled cp r = try_to_connect-IsDialled cp e.key e.is_used (dial e.key) v room in
    if-IsCounted r.0 (dial_all dial es r.1) r.1
      (λ g. dial_all-IsCounted dial es r.1 d.counted (d.room g)) (λ g. d.counted)

establish-IsCounted :
    (cp : Provider) (order : List Entry) (dial : Address → Option Address)
    → IsCounted cp
    → IsCounted (establish cp order dial)
unfolding establish
establish-IsCounted cp order dial v =
    if-IsCounted (leb cp.max_out cp.out_count) cp (dial_all dial order cp) (λ e. v)
      (λ e. dial_all-IsCounted dial order cp v (ground arith))

close-IsCounted :
    (cp : Provider) (before : List Connection) (c : Connection) (after : List Connection)
    → cp.open_connections ≡ before ++ c ∷ after
    → IsCounted cp
    → IsCounted (close_connection cp before c after)
unfolding close_connection
close-IsCounted cp before c after e v =
    let (ins, fewer_in) =
      drop_one c.is_incoming cp.in_count (count true (before ++ after))
        (v.incoming ∙ ap (count true) e ∙ count_split true before c after)
        (omega (arith, v.in_bound, v.in_word)) in
    let (outs, fewer_out) =
      drop_other c.is_incoming cp.out_count (count false (before ++ after))
        (v.outgoing ∙ ap (count false) e ∙ count_split false before c after)
        (omega (arith, v.out_bound, v.out_word)) in
    record {
      incoming = ins;
      outgoing = outs;
      in_bound = omega (arith, ins, fewer_in, v.in_bound);
      out_bound = omega (arith, outs, fewer_out, v.out_bound);
      in_word = v.in_word;
      out_word = v.out_word;
    }

readdressed-IsCounted :
    (cp : Provider) (before : List Connection) (c d : Connection) (after : List Connection)
    → cp.open_connections ≡ before ++ c ∷ after
    → c.is_incoming ≡ d.is_incoming
    → IsCounted cp
    → IsCounted (record cp { open_connections = before ++ d ∷ after })
readdressed-IsCounted cp before c d after e f v = record {
  incoming = v.incoming ∙ ap (count true) e ∙ count_same true before c d after f;
  outgoing = v.outgoing ∙ ap (count false) e ∙ count_same false before c d after f;
  in_bound = v.in_bound;
  out_bound = v.out_bound;
  in_word = v.in_word;
  out_word = v.out_word;
}

Step-IsCounted : (cp cp' : Provider) → Step cp cp' → IsCounted cp → IsCounted cp'
unfolding address_found add_addresses clear_addresses
Step-IsCounted cp cp' (Step.found p a) v = record {
  incoming = v.incoming;
  outgoing = v.outgoing;
  in_bound = v.in_bound;
  out_bound = v.out_bound;
  in_word = v.in_word;
  out_word = v.out_word;
}
Step-IsCounted cp cp' (Step.listened p conn) v = listen-IsCounted p conn v
Step-IsCounted cp cp' (Step.established p order dial) v = establish-IsCounted p order dial v
Step-IsCounted cp cp' (Step.closed p before c after e) v = close-IsCounted p before c after e v
Step-IsCounted cp cp' (Step.addressed p before c after new e) v =
    readdressed-IsCounted p before c (add_addresses c new) after e refl v
Step-IsCounted cp cp' (Step.cleared p before c after e) v =
    readdressed-IsCounted p before c (clear_addresses c) after e refl v

-- Whatever the loops and the close handlers do, each of the two counts is the number of the open
-- connections in its direction and never above its limit.
pub Reached-IsCounted : (cp : Provider) → Reached cp → IsCounted cp
unfolding new
Reached-IsCounted cp (Reached.start max_in max_out i o) = record {
  incoming = refl;
  outgoing = refl;
  in_bound = omega arith;
  out_bound = omega arith;
  in_word = i;
  out_word = o;
}
Reached-IsCounted cp (Reached.step p q r s) = Step-IsCounted p q s (Reached-IsCounted p r)
