-- ===== src/Subs/Topic/Lines.antt =====
-- subs/topic.go: the string of a topic as a line of text.
use dscuss.Prelude.{
  ℕ, ◌*◌, ◌≤◌, ◌≡◌, ◌≢◌, refl, arith, Bytes, Bool, true, false, not, ◌&&◌, List, [], ◌∷◌, length,
  length-append, all, all-append, ltb, ◌==◌,
}
use dscuss.Subs.Topic.Strings.{join-valid_ne}
use dscuss.Subs.Topic.{
  Topic, nil, slice, join, comma, to_string, is_tag_char, is_tag_valid, check_tags, is_valid,
}

-- A byte that ends no line.
abbrev pub is_inner : ℕ → Bool
is_inner c = not (c == 10) && not (c == 13)

-- A line that a `bufio.Scanner` returns as it is: bufio.MaxScanTokenSize is 64 * 1024.
abbrev pub is_line : Bytes → Bool
is_line [] = false
is_line (c ∷ s) = ltb (length (c ∷ s)) 65536 && all is_inner (c ∷ s)

inner_of_tag_char : (s : Bytes) → all is_tag_char s ≡ true → all is_inner s ≡ true
unfolding is_tag_char
inner_of_tag_char [] h = refl
inner_of_tag_char (c ∷ s) h = ground (arith, inner_of_tag_char s)

join-inner : (seen ts : List Bytes) → check_tags seen ts ≡ true → all is_inner (join ts) ≡ true
unfolding join check_tags is_tag_valid
join-inner seen [] h = refl
join-inner seen (t ∷ []) h = inner_of_tag_char t (ground arith)
join-inner seen (t ∷ u ∷ ts) h =
    let here = inner_of_tag_char t (ground arith) in
    let rest = join-inner (t ∷ seen) (u ∷ ts) (ground arith) in
    rw (all-append is_inner t (comma ∷ join (u ∷ ts)), here, rest) refl

join-length : (seen ts : List Bytes) → check_tags seen ts ≡ true → length (join ts) ≤ 25 * length ts
unfolding join check_tags is_tag_valid
join-length seen [] h = omega arith
join-length seen (t ∷ []) h = ground arith
join-length seen (t ∷ u ∷ ts) h =
    let short : length t ≤ 24 = ground arith in
    let rest = join-length (t ∷ seen) (u ∷ ts) (ground arith) in
    omega (arith, length-append t (comma ∷ join (u ∷ ts)))

line_of_parts : (s : Bytes) → s ≢ [] → length s ≤ 200 → all is_inner s ≡ true → is_line s ≡ true
line_of_parts [] n l a = absurd (n refl)
line_of_parts (c ∷ s) n l a = ground arith

-- The string of a valid topic that is not nil is a line.
pub to_string-is_line : (t : Topic) → is_valid t ≡ true → t ≢ nil → is_line (to_string t) ≡ true
unfolding to_string is_valid
to_string-is_line nil v n = absurd (n refl)
to_string-is_line (slice []) v n = absurd (ground arith)
to_string-is_line (slice (t ∷ ts)) v n =
    let c : check_tags [] (t ∷ ts) ≡ true = ground arith in
    let b : length (t ∷ ts) ≤ 8 = ground arith in
    let l = join-length [] (t ∷ ts) c in
    line_of_parts (join (t ∷ ts)) (join-valid_ne t ts (unfold check_tags in ground arith))
      (omega arith) (join-inner [] (t ∷ ts) c)
