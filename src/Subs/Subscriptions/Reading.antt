-- ===== src/Subs/Subscriptions/Reading.antt =====
-- Reading subscriptions from lines of text.
use dscuss.Prelude.{
  ◌+◌, ◌≤◌, ◌<◌, Bytes, ◌≡◌, refl, ap, ◌∙◌, Bool, true, false, List, [], ◌∷◌, ◌++◌, arith, length,
  length-append, all, all-append, append_assoc, append-nil, Result, ok, err, fatal, Bool-cases, inl,
  inr, ltb,
}
use dscuss.Subs.Topic
use dscuss.Subs.Topic.{Topic, nil, slice, tags, to_string, new_topic, is_equal}
use dscuss.Subs.Topic.Strings.{new_topic-to_string, new_topic_ok}
use dscuss.Subs.Subscriptions.{
  Subscriptions, max_subscription_len, contains, string_slice, Line, go_on, return, add_line,
  read_line, read_from, read,
}

abbrev Reads : Result Subscriptions → Type 0
Reads r = (s : Subscriptions) × (r ≡ ok s) × (length s ≤ 33) × (all Topic.is_valid s ≡ true)

-- What one line makes of topics that are in bounds and valid.
abbrev LineKeeps : Line → Type 0
LineKeeps (go_on s) = (length s ≤ 33) × (all Topic.is_valid s ≡ true)
LineKeeps (return r) = Reads r

new_topic_fatal : (line : Bytes) → new_topic line ≡ fatal → ⊥
unfolding new_topic
new_topic_fatal [] h = cc
new_topic_fatal (c ∷ s) h = ground arith

add_line-LineKeeps :
    (s : Subscriptions) (line : Bytes) (r : Result Topic)
    → new_topic line ≡ r
    → length s ≤ 33
    → all Topic.is_valid s ≡ true
    → LineKeeps (add_line s r)
add_line-LineKeeps s line (err e) q h v = (h, v)
add_line-LineKeeps s line fatal q h v = absurd (new_topic_fatal line q)
add_line-LineKeeps s line (ok t) q h v = elim (Bool-cases (contains s t)) [
  | inl old ↦ rw old (h, v)
  | inr new ↦ rw new (elim (Bool-cases (ltb max_subscription_len (length s))) [
    | inl full ↦ rw full ([], refl, omega arith, refl)
    | inr room ↦ rw room (
      ground (arith, length-append s (t ∷ [])),
      ground (arith, all-append Topic.is_valid s (t ∷ []), new_topic_ok line t q),
    )
  ])
]

read_from-Reads :
    (s : Subscriptions) (lines : List Bytes)
    → length s ≤ 33
    → all Topic.is_valid s ≡ true
    → Reads (read_from false s lines)
unfolding read_from
read_from-Reads s [] h v = (s, refl, h, v)
read_from-Reads s (line ∷ rest) h v =
    next (add_line s (new_topic line)) refl (add_line-LineKeeps s line (new_topic line) refl h v)
      (λ s' b. read_from-Reads s' rest b.0 b.1)
  where
    next :
        (l : Line)
        → read_line s line ≡ l
        → LineKeeps l
        → ((s' : Subscriptions)
            → (length s' ≤ 33) × (all Topic.is_valid s' ≡ true)
            → Reads (read_from false s' rest))
        → Reads (read_from false s (line ∷ rest))
    next (go_on s') e k ih = rw (e, read_from) (ih s' k)
    next (return r) e k ih = rw (e, read_from) k

-- Reading never fails on the text: whatever the lines are, `Read` over a reader that does not
-- fail returns no error, and the result has valid topics only, at most 33 of them.
pub read_total :
    (lines : List Bytes)
    → (s : Subscriptions) × (read false lines ≡ ok s)
      × (length s ≤ 33)
      × (all Topic.is_valid s ≡ true)
unfolding read
read_total lines = read_from-Reads [] lines (omega arith) refl

add_line-full :
    (s : Subscriptions) (t : Topic)
    → max_subscription_len < length s
    → contains s t ≡ false
    → add_line s (ok t) ≡ return (ok [])
add_line-full s t long fresh = ground arith

add_line-return : (s u : Subscriptions) (t : Result Topic) → add_line s t ≡ return (ok u) → u ≡ []
add_line-return s u (err e) h = absurd (ground arith)
add_line-return s u fatal h = absurd (ground arith)
add_line-return s u (ok t) h = ground arith

module _ (failed : Bool) (line : Bytes) (rest : List Bytes) (t : Topic)
    (new : new_topic line ≡ ok t) (s : Subscriptions) (long : max_subscription_len < length s)
    (fresh : contains s t ≡ false) where
  read_from-overflow :
      (start : Subscriptions) (lines : List Bytes)
      → read_from false start lines ≡ ok s
      → read_from failed start (lines ++ line ∷ rest) ≡ ok []
  unfolding read_from
  read_from-overflow start [] h =
      let same : start ≡ s = ground arith in
      let stop : add_line start (new_topic line) ≡ return (ok []) =
        rw (new, same) (add_line-full s t long fresh) in
      rw (stop, read_from)
  read_from-overflow start (l ∷ lines) h =
      next (add_line start (new_topic l)) refl (λ s'. read_from-overflow s' lines)
    where
      next :
          (x : Line)
          → add_line start (new_topic l) ≡ x
          → ((s' : Subscriptions)
              → read_from false s' lines ≡ ok s
              → read_from failed s' (lines ++ line ∷ rest) ≡ ok [])
          → read_from failed start (l ∷ lines ++ line ∷ rest) ≡ ok []
      next (go_on s') e ih = rw (e, read_from) (ih s' (rw (e, read_from) at h))
      next (return r) e ih =
          let got : r ≡ ok s = rw (e, read_from) at h in
          let none_left : s ≡ [] = add_line-return start s (new_topic l) (rw got at e) in
          absurd (omega (arith, ap length none_left))

  -- More than 33 distinct topics are lost without an error: once 33 topics are read, a further
  -- line with a new topic makes `Read` return no topics and a nil error.
  pub read-overflow :
      (lines : List Bytes) → read false lines ≡ ok s → read failed (lines ++ line ∷ rest) ≡ ok []
  unfolding read
  read-overflow lines h = read_from-overflow [] lines h

-- Each topic is new among those before it.
abbrev pub Fresh : Subscriptions → Subscriptions → Type 0
Fresh s [] = Unit
Fresh s (t ∷ ts) = (contains s t ≡ false) × Fresh (s ++ t ∷ []) ts

read_from-string_slice :
    (s ts : Subscriptions)
    → all Topic.is_valid ts ≡ true
    → Fresh s ts
    → length s + length ts ≤ 33
    → read_from false s (string_slice ts) ≡ ok (s ++ ts)
unfolding read_from string_slice
read_from-string_slice s [] v f h = rw append-nil
read_from-string_slice s (t ∷ ts) v f h =
    let e : add_line s (new_topic (to_string t)) ≡ go_on (s ++ t ∷ []) =
      ground (arith, new_topic-to_string t) in
    rw (e, read_from)
      (read_from-string_slice (s ++ t ∷ []) ts (ground arith) f.1
          (omega (arith, length-append s (t ∷ [])))
        ∙ ap ok (append_assoc s (t ∷ []) ts))

-- Reading the lines of at most 33 distinct valid topics gives those topics back.
pub read-string_slice :
    (s : Subscriptions)
    → all Topic.is_valid s ≡ true
    → Fresh [] s
    → length s ≤ 33
    → read false (string_slice s) ≡ ok s
unfolding read
read-string_slice s v f h = read_from-string_slice [] s v f (omega arith)
