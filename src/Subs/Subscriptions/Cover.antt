-- ===== src/Subs/Subscriptions/Cover.antt =====
-- What a list of subscriptions covers, and what `Diff` and `Copy` keep of it.
use dscuss.Prelude.{
  ◌≡◌, refl, ap, sym, ◌∙◌, Bool, true, false, not, ◌&&◌, ◌||◌, [], ◌∷◌, ◌++◌, arith, any, all, Memᴰ,
  any_of_mem, any_witness, all_of_mem, any-append, all-append, all_intro, Bool-cases, inl, inr,
}
use dscuss.Subs.Topic
use dscuss.Subs.Topic.{Topic, nil, slice, tags, is_equal, contains_topic, to_string}
use dscuss.Subs.Topic.Strings.{is_clean, is_clean_of_is_valid, is_equal-tags}
use dscuss.Subs.Topic.Tags.{contains_topic_trans}
use dscuss.Subs.Subscriptions.{
  Subscriptions, contains, covers, add_topic, copy_from, copy, diff_from, diff,
}

covers-append : (s u : Subscriptions) (t : Topic) → covers (s ++ u) t ≡ (covers s t || covers u t)
unfolding covers
covers-append s u t = any-append (λ x. contains_topic x t) s u

contains_topic-tags : (t u x : Topic) → tags t ≡ tags u → contains_topic t x ≡ contains_topic u x
unfolding contains_topic
contains_topic-tags t u x e = ap (all (Topic.contains_tag x)) e

-- A topic with the same string is a duplicate: it covers what the new one covers.
contains-covers :
    (s : Subscriptions) (t x : Topic)
    → all is_clean s ≡ true
    → is_clean t ≡ true
    → contains s t ≡ true
    → contains_topic t x ≡ true
    → covers s x ≡ true
unfolding contains covers
contains-covers s t x cs ct h k =
    let (u, m, e) = any_witness (λ u. is_equal u t) s h in
    any_of_mem (λ u. contains_topic u x) s m
      (contains_topic-tags u t x (is_equal-tags u t (all_of_mem is_clean s cs m) ct e) ∙ k)

covers-one : (t x : Topic) → covers (t ∷ []) x ≡ contains_topic t x
unfolding covers
covers-one t x = ground arith

covers-add_topic :
    (s : Subscriptions) (t x : Topic)
    → all is_clean s ≡ true
    → is_clean t ≡ true
    → covers (add_topic s t) x ≡ (covers s x || contains_topic t x)
unfolding add_topic
covers-add_topic s t x cs ct =
    ground (arith, contains-covers s t x cs ct, covers-append s (t ∷ []) x, covers-one t x)

add_topic-is_clean :
    (s : Subscriptions) (t : Topic)
    → all is_clean s ≡ true
    → is_clean t ≡ true
    → all is_clean (add_topic s t) ≡ true
unfolding add_topic
add_topic-is_clean s t cs ct = ground (arith, all-append is_clean s (t ∷ []))

-- The copy of a topic has its tags.
contains_topic-copy : (t x : Topic) → contains_topic (Topic.copy t) x ≡ contains_topic t x
unfolding Topic.copy
contains_topic-copy t x = contains_topic-tags (slice (tags t)) t x refl

copy-is_clean : (t : Topic) → is_clean t ≡ true → is_clean (Topic.copy t) ≡ true
unfolding Topic.copy
copy-is_clean t c = c

-- The topics of the first list that the second leaves uncovered, and that cover x.
abbrev uncovered : Subscriptions → Topic → Topic → Bool
uncovered a x t = not (covers a t) && contains_topic t x

module _ (a : Subscriptions) (x : Topic) where
  covers-diff_from :
      (res s : Subscriptions)
      → all is_clean res ≡ true
      → all is_clean s ≡ true
      → covers (diff_from a res s) x ≡ (covers res x || any (uncovered a x) s)
  unfolding diff_from
  covers-diff_from res [] cr cs = ground arith
  covers-diff_from res (t ∷ ts) cr cs = elim (Bool-cases (covers a t)) [
    | inl e ↦ rw e (ground (arith, covers-diff_from res ts cr (ground arith)))
    | inr e ↦
        let ct : is_clean t ≡ true = ground arith in
        let cc' = copy-is_clean t ct in
        rw e (
          ground (
            arith,
            covers-diff_from (add_topic res (Topic.copy t)) ts
                (add_topic-is_clean res (Topic.copy t) cr cc') (ground arith),
            covers-add_topic res (Topic.copy t) x cr cc',
            contains_topic-copy t x,
          ))
  ]

all_clean : (s : Subscriptions) → all Topic.is_valid s ≡ true → all is_clean s ≡ true
all_clean s v =
    all_intro is_clean s (λ t m. is_clean_of_is_valid t (all_of_mem Topic.is_valid s v m))

covers-diff :
    (s a : Subscriptions) (x : Topic)
    → all Topic.is_valid s ≡ true
    → covers (diff s a) x ≡ any (uncovered a x) s
unfolding diff covers
covers-diff s a x v = covers-diff_from a x [] s refl (all_clean s v)

covers-mem :
    (s : Subscriptions) (t x : Topic) → Memᴰ t s → contains_topic t x ≡ true → covers s x ≡ true
unfolding covers
covers-mem s t x m h = any_of_mem (λ t. contains_topic t x) s m h

covers-witness :
    (s : Subscriptions) (x : Topic)
    → covers s x ≡ true
    → (t : Topic) × Memᴰ t s × (contains_topic t x ≡ true)
unfolding covers
covers-witness s x h = any_witness (λ t. contains_topic t x) s h

-- What covers a topic covers every topic with more tags.
covers-smaller :
    (a : Subscriptions) (t x : Topic)
    → contains_topic t x ≡ true
    → covers a t ≡ true
    → covers a x ≡ true
covers-smaller a t x h k =
    let (u, m, c) = covers-witness a t k in covers-mem a u x m (contains_topic_trans u t x c h)

covers-copied : (a : Subscriptions) (t : Topic) → covers a (Topic.copy t) ≡ covers a t
unfolding covers Topic.copy contains_topic Topic.contains_tag
covers-copied a nil = refl
covers-copied a (slice ts) = refl

uncovered-add_topic :
    (a res : Subscriptions) (t : Topic)
    → all (λ t. not (covers a t)) res ≡ true
    → covers a t ≡ false
    → all (λ t. not (covers a t)) (add_topic res t) ≡ true
unfolding add_topic
uncovered-add_topic a res t h e = ground (arith, all-append (λ t. not (covers a t)) res (t ∷ []))

uncovered-diff_from :
    (a res s : Subscriptions)
    → all (λ t. not (covers a t)) res ≡ true
    → all (λ t. not (covers a t)) (diff_from a res s) ≡ true
unfolding diff_from
uncovered-diff_from a res [] h = h
uncovered-diff_from a res (t ∷ ts) h = elim (Bool-cases (covers a t)) [
  | inl e ↦ rw e (uncovered-diff_from a res ts h)
  | inr e ↦
      let copied : covers a (Topic.copy t) ≡ false = covers-copied a t ∙ e in
      rw e (
        uncovered-diff_from a (add_topic res (Topic.copy t)) ts
          (uncovered-add_topic a res (Topic.copy t) h copied))
]

-- `Diff` keeps what the first list covers and the second does not, removes the rest, and adds
-- nothing. Where the topics of s are valid: a topic is covered by the difference exactly if some topic
-- of s that a does not cover covers it; so what s covers and a does not is covered by the difference,
-- and what the difference covers is covered by s. And a covers no topic of the difference.
pub diff-covers :
    (s a : Subscriptions) (x : Topic)
    → all Topic.is_valid s ≡ true
    → (covers (diff s a) x ≡ true → covers s x ≡ true)
      × (covers s x ≡ true → covers a x ≡ false → covers (diff s a) x ≡ true)
      × (covers (diff s a) x ≡ any (λ t. not (covers a t) && contains_topic t x) s)
      × (all (λ t. not (covers a t)) (diff s a) ≡ true)
unfolding diff
diff-covers s a x v = (
  λ h.
      let (t, m, u) = any_witness (uncovered a x) s (sym (covers-diff s a x v) ∙ h) in
      covers-mem s t x m (ground arith),
  λ h k.
      let (t, m, c) = covers-witness s x h in
      covers-diff s a x v ∙ any_of_mem (uncovered a x) s m (ground (arith, covers-smaller a t x)),
  covers-diff s a x v,
  uncovered-diff_from a [] s refl,
)

module _ (x : Topic) where
  covers-copy_from :
      (res s : Subscriptions)
      → all is_clean res ≡ true
      → all is_clean s ≡ true
      → covers (copy_from res s) x ≡ (covers res x || covers s x)
  unfolding copy_from
  covers-copy_from res [] cr cs = unfold covers in ground arith
  covers-copy_from res (t ∷ ts) cr cs =
      let cc' = copy-is_clean t (ground arith) in
      covers-copy_from (add_topic res (Topic.copy t)) ts
        (add_topic-is_clean res (Topic.copy t) cr cc') (ground arith)
      ∙ ground (
        arith,
        covers-add_topic res (Topic.copy t) x cr cc',
        contains_topic-copy t x,
        covers-append (t ∷ []) ts x,
        covers-one t x,
      )

-- A copy of valid subscriptions covers the same topics.
pub covers-copy :
    (s : Subscriptions) (x : Topic) → all Topic.is_valid s ≡ true → covers (copy s) x ≡ covers s x
unfolding copy covers
covers-copy s x v = covers-copy_from x [] s refl (all_clean s v)
