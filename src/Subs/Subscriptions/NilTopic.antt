-- ===== src/Subs/Subscriptions/NilTopic.antt =====
-- What a copy makes of the nil topic.
use dscuss.Prelude.{
  ◌≡◌, refl, Bool, true, false, not, [], ◌∷◌, arith, all, any, all-append, any-append, all_of_mem,
  any_of_mem, any_witness, Memᴰ, Bool-cases, inl, inr,
}
use dscuss.Subs.Topic
use dscuss.Subs.Topic.{Topic, nil, slice, tags, to_string, new_topic, is_equal}
use dscuss.Subs.Topic.Strings.{is_clean, is_clean_of_is_valid, is_equal-tags}
use dscuss.Subs.Subscriptions.{Subscriptions, contains, add_topic, copy_from, copy, is_valid}

-- What breaks a copy: an empty topic that is not nil.
abbrev is_broken : Topic → Bool
is_broken t = not (Topic.is_valid t)

copy_from-keeps_broken :
    (res s : Subscriptions) → any is_broken res ≡ true → any is_broken (copy_from res s) ≡ true
unfolding copy_from
copy_from-keeps_broken res [] h = h
copy_from-keeps_broken res (t ∷ ts) h =
    copy_from-keeps_broken (add_topic res (Topic.copy t)) ts
      (unfold add_topic in ground (arith, any-append is_broken res (Topic.copy t ∷ [])))

slice_nil-is_broken : is_broken (slice []) ≡ true
unfolding Topic.is_valid
slice_nil-is_broken = refl

abbrev is_slice : Topic → Bool
is_slice nil = false
is_slice (slice ts) = true

-- A clean slice that prints as nothing is the empty one.
broken_of_equal :
    (u : Topic)
    → is_slice u ≡ true
    → is_clean u ≡ true
    → is_equal u (slice []) ≡ true
    → is_broken u ≡ true
unfolding Topic.check_tags
broken_of_equal nil k c h = absurd (ground arith)
broken_of_equal (slice ts) k c h =
    rw (is_equal-tags (slice ts) (slice []) c refl h) slice_nil-is_broken

add_topic-nil :
    (res : Subscriptions)
    → all is_slice res ≡ true
    → all is_clean res ≡ true
    → any is_broken (add_topic res (slice [])) ≡ true
unfolding add_topic
add_topic-nil res k c = elim (Bool-cases (contains res (slice []))) [
  | inl e ↦
      let (u, m, same) = any_witness (λ u. is_equal u (slice [])) res (unfold contains in e) in
      rw e (
        any_of_mem is_broken res m
          (broken_of_equal u (all_of_mem is_slice res k m) (all_of_mem is_clean res c m) same))
  | inr e ↦ rw e (ground (arith, any-append is_broken res (slice [] ∷ []), slice_nil-is_broken))
]

add_topic-copy :
    (p : Topic → Bool) (res : Subscriptions) (t : Topic)
    → all p res ≡ true
    → p (Topic.copy t) ≡ true
    → all p (add_topic res (Topic.copy t)) ≡ true
unfolding add_topic
add_topic-copy p res t h k = ground (arith, all-append p res (Topic.copy t ∷ []))

copy-is_slice : (t : Topic) → is_slice (Topic.copy t) ≡ true
unfolding Topic.copy
copy-is_slice t = refl

copy-is_clean : (t : Topic) → Topic.is_valid t ≡ true → is_clean (Topic.copy t) ≡ true
unfolding Topic.copy
copy-is_clean t v = is_clean_of_is_valid t v

copy-nil : Topic.copy nil ≡ slice []
unfolding Topic.copy
copy-nil = refl

copy_from-nil :
    (res s : Subscriptions)
    → all is_slice res ≡ true
    → all is_clean res ≡ true
    → all Topic.is_valid s ≡ true
    → Memᴰ nil s
    → any is_broken (copy_from res s) ≡ true
unfolding copy_from
copy_from-nil res [] k c v m = elim m [ ]
copy_from-nil res (t ∷ ts) k c v (Memᴰ.head e) =
    copy_from-keeps_broken (add_topic res (Topic.copy t)) ts
      (rw (← e, copy-nil) (add_topic-nil res k c))
copy_from-nil res (t ∷ ts) k c v (Memᴰ.tail m) =
    copy_from-nil (add_topic res (Topic.copy t)) ts
      (add_topic-copy is_slice res t k (copy-is_slice t))
      (add_topic-copy is_clean res t c (copy-is_clean t (ground arith))) (ground arith) m

not-all_of_any :
    (p : Topic → Bool) (s : Subscriptions) → any (λ t. not (p t)) s ≡ true → all p s ≡ false
not-all_of_any p [] h = absurd (ground arith)
not-all_of_any p (t ∷ ts) h = ground (arith, not-all_of_any p ts)

-- A permitted subscription list that has the nil topic is copied to a list that is not valid.
pub is_valid-copy_nil :
    (s : Subscriptions) → is_valid s ≡ true → Memᴰ nil s → is_valid (copy s) ≡ false
unfolding copy is_valid
is_valid-copy_nil s v m =
    let broken = copy_from-nil [] s refl refl (ground arith) m in
    ground (arith, not-all_of_any Topic.is_valid (copy_from [] s))
