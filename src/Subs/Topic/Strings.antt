-- ===== src/Subs/Topic/Strings.antt =====
-- A topic and its string.
use dscuss.Prelude.{
  Bytes, ◌≡◌, ◌≢◌, refl, ap, sym, ◌∙◌, ◌↔◌, Bool, true, false, List, [], ◌∷◌, arith, any, all, ok,
  bytes_eq_iff,
}
use dscuss.Subs.Topic.{
  Topic, nil, slice, tags, join, split, to_string, is_equal, is_tag_char, is_tag_valid, check_tags,
  is_valid, new_topic,
}
use dscuss.Subs.Topic.Split.{join-split, split-join, has_comma}

chars-no_comma : (t : Bytes) → all is_tag_char t ≡ true → has_comma t ≡ false
unfolding is_tag_char
chars-no_comma [] h = refl
chars-no_comma (c ∷ t) h = ground (arith, chars-no_comma t)

is_tag_valid-no_comma : (t : Bytes) → is_tag_valid t ≡ true → has_comma t ≡ false
unfolding is_tag_valid
is_tag_valid-no_comma t h = ground (arith, chars-no_comma t)

check_tags-no_comma : (seen ts : List Bytes) → check_tags seen ts ≡ true → any has_comma ts ≡ false
unfolding check_tags
check_tags-no_comma seen [] h = refl
check_tags-no_comma seen (t ∷ ts) h =
    ground (arith, is_tag_valid-no_comma t, check_tags-no_comma (t ∷ seen) ts)

-- A valid tag is not the empty string, so a valid topic with a tag prints as something.
pub join-valid_ne : (t : Bytes) (ts : List Bytes) → is_tag_valid t ≡ true → join (t ∷ ts) ≢ []
unfolding join is_tag_valid
join-valid_ne [] ts h = λ e. ground arith
join-valid_ne (c ∷ t) [] h = λ e. cc
join-valid_ne (c ∷ t) (u ∷ ts) h = λ e. cc

new_topic-slice :
    (s : Bytes) → s ≢ [] → is_valid (slice (split s)) ≡ true → new_topic s ≡ ok (slice (split s))
unfolding new_topic
new_topic-slice [] h v = absurd (h refl)
new_topic-slice (c ∷ s) h v = ground arith

module _ (t : Bytes) (ts : List Bytes) (v : is_valid (slice (t ∷ ts)) ≡ true) where
  valid-no_comma : any has_comma (t ∷ ts) ≡ false
  unfolding is_valid
  valid-no_comma = ground (arith, check_tags-no_comma [] (t ∷ ts))

  valid-head : is_tag_valid t ≡ true
  unfolding is_valid
  valid-head = ground arith

not_valid-empty : is_valid (slice []) ≢ true
unfolding is_valid
not_valid-empty e = ground arith

-- Parsing the string of a valid topic gives the topic back, nil included.
pub new_topic-to_string : (t : Topic) → is_valid t ≡ true → new_topic (to_string t) ≡ ok t
unfolding to_string
new_topic-to_string nil v = unfold new_topic join in refl
new_topic-to_string (slice []) v = absurd (not_valid-empty v)
new_topic-to_string (slice (t ∷ ts)) v =
    let e = split-join t ts (valid-no_comma t ts v) in
    rw (new_topic-slice (join (t ∷ ts)) (join-valid_ne t ts (valid-head t ts v)) (rw e v)) (rw e)

split-tags : (s : Bytes) {t : Topic} → slice (split s) ≡ t → tags t ≡ split s
split-tags s e = ap tags (sym e)

-- Whatever text parses as a topic is the string of that topic, and the topic is valid.
pub new_topic_ok :
    (s : Bytes) (t : Topic) → new_topic s ≡ ok t → (is_valid t ≡ true) × (to_string t ≡ s)
unfolding new_topic to_string
new_topic_ok [] t h = (unfold is_valid in ground arith, ground arith)
new_topic_ok (c ∷ s) t h = (ground arith, ground (arith, join-split (c ∷ s)))

-- Valid topics are told apart by their strings, so `IsEqual` is equality on them.
pub is_equal_iff :
    (t u : Topic) → is_valid t ≡ true → is_valid u ≡ true → (is_equal t u ≡ true) ↔ (t ≡ u)
unfolding is_equal
is_equal_iff t u vt vu = (
  λ h.
      let same = (bytes_eq_iff (to_string t) (to_string u)).0 h in
      cc (new_topic-to_string t vt, new_topic-to_string u vu, ap new_topic same),
  λ e. (bytes_eq_iff (to_string t) (to_string u)).1 (ap to_string e),
)

-- Every tag is well formed and none comes twice; the empty slice, which is no valid topic, passes.
abbrev pub is_clean : Topic → Bool
is_clean t = check_tags [] (tags t)

pub is_clean_of_is_valid : (t : Topic) → is_valid t ≡ true → is_clean t ≡ true
unfolding is_valid
is_clean_of_is_valid nil v = refl
is_clean_of_is_valid (slice []) v = absurd (ground arith)
is_clean_of_is_valid (slice (t ∷ ts)) v = ground arith

abbrev tags_of_string : Bytes → List Bytes
tags_of_string [] = []
tags_of_string (c ∷ s) = split (c ∷ s)

tags_of_string_ne : (s : Bytes) → s ≢ [] → tags_of_string s ≡ split s
tags_of_string_ne [] h = absurd (h refl)
tags_of_string_ne (c ∷ s) h = refl

tags_of_string-join : (ts : List Bytes) → check_tags [] ts ≡ true → tags_of_string (join ts) ≡ ts
tags_of_string-join [] h = unfold join in refl
tags_of_string-join (t ∷ ts) h =
    rw (tags_of_string_ne (join (t ∷ ts)) (join-valid_ne t ts (unfold check_tags in ground arith)))
      (split-join t ts (check_tags-no_comma [] (t ∷ ts) h))

-- Clean topics with one string have the same tags in the same order.
pub is_equal-tags :
    (t u : Topic) → is_clean t ≡ true → is_clean u ≡ true → is_equal t u ≡ true → tags t ≡ tags u
unfolding is_equal to_string
is_equal-tags t u ct cu h =
    sym (tags_of_string-join (tags t) ct)
    ∙ ap tags_of_string ((bytes_eq_iff (to_string t) (to_string u)).0 h)
    ∙ tags_of_string-join (tags u) cu
