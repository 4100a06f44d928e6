-- ===== src/Subs/Topic/Tags.antt =====
-- Topics as sets of tags: `ContainsTopic` and `Remove`.
use mathlib.Core.List.{Perm}
use mathlib.Core.List.Perm
use dscuss.Prelude.{
  fill_gap, fill_gap-perm, Bytes, ◌≡◌, refl, ◌↔◌, ◌⊎◌, inl, inr, true, false, List, [], ◌∷◌, Option,
  none, some, ok, err, no_such_tag, arith, any, Memᴰ, any_of_mem, any_witness, all_of_mem,
  all_intro, bytes_eq, bytes_eq_iff, bytes_eq_refl, Bool-cases,
}
use dscuss.Subs.Topic.{
  Topic, slice, tags, contains_tag, contains_topic, remove_tag, removed, remove, cons_found,
}

pub contains_tag_iff : (t : Topic) (tag : Bytes) → (contains_tag t tag ≡ true) ↔ Memᴰ tag (tags t)
unfolding contains_tag
contains_tag_iff t tag = (
  λ h.
      let (u, m, e) = any_witness (λ u. bytes_eq u tag) (tags t) h in
      rw (← (bytes_eq_iff u tag).0 e) m,
  λ m. any_of_mem (λ u. bytes_eq u tag) (tags t) m (bytes_eq_refl tag),
)

-- `ContainsTopic` is inclusion of the sets of tags.
pub contains_topic_iff :
    (t u : Topic)
    → (contains_topic t u ≡ true) ↔ ((tag : Bytes) → Memᴰ tag (tags t) → Memᴰ tag (tags u))
unfolding contains_topic
contains_topic_iff t u = (
  λ h tag m. (contains_tag_iff u tag).0 (all_of_mem (contains_tag u) (tags t) h m),
  λ f. all_intro (contains_tag u) (tags t) (λ tag m. (contains_tag_iff u tag).1 (f tag m)),
)

pub contains_topic_refl : (t : Topic) → contains_topic t t ≡ true
contains_topic_refl t = (contains_topic_iff t t).1 (λ tag m. m)

pub contains_topic_trans :
    (t u v : Topic)
    → contains_topic t u ≡ true
    → contains_topic u v ≡ true
    → contains_topic t v ≡ true
contains_topic_trans t u v h k =
    (contains_topic_iff t v).1
      (λ tag m. (contains_topic_iff u v).0 k tag ((contains_topic_iff t u).0 h tag m))

cons_found-some :
    (t : Bytes) (o : Option (List Bytes)) (l : List Bytes)
    → cons_found t o ≡ some l
    → (r : List Bytes) × (o ≡ some r) × (l ≡ t ∷ r)
cons_found-some t none l h = absurd (ground arith)
cons_found-some t (some r) l h = (r, refl, ground arith)

remove_tag-perm :
    (target : Bytes) (ts rest : List Bytes)
    → remove_tag target ts ≡ some rest
    → Perm (target ∷ rest) ts
unfolding remove_tag
remove_tag-perm target [] rest h = absurd (ground arith)
remove_tag-perm target (tag ∷ ts) rest h = elim (Bool-cases (bytes_eq tag target)) [
  | inl e ↦
      let same : tag ≡ target = (bytes_eq_iff tag target).0 e in
      let gap : fill_gap ts ≡ rest = ground arith in
      rw (same, ← gap) (Perm.cons target (fill_gap-perm ts))
  | inr e ↦
      let (r, found, split) = cons_found-some tag (remove_tag target ts) rest (ground arith) in
      rw split
        (Perm.trans (Perm.swap tag target r) (Perm.cons tag (remove_tag-perm target ts r found)))
]

pub remove_tag-none :
    (target : Bytes) (ts : List Bytes)
    → remove_tag target ts ≡ none
    → any (λ tag. bytes_eq tag target) ts ≡ false
unfolding remove_tag
remove_tag-none target [] h = refl
remove_tag-none target (tag ∷ ts) h = ground (arith, remove_tag-none target ts)

-- `Remove` takes exactly one occurrence of the tag out and keeps the others, up to their order;
-- it fails, with NoSuchTag, exactly when the topic has no such tag.
pub remove_cases :
    (t : Topic) (target : Bytes)
    → ((r : Topic) × (remove t target ≡ ok r) × Perm (target ∷ tags r) (tags t))
      ⊎ ((remove t target ≡ err no_such_tag) × (contains_tag t target ≡ false))
unfolding remove contains_tag
remove_cases t target = go (remove_tag target (tags t)) refl
  where
    go :
        (o : Option (List Bytes))
        → remove_tag target (tags t) ≡ o
        → ((r : Topic) × (remove t target ≡ ok r) × Perm (target ∷ tags r) (tags t))
          ⊎ ((remove t target ≡ err no_such_tag) × (contains_tag t target ≡ false))
    go (some rest) h = inl (slice rest, rw (h, removed), remove_tag-perm target (tags t) rest h)
    go none h = inr (rw (h, removed), remove_tag-none target (tags t) h)
