-- ===== src/Sqlite/MessageTable/Reordering.antt =====
-- subs/topic.go: the tags of a valid topic in another order.
use dscuss.Prelude.{
  suc, ◌≤◌, ◌≡◌, refl, ap, sym, ◌∙◌, subst, arith, Bytes, bytes_eq, bytes_eq_iff, bytes_eq_refl,
  true, false, any, List, [], ◌∷◌, length, ltb, Bool-cases, inl, inr, if◌then◌else◌,
}
use dscuss.Subs.Topic
use dscuss.Subs.Topic.{slice, check_tags, is_tag_valid, max_topic_capacity}
use dscuss.Env.{occurrences}

-- A tag comes at most once, is valid if it comes, and does not come if it is seen.
record IsFine (seen ts : List Bytes) (t : Bytes) : Type 0 where
  once : occurrences t ts ≤ 1
  unseen : any (λ s. bytes_eq s t) seen ≡ true → occurrences t ts ≡ 0
  valid : occurrences t ts ≡ 1 → is_tag_valid t ≡ true

IsFine-of_check_tags :
    (seen ts : List Bytes) → check_tags seen ts ≡ true → (t : Bytes) → IsFine seen ts t
unfolding check_tags
IsFine-of_check_tags seen [] c t = record {
  once = omega arith;
  unseen = λ h. refl;
  valid = λ h. absurd (omega arith);
}
IsFine-of_check_tags seen (tag ∷ ts) c t =
    let new : any (λ s. bytes_eq s tag) seen ≡ false = ground arith in
    let good : is_tag_valid tag ≡ true = ground arith in
    let rest = IsFine-of_check_tags (tag ∷ seen) ts (ground arith) t in
    elim (Bool-cases (bytes_eq tag t)) [
      | inl e ↦
          let none_left : occurrences t ts ≡ 0 = rest.unseen (ground arith) in
          let same = (bytes_eq_iff tag t).0 e in
          record {
            once = rw e (omega arith);
            unseen = λ h.
                let old : any (λ s. bytes_eq s t) seen ≡ false =
                  subst (λ u. any (λ s. bytes_eq s u) seen ≡ false) same new in
                absurd (ground arith);
            valid = λ h. subst (λ u. is_tag_valid u ≡ true) same good;
          }
      | inr e ↦ record {
        once = rw e rest.once;
        unseen = λ h. rw e (rest.unseen (ground arith));
        valid = λ h. rest.valid (ground arith);
      }
    ]

check_tags_of_IsFine :
    (seen ts : List Bytes) → ((t : Bytes) → IsFine seen ts t) → check_tags seen ts ≡ true
unfolding check_tags
check_tags_of_IsFine seen [] f = refl
check_tags_of_IsFine seen (tag ∷ ts) f =
    let here = f tag in
    let at : occurrences tag (tag ∷ ts) ≡ suc (occurrences tag ts) =
      ap (λ b. if b then suc (occurrences tag ts) else occurrences tag ts) (bytes_eq_refl tag) in
    let once' : suc (occurrences tag ts) ≤ 1 = subst (λ n. n ≤ 1) at here.once in
    let good : is_tag_valid tag ≡ true = here.valid (at ∙ ap suc (omega (arith, once'))) in
    let new : any (λ s. bytes_eq s tag) seen ≡ false =
      elim (Bool-cases (any (λ s. bytes_eq s tag) seen)) [
        | inl h ↦ let z = sym at ∙ here.unseen h in absurd (omega (arith, z))
        | inr h ↦ h
      ] in
    let rest = check_tags_of_IsFine (tag ∷ seen) ts (λ t. later t (f t) once') in
    rw (new, good, rest) refl
  where
    later :
        (t : Bytes)
        → IsFine seen (tag ∷ ts) t
        → suc (occurrences tag ts) ≤ 1
        → IsFine (tag ∷ seen) ts t
    later t h o = elim (Bool-cases (bytes_eq tag t)) [
      | inl e ↦
          let z : occurrences t ts ≡ 0 =
            subst (λ u. occurrences u ts ≡ 0) ((bytes_eq_iff tag t).0 e) (omega (arith, o)) in
          record {
            once = omega (arith, z);
            unseen = λ s. z;
            valid = λ s. absurd (omega (arith, z, s));
          }
      | inr e ↦
          let same : occurrences t (tag ∷ ts) ≡ occurrences t ts =
            ap (λ b. if b then suc (occurrences t ts) else occurrences t ts) e in
          record {
            once = subst (λ n. n ≤ 1) same h.once;
            unseen = λ s. sym same ∙ h.unseen (ground arith);
            valid = λ s. h.valid (same ∙ s);
          }
    ]

-- The tags of a valid topic make a valid topic in any order.
pub is_valid_reordered :
    (t x : Bytes) (ts xs : List Bytes)
    → length (x ∷ xs) ≡ length (t ∷ ts)
    → ((u : Bytes) → occurrences u (x ∷ xs) ≡ occurrences u (t ∷ ts))
    → Topic.is_valid (slice (t ∷ ts)) ≡ true
    → Topic.is_valid (slice (x ∷ xs)) ≡ true
unfolding Topic.is_valid
is_valid_reordered t x ts xs l o v =
    let short : ltb max_topic_capacity (length (t ∷ ts)) ≡ false = ground arith in
    let short' = ap (ltb max_topic_capacity) l ∙ short in
    let checked : check_tags [] (t ∷ ts) ≡ true = ground arith in
    rw short' (
      check_tags_of_IsFine [] (x ∷ xs) (λ u.
        let f = IsFine-of_check_tags [] (t ∷ ts) checked u in
        record {
          once = subst (λ n. n ≤ 1) (sym (o u)) f.once;
          unseen = λ h. absurd (ground arith);
          valid = λ h. f.valid (sym (o u) ∙ h);
        }))
