-- ===== src/Subs/Topic/Split.antt =====
-- subs/topic.go: the splitting and joining of the string of a topic.
use dscuss.Prelude.{
  ℕ, Bytes, ◌≡◌, ◌≢◌, refl, ap, ◌∙◌, Bool, false, List, [], ◌∷◌, ◌++◌, arith, any, ◌==◌,
}
use dscuss.Subs.Topic.{comma, join, split, cons_head}

split-ne-nil : (s : Bytes) → split s ≢ []
unfolding split
split-ne-nil [] = λ e. cc
split-ne-nil (c ∷ s) = ground arith

join-cons_nil : (l : List Bytes) → l ≢ [] → join ([] ∷ l) ≡ comma ∷ join l
unfolding join
join-cons_nil [] h = absurd (h refl)
join-cons_nil (t ∷ ts) h = refl

join-cons_head : (c : ℕ) (l : List Bytes) → join (cons_head c l) ≡ c ∷ join l
unfolding join
join-cons_head c [] = refl
join-cons_head c (t ∷ []) = refl
join-cons_head c (t ∷ u ∷ ts) = refl

pub join-split : (s : Bytes) → join (split s) ≡ s
unfolding split
join-split [] = unfold join in refl
join-split (c ∷ s) =
    ground
      (arith, join-split s, join-cons_nil (split s) (split-ne-nil s), join-cons_head c (split s))

abbrev pub has_comma : Bytes → Bool
has_comma = any (λ c. c == comma)

split-one : (t : Bytes) → has_comma t ≡ false → split t ≡ t ∷ []
unfolding split
split-one [] h = refl
split-one (c ∷ t) h = ground (arith, split-one t)

split-append : (t s : Bytes) → has_comma t ≡ false → split (t ++ comma ∷ s) ≡ t ∷ split s
unfolding split
split-append [] s h = refl
split-append (c ∷ t) s h = ground (arith, split-append t s)

pub split-join :
    (t : Bytes) (ts : List Bytes) → any has_comma (t ∷ ts) ≡ false → split (join (t ∷ ts)) ≡ t ∷ ts
unfolding join
split-join t [] h = split-one t (ground arith)
split-join t (u ∷ ts) h =
    split-append t (join (u ∷ ts)) (ground arith) ∙ ap (◌∷◌ t) (split-join u ts (ground arith))
