-- ===== src/Subs/Combinations.antt =====
-- subs/subscriptions.go: ToCombinations, the topics and all that is left of them when tags are
-- removed.
use dscuss.Prelude.{
  ℕ, zero, suc, ◌+◌, ◌<◌, ◌≡◌, refl, ap, sym, ◌∙◌, subst, arith, Bytes, Bool, true, false, List, [],
  ◌∷◌, ◌++◌, length, length-append, any_of_mem, Memᴰ, bytes_eq, bytes_eq_refl, if◌then◌else◌,
  Option, none, some, Result, ok, err, fatal, fill_gap, move_last,
}
use dscuss.Subs.Topic.{Topic, slice, tags, remove, remove_tag, removed, cons_found}
use dscuss.Subs.Topic.Tags.{remove_tag-none}
use dscuss.Subs.Subscriptions.{Subscriptions, add_topic}

abbrev pub Combined : Type 0
Combined = Option (Result Subscriptions)

-- The outer none stands for a search that still runs.
abbrev pub and_then : Combined → (Subscriptions → Combined) → Combined
and_then (some (ok s)) f = f s
and_then (some (err e)) f = some (err e)
and_then (some fatal) f = some fatal
and_then none f = none

abbrev pub unless_empty :
    (Subscriptions → Topic → Combined) → Subscriptions → Topic → List Bytes → Combined
unless_empty rec res sup [] = some (ok res)
unless_empty rec res sup (t ∷ ts) = rec res sup

-- The loop of `addCombinations` over the tags of `t`, with the call of itself.
unfoldable pub combine :
    (Subscriptions → Topic → Combined) → Topic → Subscriptions → List Bytes → Combined
unfolding remove
combine rec t res [] = some (ok res)
combine rec t res (tag ∷ rest) = elim (remove t tag) [
  | ok sup ↦ and_then (unless_empty rec res sup (tags sup)) (λ r. combine rec t r rest)
  | err e ↦ some fatal
  | fatal ↦ some fatal
]

-- `addCombinations`, at most `fuel` calls deep.
unfoldable pub add_combinations : ℕ → Subscriptions → Topic → Combined
unfolding combine add_topic
add_combinations zero s t = none
add_combinations (suc fuel) s t = combine (add_combinations fuel) t (add_topic s t) (tags t)

-- The loop of `ToCombinations`.
unfoldable pub combinations_from : ℕ → Subscriptions → List Topic → Combined
unfolding add_combinations
combinations_from fuel res [] = some (ok res)
combinations_from fuel res (t ∷ ts) =
    and_then (add_combinations fuel res t) (λ r. combinations_from fuel r ts)

unfoldable pub to_combinations : ℕ → Subscriptions → Combined
unfolding combinations_from
to_combinations fuel s = combinations_from fuel [] s

length-move_last :
    (x : Bytes) (acc ts : List Bytes) → length (move_last x acc ts) ≡ suc (length acc + length ts)
length-move_last x acc [] = omega arith
length-move_last x acc (t ∷ ts) =
    length-move_last t (acc ++ x ∷ []) ts ∙ omega (arith, length-append acc (x ∷ []))

length-fill_gap : (ts : List Bytes) → length (fill_gap ts) ≡ length ts
length-fill_gap [] = refl
length-fill_gap (t ∷ ts) = length-move_last t [] ts ∙ omega arith

remove_tag-length :
    (target : Bytes) (ts rest : List Bytes)
    → remove_tag target ts ≡ some rest
    → suc (length rest) ≡ length ts
unfolding remove_tag
remove_tag-length target [] rest h = absurd (ground arith)
remove_tag-length target (tag ∷ ts) rest h =
    by_test (bytes_eq tag target) (remove_tag target ts) (remove_tag-length target ts) h
  where
    by_test :
        (b : Bool) (o : Option (List Bytes))
        → ((r : List Bytes) → o ≡ some r → suc (length r) ≡ length ts)
        → (if b then some (fill_gap ts) else cons_found tag o) ≡ some rest
        → suc (length rest) ≡ suc (length ts)
    by_test true o ih e =
        let same : fill_gap ts ≡ rest = ground arith in
        ap (λ l. suc (length l)) (sym same) ∙ ap suc (length-fill_gap ts)
    by_test false none ih e = absurd (ground arith)
    by_test false (some r) ih e =
        let same : (tag ∷ r) ≡ rest = ground arith in
        ap (λ l. suc (length l)) (sym same) ∙ ap suc (ih r refl)

-- A search that has ended, with a result.
abbrev Ends : Combined → Type 0
Ends c = (r : Subscriptions) × (c ≡ some (ok r))

and_then-Ends :
    (c : Combined) (f : Subscriptions → Combined)
    → Ends c
    → ((s : Subscriptions) → Ends (f s))
    → Ends (and_then c f)
and_then-Ends c f (r, e) k = subst (λ x. Ends (and_then x f)) (sym e) (k r)

combine-Ends :
    (rec : Subscriptions → Topic → Combined) (t : Topic)
    → ((s : Subscriptions) (sup : Topic) → length (tags sup) < length (tags t) → Ends (rec s sup))
    → (rest : List Bytes) (res : Subscriptions)
    → ((tag : Bytes) → Memᴰ tag rest → Memᴰ tag (tags t))
    → Ends (combine rec t res rest)
unfolding combine remove
combine-Ends rec t k [] res m = (res, refl)
combine-Ends rec t k (tag ∷ rest) res m =
    by_removed (remove_tag tag (tags t)) refl
      (λ s. combine-Ends rec t k rest s (λ u i. m u (Memᴰ.tail i)))
  where
    step : Result Topic → Combined
    step r = elim r [
      | ok sup ↦ and_then (unless_empty rec res sup (tags sup)) (λ s. combine rec t s rest)
      | err e ↦ some fatal
      | fatal ↦ some fatal
    ]

    smaller :
        (sup : Topic) (us : List Bytes)
        → length (tags sup) < length (tags t)
        → Ends (unless_empty rec res sup us)
    smaller sup [] l = (res, refl)
    smaller sup (u ∷ us) l = k res sup l

    by_removed :
        (o : Option (List Bytes))
        → remove_tag tag (tags t) ≡ o
        → ((s : Subscriptions) → Ends (combine rec t s rest))
        → Ends (step (removed o))
    by_removed none e ih = absurd (
        ground (
          arith,
          remove_tag-none tag (tags t) e,
          any_of_mem (λ u. bytes_eq u tag) (tags t) (m tag (Memᴰ.head refl)) (bytes_eq_refl tag),
        ))
    by_removed (some us) e ih =
        let shorter = remove_tag-length tag (tags t) us e in
        and_then-Ends (unless_empty rec res (slice us) us) (λ s. combine rec t s rest)
          (smaller (slice us) us (omega arith)) ih

-- `addCombinations` ends with a result, so it never reaches its log.Fatalf: it makes at most as many
-- nested calls as the topic has tags, and one more.
pub add_combinations_total :
    (fuel : ℕ) (s : Subscriptions) (t : Topic)
    → length (tags t) < fuel
    → (r : Subscriptions) × (add_combinations fuel s t ≡ some (ok r))
unfolding add_combinations
add_combinations_total zero s t l = absurd (omega arith)
add_combinations_total (suc fuel) s t l =
    combine-Ends (add_combinations fuel) t
      (λ q sup h. add_combinations_total fuel q sup (omega arith)) (tags t) (add_topic s t)
      (λ tag i. i)
