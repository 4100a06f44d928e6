-- ===== src/Witnesses/OfSubs.antt =====
-- Topics and subscriptions at concrete values.
use dscuss.Prelude.{
  ◌&&◌, not, any, some, ok, ℕ, zero, suc, ◌+◌, ◌/◌, ◌%◌, ◌≡◌, ◌≢◌, ◌↔◌, ◌⊎◌, inl, inr, ◌≤◌, ◌<◌,
  refl, Bytes, codes, Bool, true, false, List, [], ◌∷◌, ◌++◌, all, length, arith, Result, ok, err,
  no_such_tag, Memᴰ,
}
use dscuss.Subs.Topic
use dscuss.Subs.Topic.{
  contains_topic, Topic, nil, slice, new_topic, to_string, is_equal, contains_topic, contains_tag,
  remove, tags, join,
}
use dscuss.Subs.Subscriptions.{Subscriptions, covers, diff, contains, string_slice, read}
use dscuss.Subs.Subscriptions.Cover.{diff-covers}
use dscuss.Subs.Subscriptions.Reading.{Fresh, read-overflow, read-string_slice}
use dscuss.Witnesses.Samples.{go_os, only_go}

only_go-IsValid : Topic.is_valid only_go ≡ true
unfolding Topic.is_valid Topic.is_tag_valid Topic.is_tag_char dscuss.Prelude.bytes_eq
only_go-IsValid = refl

new_topic_golang : new_topic (codes "golang") ≡ ok only_go
unfolding new_topic Topic.is_tag_valid Topic.is_tag_char
new_topic_golang = refl

all_valid : all Topic.is_valid (only_go ∷ go_os ∷ []) ≡ true
unfolding Topic.is_valid Topic.is_tag_valid Topic.is_tag_char dscuss.Prelude.bytes_eq
all_valid = refl

diff-covers_example :
    (covers (diff (only_go ∷ go_os ∷ []) (go_os ∷ [])) go_os ≡ true
      → covers (only_go ∷ go_os ∷ []) go_os ≡ true)
    × (covers (only_go ∷ go_os ∷ []) go_os ≡ true
        → covers (go_os ∷ []) go_os ≡ false
        → covers (diff (only_go ∷ go_os ∷ []) (go_os ∷ [])) go_os ≡ true)
    × (covers (diff (only_go ∷ go_os ∷ []) (go_os ∷ [])) go_os
        ≡ any (λ t. not (covers (go_os ∷ []) t) && contains_topic t go_os) (only_go ∷ go_os ∷ []))
    × (all (λ t. not (covers (go_os ∷ []) t)) (diff (only_go ∷ go_os ∷ []) (go_os ∷ [])) ≡ true)
diff-covers_example = diff-covers (only_go ∷ go_os ∷ []) (go_os ∷ []) go_os all_valid

sample-Fresh : Fresh [] (only_go ∷ go_os ∷ [])
unfolding contains is_equal dscuss.Prelude.bytes_eq to_string
sample-Fresh = (refl, (refl, tt))

read-string_slice_example :
    read false (string_slice (only_go ∷ go_os ∷ [])) ≡ ok (only_go ∷ go_os ∷ [])
read-string_slice_example =
    read-string_slice (only_go ∷ go_os ∷ []) all_valid sample-Fresh (ground arith)

-- The topic number `n`, of one tag, and the topics below `n`.
abbrev numbered : ℕ → Bytes
numbered n = b'x' ∷ (b'a' + n / 6) ∷ (b'a' + n % 6) ∷ []

abbrev topics_below : ℕ → Subscriptions
topics_below zero = []
topics_below (suc n) = topics_below n ++ slice (numbered n ∷ []) ∷ []

abbrev lines_below : ℕ → List Bytes
lines_below zero = []
lines_below (suc n) = lines_below n ++ numbered n ∷ []

numbered-new_topic : new_topic (numbered 33) ≡ ok (slice (numbered 33 ∷ []))
unfolding new_topic Topic.is_tag_valid Topic.is_tag_char
numbered-new_topic = refl

numbered-fresh : contains (topics_below 33) (slice (numbered 33 ∷ [])) ≡ false
unfolding contains is_equal dscuss.Prelude.bytes_eq to_string
numbered-fresh = refl

read-lines_below : read false (lines_below 33) ≡ ok (topics_below 33)
unfolding read new_topic Topic.is_tag_valid Topic.is_tag_char contains is_equal
    dscuss.Prelude.bytes_eq to_string
read-lines_below = refl

read-overflow_example : read false (lines_below 33 ++ numbered 33 ∷ []) ≡ ok []
read-overflow_example =
    read-overflow false (numbered 33) [] (slice (numbered 33 ∷ [])) numbered-new_topic
      (topics_below 33) (ground arith) numbered-fresh (lines_below 33) read-lines_below
