-- ===== src/Subs/Topic.antt =====
-- subs/topic.go. A tag is the bytes of its string.
pub mod Split
pub mod Strings
pub mod Tags
pub mod Lines
use dscuss.Prelude.{
  fill_gap, ℕ, Bytes, Bool, true, false, ◌&&◌, ◌||◌, List, [], ◌∷◌, ◌++◌, Option, none, some,
  Result, ok, err, Error, wrong_arguments, no_such_tag, bytes_eq, length, any, all, leb, ltb, ◌==◌,
  if◌then◌else◌,
}

-- A Go slice may be nil, and the code tells a nil topic from an empty one.
pub data Topic : Type 0 where
  nil : Topic
  slice : List Bytes → Topic

-- What `range` and `len` see.
abbrev pub tags : Topic → List Bytes
tags nil = []
tags (slice ts) = ts

abbrev pub max_tag_len : ℕ
max_tag_len = 24

abbrev pub max_topic_capacity : ℕ
max_topic_capacity = 8

abbrev pub comma : ℕ
comma = b','

-- strings.Join(t, ",")
unfoldable pub join : List Bytes → Bytes
join [] = []
join (t ∷ []) = t
join (t ∷ u ∷ ts) = t ++ comma ∷ join (u ∷ ts)

abbrev pub cons_head : ℕ → List Bytes → List Bytes
cons_head c [] = (c ∷ []) ∷ []
cons_head c (t ∷ ts) = (c ∷ t) ∷ ts

-- strings.Split(s, ",")
unfoldable pub split : Bytes → List Bytes
split [] = [] ∷ []
split (c ∷ s) = let rest = split s in if c == comma then [] ∷ rest else cons_head c rest

unfoldable pub to_string : Topic → Bytes
unfolding join
to_string t = join (tags t)

unfoldable pub is_equal : Topic → Topic → Bool
is_equal t target = bytes_eq (to_string t) (to_string target)

unfoldable pub contains_tag : Topic → Bytes → Bool
contains_tag t target = any (λ tag. bytes_eq tag target) (tags t)

unfoldable pub contains_topic : Topic → Topic → Bool
contains_topic t subtop = all (λ tag. contains_tag subtop tag) (tags t)

-- The class [a-z0-9_] of `tagRegex`.
unfoldable pub is_tag_char : ℕ → Bool
is_tag_char c = leb b'a' c && leb c b'z' || leb b'0' c && leb c b'9' || c == b'_'

abbrev is_nonempty : Bytes → Bool
is_nonempty [] = false
is_nonempty (c ∷ s) = true

unfoldable pub is_tag_valid : Bytes → Bool
is_tag_valid tag = leb (length tag) max_tag_len && (is_nonempty tag && all is_tag_char tag)

-- The loop of `IsValid`; `seen` is the map's keys.
unfoldable pub check_tags : List Bytes → List Bytes → Bool
check_tags seen [] = true
check_tags seen (tag ∷ ts) =
    if any (λ s. bytes_eq s tag) seen
    then false
    else (is_tag_valid tag && check_tags (tag ∷ seen) ts)

unfoldable pub is_valid : Topic → Bool
unfolding check_tags
is_valid nil = true
is_valid (slice []) = false
is_valid (slice (t ∷ ts)) =
    if ltb max_topic_capacity (length (t ∷ ts)) then false else check_tags [] (t ∷ ts)

-- `make` and `copy`: the copy of nil is empty and not nil.
unfoldable pub copy : Topic → Topic
copy t = slice (tags t)

unfoldable pub new_topic : Bytes → Result Topic
unfolding is_valid split
new_topic [] = ok nil
new_topic (c ∷ s) =
    let t = slice (split (c ∷ s)) in if is_valid t then ok t else err wrong_arguments

abbrev pub cons_found : Bytes → Option (List Bytes) → Option (List Bytes)
cons_found t none = none
cons_found t (some ts) = some (t ∷ ts)

unfoldable pub remove_tag : Bytes → List Bytes → Option (List Bytes)
remove_tag target [] = none
remove_tag target (tag ∷ ts) =
    let rest = cons_found tag (remove_tag target ts) in
    if bytes_eq tag target then some (fill_gap ts) else rest

abbrev pub removed : Option (List Bytes) → Result Topic
removed none = err no_such_tag
removed (some ts) = ok (slice ts)

unfoldable pub remove : Topic → Bytes → Result Topic
unfolding copy remove_tag
remove t target = removed (remove_tag target (tags (copy t)))
