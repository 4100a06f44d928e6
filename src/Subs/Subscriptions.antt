-- ===== src/Subs/Subscriptions.antt =====
-- subs/subscriptions.go. A nil list and an empty one are told apart nowhere below, so both are [].
pub mod Cover
pub mod Reading
pub mod Reordering
pub mod NilTopic
use dscuss.Prelude.{
  ℕ, Bytes, Bool, true, false, not, ◌&&◌, ◌||◌, List, [], ◌∷◌, ◌++◌, Result, ok, err, fatal, Error,
  parsing, length, any, all, ltb, ◌==◌, if◌then◌else◌,
}
use dscuss.Subs.Topic.{Topic, is_equal, contains_topic, to_string, new_topic}
use dscuss.Subs.Topic

abbrev pub Subscriptions : Type 0
Subscriptions = List Topic

abbrev pub max_subscription_len : ℕ
max_subscription_len = 32

unfoldable pub contains : Subscriptions → Topic → Bool
contains s target = any (λ t. is_equal t target) s

unfoldable pub covers : Subscriptions → Topic → Bool
covers s target = any (λ t. contains_topic t target) s

unfoldable pub add_topic : Subscriptions → Topic → Subscriptions
add_topic s t = if contains s t then s else s ++ t ∷ []

-- The loop of `Copy`.
unfoldable pub copy_from : Subscriptions → Subscriptions → Subscriptions
unfolding add_topic
copy_from res [] = res
copy_from res (t ∷ ts) = copy_from (add_topic res (Topic.copy t)) ts

unfoldable pub copy : Subscriptions → Subscriptions
unfolding copy_from
copy s = copy_from [] s

-- The loop of `Diff`.
unfoldable pub diff_from : Subscriptions → Subscriptions → Subscriptions → Subscriptions
unfolding add_topic
diff_from a res [] = res
diff_from a res (t ∷ ts) = diff_from a (if covers a t then res else add_topic res (Topic.copy t)) ts

unfoldable pub diff : Subscriptions → Subscriptions → Subscriptions
unfolding diff_from
diff s a = diff_from a [] s

unfoldable pub is_valid : Subscriptions → Bool
is_valid s =
    if length s == 0
    then false
    else if ltb max_subscription_len (length s)
    then false
    else all Topic.is_valid s

-- `String`: each topic on a line of its own.
unfoldable pub print : Subscriptions → Bytes
print [] = []
print (t ∷ ts) = to_string t ++ b'\n' ∷ print ts

unfoldable pub string_slice : Subscriptions → List Bytes
string_slice [] = []
string_slice (t ∷ ts) = to_string t ∷ string_slice ts

-- What the body of the loop of `Read` does with a line: go on with more topics, or return.
pub data Line : Type 0 where
  go_on : Subscriptions → Line
  return : Result Subscriptions → Line

-- The limit is tested before the append, and what it returns is `nil, err` with the `err` of
-- `NewTopic`, which is nil there.
abbrev add_line : Subscriptions → Result Topic → Line
add_line subs (err e) = go_on subs
add_line subs fatal = return fatal
add_line subs (ok topic) =
    if contains subs topic
    then go_on subs
    else if ltb max_subscription_len (length subs)
    then return (ok [])
    else go_on (subs ++ topic ∷ [])

unfoldable pub read_line : Subscriptions → Bytes → Line
read_line subs line = add_line subs (new_topic line)

-- The loop of `Read`. `failed` is whether the scanner stopped at an error.
unfoldable pub read_from : Bool → Subscriptions → List Bytes → Result Subscriptions
unfolding read_line
read_from failed subs [] = if failed then err parsing else ok subs
read_from failed subs (line ∷ rest) = elim (read_line subs line) [
  | go_on subs' ↦ read_from failed subs' rest
  | return r ↦ r
]

unfoldable pub read : Bool → List Bytes → Result Subscriptions
unfolding read_from
read failed lines = read_from failed [] lines
