-- ===== src/Sqlite/Threads.antt =====
-- sqlite/entity_database.go: the thread of a message.
pub mod Filling
use dscuss.Prelude.{ℕ, zero, suc, List, [], ◌∷◌, Option, none, some, Result, ok, err, fatal}
use dscuss.Entity.{EntityId, Message}
use dscuss.Thread.{Node, node, Children, no_child, child}
use dscuss.Env.{Env}
use dscuss.Sqlite.{EntityDatabase}
use dscuss.Sqlite.MessageTable.{get_message}
use dscuss.Sqlite.MessageQueries.{get_replies}

-- The outer none stands for a search that still runs.
abbrev pub and_children : Node → Option (Result Children) → Option (Result Children)
and_children c none = none
and_children c (some (ok cs)) = some (ok (child c cs))
and_children c (some (err e)) = some (err e)
and_children c (some fatal) = some fatal

abbrev pub and_rest : Option (Result Node) → Option (Result Children) → Option (Result Children)
and_rest none rest = none
and_rest (some (ok c)) rest = and_children c rest
and_rest (some (err e)) rest = some (err e)
and_rest (some fatal) rest = some fatal

-- The loop over the replies, with what is done for each of them.
abbrev pub each : (Message → Option (Result Node)) → List Message → Option (Result Children)
each fill [] = some (ok no_child)
each fill (r ∷ rs) = and_rest (fill r) (each fill rs)

abbrev pub of_children : Message → Option (Result Children) → Option (Result Node)
of_children m none = none
of_children m (some (ok cs)) = some (ok (node m cs))
of_children m (some (err e)) = some (err e)
of_children m (some fatal) = some fatal

abbrev pub of_replies :
    (Message → Option (Result Node)) → Message → Result (List Message) → Option (Result Node)
of_replies fill m (ok rs) = of_children m (each fill rs)
of_replies fill m (err e) = some (err e)
of_replies fill m fatal = some fatal

-- `fillSubthreads` of a node with this message, at most `fuel` calls deep.
unfoldable pub fill_subthreads : Env → EntityDatabase → ℕ → Message → Option (Result Node)
unfolding get_replies
fill_subthreads env db zero m = none
fill_subthreads env db (suc fuel) m =
    of_replies (fill_subthreads env db fuel) m (get_replies env db m.id)

unfoldable pub get_thread : Env → EntityDatabase → ℕ → EntityId → Option (Result Node)
unfolding fill_subthreads get_message
get_thread env db fuel eid = elim (get_message env db eid) [
  | ok m ↦ fill_subthreads env db fuel m
  | err e ↦ some (err e)
  | fatal ↦ some fatal
]
