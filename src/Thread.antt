-- ===== src/Thread.antt =====
-- thread/: the tree of the messages of a thread, and its visitors. The parent of a node is the node
-- that holds it, so `Depth` is an argument that counts the nodes above.
pub mod Visiting
pub mod Moderating
use dscuss.Prelude.{
  ℕ, suc, Bool, true, false, if◌then◌else◌, Option, none, some, Result, ok, err, fatal,
}
use dscuss.Entity.{Message}

-- `Node` and its field `Children`.
mutual
  pub data Node : Type 0 where
    node : Message → Children → Node

  pub data Children : Type 0 where
    no_child : Children
    child : Node → Children → Children

abbrev pub msg : Node → Message
msg (node m cs) = m

-- The end of the children that `AddReply` and `AddChild` append to.
abbrev pub add_child : Children → Node → Children
add_child no_child c = child c no_child
add_child (child d cs) c = child d (add_child cs c)

-- What `ModeratingHandler` and `ViewingHandler` are: a handler has a state of its own.
abbrev pub ModeratingHandler : Type 0 → Type 0
ModeratingHandler S = Node → S → Result (Option Message) × S

abbrev pub ViewingHandler : Type 0 → Type 0
ViewingHandler S = Node → ℕ → S → Bool × S

abbrev pub with_children : {S : Type 0} → Message → Result Children × S → Result (Option Node) × S
with_children m (ok cs, s) = (ok (some (node m cs)), s)
with_children m (err e, s) = (err e, s)
with_children m (fatal, s) = (fatal, s)

abbrev pub with_child : {S : Type 0} → Option Node → Result Children × S → Result Children × S
with_child none r = r
with_child (some c) (ok cs, s) = (ok (child c cs), s)
with_child (some c) (err e, s) = (err e, s)
with_child (some c) (fatal, s) = (fatal, s)

-- `ModeratingVisitor.Visit`, and its loop over the children.
unfoldable mutual
  pub moderate : {S : Type 0} → ModeratingHandler S → Node → S → Result (Option Node) × S
  moderate h (node m cs) s =
      let (r, s') = h (node m cs) s in
      elim r [
        | ok none ↦ (ok none, s')
        | ok (some m') ↦ with_children m' (moderate_all h cs s')
        | err e ↦ (err e, s')
        | fatal ↦ (fatal, s')
      ]

  pub moderate_all : {S : Type 0} → ModeratingHandler S → Children → S → Result Children × S
  moderate_all h no_child s = (ok no_child, s)
  moderate_all h (child c cs) s =
      let (r, s') = moderate h c s in
      elim r [
        | ok o ↦ with_child o (moderate_all h cs s')
        | err e ↦ (err e, s')
        | fatal ↦ (fatal, s')
      ]

-- `ViewingVisitor.Visit` of a node at the given depth, and its loop over the children.
unfoldable mutual
  pub view : {S : Type 0} → ViewingHandler S → ℕ → Node → S → Bool × S
  view h d (node m cs) s =
      let (b, s') = h (node m cs) d s in
      let rest = view_all h (suc d) cs s' in if b then rest else (false, s')

  pub view_all : {S : Type 0} → ViewingHandler S → ℕ → Children → S → Bool × S
  view_all h d no_child s = (true, s)
  view_all h d (child c cs) s =
      let (b, s') = view h d c s in let rest = view_all h d cs s' in if b then rest else (false, s')
