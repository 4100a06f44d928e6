-- ===== src/Thread/Moderating.antt =====
-- thread/moderating_visitor.go: which nodes are left of a thread.
use dscuss.Prelude.{
  subst, ◌≡◌, refl, ap, sym, ◌∙◌, Bool, true, false, ◌&&◌, if◌then◌else◌, List, [], ◌∷◌, ◌++◌, all,
  select, Option, none, some, Result, ok, err, fatal,
}
use dscuss.Entity.{Message}
use dscuss.Thread.{
  Node, node, Children, no_child, child, msg, ModeratingHandler, with_children, with_child,
  moderate, moderate_all,
}

-- The message put before each path.
abbrev pub below : Message → List (List Message) → List (List Message)
below m [] = []
below m (p ∷ ps) = (m ∷ p) ∷ below m ps

-- The messages on the way from the root to each node, in preorder.
mutual
  pub paths : Node → List (List Message)
  paths (node m cs) = (m ∷ []) ∷ below m (paths_all cs)

  pub paths_all : Children → List (List Message)
  paths_all no_child = []
  paths_all (child c cs) = paths c ++ paths_all cs

abbrev pub paths_of : Option Node → List (List Message)
unfolding paths
paths_of none = []
paths_of (some n) = paths n

select-append :
    {A : Type 0} (p : A → Bool) (xs ys : List A) → select p (xs ++ ys) ≡ select p xs ++ select p ys
select-append p [] ys = refl
select-append p (x ∷ xs) ys = by_test (p x) (select-append p xs ys)
  where
    by_test :
        (b : Bool)
        → select p (xs ++ ys) ≡ select p xs ++ select p ys
        → (if b then x ∷ select p (xs ++ ys) else select p (xs ++ ys))
          ≡ (if b then x ∷ select p xs else select p xs) ++ select p ys
    by_test true e = ap (λ l. x ∷ l) e
    by_test false e = e

module _ {S : Type 0} (h : ModeratingHandler S) (keep : Message → Bool) (Inv : S → Type 0)
    (handles : (n : Node) (s : S)
      → Inv s
      → ((h n s).0 ≡ ok (if keep (msg n) then some (msg n) else none)) × Inv (h n s).1) where
  select-below_passing :
      (m : Message) (ps : List (List Message))
      → keep m ≡ true
      → select (all keep) (below m ps) ≡ below m (select (all keep) ps)
  select-below_passing m [] k = refl
  select-below_passing m (p ∷ ps) k = by_test (all keep p) (select-below_passing m ps k)
    where
      by_test :
          (b : Bool)
          → select (all keep) (below m ps) ≡ below m (select (all keep) ps)
          → (if keep m && b
              then (m ∷ p) ∷ select (all keep) (below m ps)
              else select (all keep) (below m ps))
            ≡ below m (if b then p ∷ select (all keep) ps else select (all keep) ps)
      by_test true e = rw k (ap (λ l. (m ∷ p) ∷ l) e)
      by_test false e = rw k e

  select-below_failing :
      (m : Message) (ps : List (List Message))
      → keep m ≡ false
      → select (all keep) (below m ps) ≡ []
  select-below_failing m [] k = refl
  select-below_failing m (p ∷ ps) k = rw k (select-below_failing m ps k)

  -- What a visit leaves of a tree, and of a list of children.
  abbrev Leaves : Node → Result (Option Node) × S → Type 0
  Leaves n (ok o, s) = (paths_of o ≡ select (all keep) (paths n)) × Inv s
  Leaves n (err e, s) = ⊥
  Leaves n (fatal, s) = ⊥

  abbrev LeavesAll : Children → Result Children × S → Type 0
  LeavesAll cs (ok ds, s) = (paths_all ds ≡ select (all keep) (paths_all cs)) × Inv s
  LeavesAll cs (err e, s) = ⊥
  LeavesAll cs (fatal, s) = ⊥

  with_children-Leaves :
      (m : Message) (cs : Children) (r : Result Children × S)
      → keep m ≡ true
      → LeavesAll cs r
      → Leaves (node m cs) (with_children m r)
  unfolding paths
  with_children-Leaves m cs (ok ds, s) k (e, v) = (
    ap (λ l. (m ∷ []) ∷ below m l) e
        ∙ ap (λ l. (m ∷ []) ∷ l) (sym (select-below_passing m (paths_all cs) k))
        ∙ ap
            (λ b.
              if b && true
              then (m ∷ []) ∷ select (all keep) (below m (paths_all cs))
              else select (all keep) (below m (paths_all cs)))
            (sym k),
    v,
  )
  with_children-Leaves m cs (err e, s) k x = elim x [ ]
  with_children-Leaves m cs (fatal, s) k x = elim x [ ]

  with_child-LeavesAll :
      (c : Node) (cs : Children) (o : Option Node) (r : Result Children × S)
      → paths_of o ≡ select (all keep) (paths c)
      → LeavesAll cs r
      → LeavesAll (child c cs) (with_child o r)
  unfolding paths
  with_child-LeavesAll c cs none (ok ds, s) e (f, v) = (
    f
        ∙ ap (λ l. l ++ select (all keep) (paths_all cs)) e
        ∙ sym (select-append (all keep) (paths c) (paths_all cs)),
    v,
  )
  with_child-LeavesAll c cs (some d) (ok ds, s) e (f, v) = (
    ap (λ l. l ++ paths_all ds) e
        ∙ ap (λ l. select (all keep) (paths c) ++ l) f
        ∙ sym (select-append (all keep) (paths c) (paths_all cs)),
    v,
  )
  with_child-LeavesAll c cs none (err e, s) p x = elim x [ ]
  with_child-LeavesAll c cs none (fatal, s) p x = elim x [ ]
  with_child-LeavesAll c cs (some d) (err e, s) p x = elim x [ ]
  with_child-LeavesAll c cs (some d) (fatal, s) p x = elim x [ ]

  handled :
      (m : Message) (cs : Children) (r : Result (Option Message)) (rest : Result Children × S)
      (s : S)
      → r ≡ ok (if keep m then some m else none)
      → Inv s
      → LeavesAll cs rest
      → Leaves (node m cs) (elim r [
        | ok none ↦ (ok none, s)
        | ok (some m') ↦ with_children m' rest
        | err e ↦ (err e, s)
        | fatal ↦ (fatal, s)
      ])
  unfolding paths
  handled m cs r rest s e v l =
      subst (λ x. Leaves (node m cs) (after x)) (sym e) (by_test (keep m) refl)
    where
      after : Result (Option Message) → Result (Option Node) × S
      after x = elim x [
        | ok none ↦ (ok none, s)
        | ok (some m') ↦ with_children m' rest
        | err e ↦ (err e, s)
        | fatal ↦ (fatal, s)
      ]

      by_test :
          (b : Bool) → keep m ≡ b → Leaves (node m cs) (after (ok (if b then some m else none)))
      by_test true k = with_children-Leaves m cs rest k l
      by_test false k = (
        sym (select-below_failing m (paths_all cs) k)
            ∙ ap
                (λ b.
                  if b && true
                  then (m ∷ []) ∷ select (all keep) (below m (paths_all cs))
                  else select (all keep) (below m (paths_all cs)))
                (sym k),
        v,
      )

  child_handled :
      (c : Node) (cs : Children) (r : Result (Option Node) × S) (rest : S → Result Children × S)
      → Leaves c r
      → ((s : S) → Inv s → LeavesAll cs (rest s))
      → LeavesAll (child c cs) (elim r.0 [
        | ok o ↦ with_child o (rest r.1)
        | err e ↦ (err e, r.1)
        | fatal ↦ (fatal, r.1)
      ])
  child_handled c cs (ok o, s) rest (e, v) k = with_child-LeavesAll c cs o (rest s) e (k s v)
  child_handled c cs (err e, s) rest x k = elim x [ ]
  child_handled c cs (fatal, s) rest x k = elim x [ ]

  mutual
    unfolding moderate paths

    moderate-Leaves : (n : Node) (s : S) → Inv s → Leaves n (moderate h n s)
    moderate-Leaves (node m cs) s v =
        let (e, v') = handles (node m cs) s v in
        handled m cs (h (node m cs) s).0 (moderate_all h cs (h (node m cs) s).1) (h (node m cs) s).1
          e v' (moderate_all-LeavesAll cs (h (node m cs) s).1 v')

    moderate_all-LeavesAll : (cs : Children) (s : S) → Inv s → LeavesAll cs (moderate_all h cs s)
    moderate_all-LeavesAll no_child s v = (refl, v)
    moderate_all-LeavesAll (child c cs) s v =
        child_handled c cs (moderate h c s) (moderate_all h cs) (moderate-Leaves c s v)
          (λ t w. moderate_all-LeavesAll cs t w)

-- What is left of a tree: the nodes on whose way from the root every message is kept.
pub record IsPruned (keep : Message → Bool) (n : Node) (r : Result (Option Node)) : Type 0 where
  pub left : Option Node
  pub returns : r ≡ ok left
  pub kept : paths_of left ≡ select (all keep) (paths n)

-- If the handler keeps or drops each message by a test, whatever its state, the moderating visitor
-- succeeds and leaves exactly the nodes on whose way from the root every message passes the test, in
-- their order; an invariant that the handler keeps is kept by the visit.
pub moderate-IsPruned :
    {S : Type 0} (h : ModeratingHandler S) (keep : Message → Bool) (Inv : S → Type 0)
    → ((n : Node) (s : S)
        → Inv s
        → ((h n s).0 ≡ ok (if keep (msg n) then some (msg n) else none)) × Inv (h n s).1)
    → (n : Node) (s : S) → Inv s
    → IsPruned keep n (moderate h n s).0 × Inv (moderate h n s).1
moderate-IsPruned {S = S} h keep Inv handles n s v =
    by_result (moderate h n s) (moderate-Leaves h keep Inv handles n s v)
  where
    by_result :
        (r : Result (Option Node) × S)
        → Leaves h keep Inv handles n r
        → IsPruned keep n r.0 × Inv r.1
    by_result (ok o, t) (e, w) = (record { left = o; returns = refl; kept = e }, w)
    by_result (err e, t) x = elim x [ ]
    by_result (fatal, t) x = elim x [ ]
