-- ===== src/Thread/Visiting.antt =====
-- thread/: what the two visitors make of a tree.
use dscuss.Prelude.{
  ℕ, suc, ◌≡◌, refl, ap, sym, ◌∙◌, Bool, true, false, if◌then◌else◌, List, [], ◌∷◌, ◌++◌,
}
use dscuss.Thread.{Node, node, Children, no_child, child, ViewingHandler, view, view_all}

-- The nodes in the order in which they are written down, each with its depth.
mutual
  pub preorder : ℕ → Node → List (Node × ℕ)
  preorder d (node m cs) = (node m cs, d) ∷ preorder_all (suc d) cs

  pub preorder_all : ℕ → Children → List (Node × ℕ)
  preorder_all d no_child = []
  preorder_all d (child c cs) = preorder d c ++ preorder_all d cs

-- The handler on one node after the other, up to the first that it refuses.
abbrev pub handle_until : {S : Type 0} → ViewingHandler S → List (Node × ℕ) → S → Bool × S
handle_until h [] s = (true, s)
handle_until h ((n, d) ∷ ns) s =
    let (b, s') = h n d s in let rest = handle_until h ns s' in if b then rest else (false, s')

module _ {S : Type 0} (h : ViewingHandler S) where
  handle_until-append :
      (xs ys : List (Node × ℕ)) (s : S)
      → handle_until h (xs ++ ys) s ≡ (
          if (handle_until h xs s).0
          then handle_until h ys (handle_until h xs s).1
          else (false, (handle_until h xs s).1))
  handle_until-append [] ys s = refl
  handle_until-append ((n, d) ∷ xs) ys s =
      by_answer (h n d s).0 (h n d s).1 (handle_until-append xs ys (h n d s).1)
    where
      by_answer :
          (b : Bool) (s' : S)
          → handle_until h (xs ++ ys) s' ≡ (
              if (handle_until h xs s').0
              then handle_until h ys (handle_until h xs s').1
              else (false, (handle_until h xs s').1))
          → (if b then handle_until h (xs ++ ys) s' else (false, s')) ≡ (
              let r : Bool × S = if b then handle_until h xs s' else (false, s') in
              if r.0 then handle_until h ys r.1 else (false, r.1))
      by_answer true s' ih = ih
      by_answer false s' ih = refl

  mutual
    unfolding view preorder

    view_lem : (d : ℕ) (n : Node) (s : S) → view h d n s ≡ handle_until h (preorder d n) s
    view_lem d (node m cs) s =
        ap (λ r. if (h (node m cs) d s).0 then r else (false, (h (node m cs) d s).1))
          (view_all_lem (suc d) cs (h (node m cs) d s).1)

    view_all_lem :
        (d : ℕ) (cs : Children) (s : S) → view_all h d cs s ≡ handle_until h (preorder_all d cs) s
    view_all_lem d no_child s = refl
    view_all_lem d (child c cs) s =
        ap (λ r. if r.0 then view_all h d cs r.1 else (false, r.1)) (view_lem d c s)
        ∙ ap
            (λ x.
              if (handle_until h (preorder d c) s).0
              then x
              else (false, (handle_until h (preorder d c) s).1))
            (view_all_lem d cs (handle_until h (preorder d c) s).1)
        ∙ sym (handle_until-append (preorder d c) (preorder_all d cs) s)

-- The viewing visitor handles the nodes in preorder, each with its depth, and stops at the first
-- node that the handler refuses.
pub view-preorder :
    {S : Type 0} (h : ViewingHandler S) (n : Node) (s : S)
    → view h 0 n s ≡ handle_until h (preorder 0 n) s
view-preorder h n s = view_lem h 0 n s
