-- ===== src/Prelude/Swapping.antt =====
-- Removing an element of a list by a swap with the last one.
use mathlib.Core.List.{List, [], ◌∷◌, ◌++◌, append_assoc, append-nil, Perm, perm_middle}
use mathlib.Core.List.Perm

-- All but the last element, and the last element put first: what the swap with the end and the
-- cut make of the elements from the removed one on.
abbrev pub move_last {ℓ} : {A : Type ℓ} → A → List A → List A → List A
move_last last acc [] = last ∷ acc
move_last last acc (x ∷ xs) = move_last x (acc ++ last ∷ []) xs

abbrev pub fill_gap {ℓ} : {A : Type ℓ} → List A → List A
fill_gap [] = []
fill_gap (x ∷ xs) = move_last x [] xs

move_last-perm {ℓ} :
    {A : Type ℓ} (x : A) (acc ts : List A) → Perm (move_last x acc ts) (x ∷ acc ++ ts)
move_last-perm x acc [] = rw append-nil (Perm.refl (x ∷ acc))
move_last-perm x acc (t ∷ ts) = Perm.trans (move_last-perm t (acc ++ x ∷ []) ts) (
    rw append_assoc (
      Perm.trans (Perm.cons t (perm_middle acc ts))
        (Perm.trans (Perm.swap x t (acc ++ ts)) (Perm.cons x (Perm.symm (perm_middle acc ts))))))

pub fill_gap-perm {ℓ} : {A : Type ℓ} (ts : List A) → Perm (fill_gap ts) ts
fill_gap-perm [] = Perm.refl []
fill_gap-perm (t ∷ ts) = move_last-perm t [] ts
