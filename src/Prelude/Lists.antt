-- ===== src/Prelude/Lists.antt =====
-- Lists over the native numbers, and Boolean searches through them.
use Prim.Native.Nat.{ℕ, zero, suc, ◌+◌}
use mathlib.Core.Path.{◌≡◌, refl, sym, ap, ◌∙◌}
use mathlib.Core.Logic.{inl, inr}
use mathlib.Core.Bool.{Bool, true, false, ◌&&◌, ◌||◌}
use mathlib.Core.Option.{Option, none, some}
use mathlib.Core.List.{List, [], ◌∷◌, ◌++◌, Memᴰ}
use native.Mathlib.Omega.{arith}
use dscuss.Prelude.Tests.{if◌then◌else◌, Bool-cases}

module _ {ℓ} {A : Type ℓ} where
  abbrev pub length : List A → ℕ
  length [] = 0
  length (x ∷ xs) = suc (length xs)

  abbrev pub take : ℕ → List A → List A
  take zero xs = []
  take (suc n) [] = []
  take (suc n) (x ∷ xs) = x ∷ take n xs

  abbrev pub drop : ℕ → List A → List A
  drop zero xs = xs
  drop (suc n) [] = []
  drop (suc n) (x ∷ xs) = drop n xs

  -- Whether some element passes the test.
  abbrev pub any : (A → Bool) → List A → Bool
  any p [] = false
  any p (x ∷ xs) = p x || any p xs

  -- Whether every element passes the test.
  abbrev pub all : (A → Bool) → List A → Bool
  all p [] = true
  all p (x ∷ xs) = p x && all p xs

  -- The first element that passes the test.
  abbrev pub find : (A → Bool) → List A → Option A
  find p [] = none
  find p (x ∷ xs) = if p x then some x else find p xs

  -- The elements that pass the test, in order.
  abbrev pub select : (A → Bool) → List A → List A
  select p [] = []
  select p (x ∷ xs) = let rest = select p xs in if p x then x ∷ rest else rest

  pub length-append : (xs ys : List A) → length (xs ++ ys) ≡ length xs + length ys
  length-append [] ys = omega arith
  length-append (x ∷ xs) ys = omega (arith, length-append xs ys)

  pub any-append : (p : A → Bool) (xs ys : List A) → any p (xs ++ ys) ≡ (any p xs || any p ys)
  any-append p [] ys = refl
  any-append p (x ∷ xs) ys = ground (arith, any-append p xs ys)

  pub all-append : (p : A → Bool) (xs ys : List A) → all p (xs ++ ys) ≡ (all p xs && all p ys)
  all-append p [] ys = refl
  all-append p (x ∷ xs) ys = ground (arith, all-append p xs ys)

  pub find-append_none :
      (p : A → Bool) (xs ys : List A) → any p xs ≡ false → find p (xs ++ ys) ≡ find p ys
  find-append_none p [] ys h = refl
  find-append_none p (x ∷ xs) ys h = ground (arith, find-append_none p xs ys)

  pub find-some : (p : A → Bool) (xs : List A) (a : A) → find p xs ≡ some a → p a ≡ true
  find-some p [] a h = absurd (ground arith)
  find-some p (x ∷ xs) a h = ground (arith, find-some p xs a)

  pub find-none : (p : A → Bool) (xs : List A) → find p xs ≡ none → any p xs ≡ false
  find-none p [] h = refl
  find-none p (x ∷ xs) h = ground (arith, find-none p xs)

  pub find_mem : (p : A → Bool) (xs : List A) (a : A) → find p xs ≡ some a → Memᴰ a xs
  find_mem p [] a h = absurd (ground arith)
  find_mem p (x ∷ xs) a h = elim (Bool-cases (p x)) [
    | inl e ↦ Memᴰ.head (ground arith)
    | inr e ↦ Memᴰ.tail (find_mem p xs a (ground arith))
  ]

  pub find_total : (p : A → Bool) (xs : List A) → any p xs ≡ true → (a : A) × (find p xs ≡ some a)
  find_total p [] h = absurd (ground arith)
  find_total p (x ∷ xs) h = elim (Bool-cases (p x)) [
    | inl e ↦ (x, ground arith)
    | inr e ↦ let (a, f) = find_total p xs (ground arith) in (a, ground arith)
  ]

  pub any_of_mem : (p : A → Bool) (xs : List A) {a : A} → Memᴰ a xs → p a ≡ true → any p xs ≡ true
  any_of_mem p [] m h = elim m [ ]
  any_of_mem p (x ∷ xs) (Memᴰ.head e) h = ground arith
  any_of_mem p (x ∷ xs) (Memᴰ.tail m) h = ground (arith, any_of_mem p xs m h)

  pub any_witness :
      (p : A → Bool) (xs : List A) → any p xs ≡ true → (a : A) × Memᴰ a xs × (p a ≡ true)
  any_witness p [] h = absurd (ground arith)
  any_witness p (x ∷ xs) h = elim (Bool-cases (p x)) [
    | inl here ↦ (x, Memᴰ.head refl, here)
    | inr other ↦ let (a, m, e) = any_witness p xs (ground arith) in (a, Memᴰ.tail m, e)
  ]

  pub all_of_mem : (p : A → Bool) (xs : List A) {a : A} → all p xs ≡ true → Memᴰ a xs → p a ≡ true
  all_of_mem p [] h m = elim m [ ]
  all_of_mem p (x ∷ xs) h (Memᴰ.head e) = ground arith
  all_of_mem p (x ∷ xs) h (Memᴰ.tail m) = all_of_mem p xs (ground arith) m

  pub all_intro :
      (p : A → Bool) (xs : List A) → ((a : A) → Memᴰ a xs → p a ≡ true) → all p xs ≡ true
  all_intro p [] h = refl
  all_intro p (x ∷ xs) h =
      let here = h x (Memᴰ.head refl) in
      let later = all_intro p xs (λ a m. h a (Memᴰ.tail m)) in ground arith

  pub mem-select :
      (p : A → Bool) (xs : List A) {a : A} → Memᴰ a (select p xs) → Memᴰ a xs × (p a ≡ true)
  mem-select p [] m = elim m [ ]
  mem-select p (x ∷ xs) {a} m = elim (Bool-cases (p x)) [
    | inl e ↦ cons_cases e (mem-select p xs) (rw e at m)
    | inr e ↦ let (n, h) = mem-select p xs (rw e at m) in (Memᴰ.tail n, h)
  ]
    where
      cons_cases :
          p x ≡ true
          → (Memᴰ a (select p xs) → Memᴰ a xs × (p a ≡ true))
          → Memᴰ a (x ∷ select p xs)
          → Memᴰ a (x ∷ xs) × (p a ≡ true)
      cons_cases e ih (Memᴰ.head q) = (Memᴰ.head q, ground arith)
      cons_cases e ih (Memᴰ.tail n) = (Memᴰ.tail (ih n).0, (ih n).1)

  pub mem-select_intro :
      (p : A → Bool) (xs : List A) {a : A} → Memᴰ a xs → p a ≡ true → Memᴰ a (select p xs)
  mem-select_intro p [] m h = elim m [ ]
  mem-select_intro p (x ∷ xs) (Memᴰ.head q) h = rw (ap p (sym q) ∙ h) (Memᴰ.head q)
  mem-select_intro p (x ∷ xs) (Memᴰ.tail m) h = elim (Bool-cases (p x)) [
    | inl e ↦ rw e (Memᴰ.tail (mem-select_intro p xs m h))
    | inr e ↦ rw e (mem-select_intro p xs m h)
  ]
