-- ===== src/Subs/Subscriptions/Reordering.antt =====
-- subs/subscriptions.go: the lines of subscriptions in another order.
use dscuss.Prelude.{
  suc, ◌≤◌, ◌≡◌, refl, ap, sym, ◌∙◌, subst, arith, Bytes, bytes_eq, bytes_eq_iff, bytes_eq_refl,
  Bool, true, false, ◌||◌, any, any-append, all, all_intro, all_of_mem, List, [], ◌∷◌, ◌++◌, Memᴰ,
  length, Bool-cases, inl, inr, if◌then◌else◌, Result, ok, err, fatal,
}
use dscuss.Subs.Topic
use dscuss.Subs.Topic.{Topic, nil, to_string, is_equal, new_topic}
use dscuss.Subs.Topic.Strings.{new_topic-to_string}
use dscuss.Subs.Subscriptions.{Subscriptions, string_slice, contains, is_valid}
use dscuss.Subs.Subscriptions.Reading.{Fresh}
use dscuss.Env.{occurrences}

occurrences_of_mem : (u : Bytes) (l : List Bytes) → Memᴰ u l → 1 ≤ occurrences u l
occurrences_of_mem u [] m = elim m [ ]
occurrences_of_mem u (x ∷ l) (Memᴰ.head p) =
    let s : bytes_eq x u ≡ true = ap (bytes_eq x) p ∙ bytes_eq_refl x in rw s (omega arith)
occurrences_of_mem u (x ∷ l) (Memᴰ.tail m) = elim (Bool-cases (bytes_eq x u)) [
  | inl e ↦ rw e (omega arith)
  | inr e ↦ rw e (occurrences_of_mem u l m)
]

mem_of_occurrences : (u : Bytes) (l : List Bytes) → 1 ≤ occurrences u l → Memᴰ u l
mem_of_occurrences u [] h = absurd (omega arith)
mem_of_occurrences u (x ∷ l) h = elim (Bool-cases (bytes_eq x u)) [
  | inl e ↦ Memᴰ.head (sym ((bytes_eq_iff x u).0 e))
  | inr e ↦ Memᴰ.tail (
      mem_of_occurrences u l
        (subst (λ b. 1 ≤ (if b then suc (occurrences u l) else occurrences u l)) e h))
]

mem-string_slice :
    (s : Subscriptions) (u : Bytes)
    → Memᴰ u (string_slice s)
    → (t : Topic) × Memᴰ t s × (to_string t ≡ u)
unfolding string_slice
mem-string_slice [] u m = elim m [ ]
mem-string_slice (t ∷ s) u (Memᴰ.head p) = (t, Memᴰ.head refl, (sym p))
mem-string_slice (t ∷ s) u (Memᴰ.tail m) =
    let (v, n, e) = mem-string_slice s u m in (v, Memᴰ.tail n, e)

string_slice-mem : (s : Subscriptions) (t : Topic) → Memᴰ t s → Memᴰ (to_string t) (string_slice s)
unfolding string_slice
string_slice-mem [] t m = elim m [ ]
string_slice-mem (u ∷ s) t (Memᴰ.head p) = Memᴰ.head (ap to_string p)
string_slice-mem (u ∷ s) t (Memᴰ.tail m) = Memᴰ.tail (string_slice-mem s t m)

-- Topics of s that have the given lines.
choose :
    (s : Subscriptions) (lines : List Bytes)
    → ((u : Bytes) → Memᴰ u lines → (t : Topic) × Memᴰ t s × (to_string t ≡ u))
    → (s' : Subscriptions) × (string_slice s' ≡ lines) × ((t : Topic) → Memᴰ t s' → Memᴰ t s)
unfolding string_slice
choose s [] h = ([], refl, λ t m. elim m [ ])
choose s (u ∷ lines) h =
    let (t, m, e) = h u (Memᴰ.head refl) in
    let (s', f, n) = choose s lines (λ v k. h v (Memᴰ.tail k)) in
    (t ∷ s', ap (λ x. x ∷ string_slice s') e ∙ ap (λ l. u ∷ l) f, λ v k. one t s' s m n v k)
  where
    one :
        (t : Topic) (s' s : Subscriptions)
        → Memᴰ t s
        → ((v : Topic) → Memᴰ v s' → Memᴰ v s)
        → (v : Topic) → Memᴰ v (t ∷ s')
        → Memᴰ v s
    one t s' s m n v (Memᴰ.head p) = subst (λ x. Memᴰ x s) (sym p) m
    one t s' s m n v (Memᴰ.tail k) = n v k

abbrev is_line_of : Subscriptions → Bytes → Bool
is_line_of s u = any (λ x. bytes_eq (to_string x) u) s

-- A line comes at most once, and not if it is the line of a topic before.
record IsSingle (seen s : Subscriptions) (u : Bytes) : Type 0 where
  once : occurrences u (string_slice s) ≤ 1
  new : is_line_of seen u ≡ true → occurrences u (string_slice s) ≡ 0

is_line_of-append :
    (seen : Subscriptions) (t : Topic) (u : Bytes)
    → is_line_of (seen ++ t ∷ []) u ≡ (is_line_of seen u || bytes_eq (to_string t) u)
is_line_of-append seen t u = any-append (λ x. bytes_eq (to_string x) u) seen (t ∷ []) ∙ ground arith

IsSingle-of_Fresh : (s seen : Subscriptions) → Fresh seen s → (u : Bytes) → IsSingle seen s u
unfolding string_slice contains is_equal
IsSingle-of_Fresh [] seen f u = record { once = omega arith; new = λ h. refl }
IsSingle-of_Fresh (t ∷ s) seen f u =
    let rest = IsSingle-of_Fresh s (seen ++ t ∷ []) f.1 u in
    let more = is_line_of-append seen t u in
    elim (Bool-cases (bytes_eq (to_string t) u)) [
      | inl e ↦
          let none_left : occurrences u (string_slice s) ≡ 0 =
            rest.new (more ∙ ground (arith, e)) in
          record {
            once = rw e (omega (arith, none_left));
            new = λ h.
                let old : is_line_of seen u ≡ false =
                  subst (λ v. is_line_of seen v ≡ false) ((bytes_eq_iff (to_string t) u).0 e) f.0 in
                absurd (ground (arith, h, old));
          }
      | inr e ↦ record {
        once = rw e rest.once;
        new = λ h. rw e (rest.new (more ∙ ground (arith, h)));
      }
    ]

Fresh_of_IsSingle : (s seen : Subscriptions) → ((u : Bytes) → IsSingle seen s u) → Fresh seen s
unfolding string_slice contains is_equal
Fresh_of_IsSingle [] seen f = tt
Fresh_of_IsSingle (t ∷ s) seen f =
    let here = f (to_string t) in
    let at : occurrences (to_string t) (string_slice (t ∷ s))
        ≡ suc (occurrences (to_string t) (string_slice s)) =
      ap
        (λ b.
          if b
          then suc (occurrences (to_string t) (string_slice s))
          else occurrences (to_string t) (string_slice s))
        (bytes_eq_refl (to_string t)) in
    let once' : suc (occurrences (to_string t) (string_slice s)) ≤ 1 =
      subst (λ n. n ≤ 1) at here.once in
    (
      elim (Bool-cases (is_line_of seen (to_string t))) [
        | inl h ↦ let z = sym at ∙ here.new h in absurd (omega (arith, z))
        | inr h ↦ h
      ],
      Fresh_of_IsSingle s (seen ++ t ∷ []) (λ u. later u (f u) once'),
    )
  where
    later :
        (u : Bytes)
        → IsSingle seen (t ∷ s) u
        → suc (occurrences (to_string t) (string_slice s)) ≤ 1
        → IsSingle (seen ++ t ∷ []) s u
    later u h o = elim (Bool-cases (bytes_eq (to_string t) u)) [
      | inl e ↦
          let z : occurrences u (string_slice s) ≡ 0 =
            subst (λ v. occurrences v (string_slice s) ≡ 0) ((bytes_eq_iff (to_string t) u).0 e)
              (omega (arith, o)) in
          record { once = omega (arith, z); new = λ k. z }
      | inr e ↦
          let same : occurrences u (string_slice (t ∷ s)) ≡ occurrences u (string_slice s) =
            ap
              (λ b.
                if b then suc (occurrences u (string_slice s)) else occurrences u (string_slice s))
              e in
          record {
            once = subst (λ n. n ≤ 1) same h.once;
            new = λ k.
                let m = sym (is_line_of-append seen t u) ∙ k in
                sym same ∙ h.new (ground (arith, m, e));
          }
    ]

abbrev topic_or : Topic → Result Topic → Topic
topic_or d (ok t) = t
topic_or d (err e) = d
topic_or d fatal = d

same_topic :
    (t u : Topic)
    → Topic.is_valid t ≡ true
    → Topic.is_valid u ≡ true
    → to_string t ≡ to_string u
    → t ≡ u
same_topic t u v w e =
    ap (topic_or t) (sym (new_topic-to_string t v) ∙ ap new_topic e ∙ new_topic-to_string u w)

-- Subscriptions with the same topics as s, and the given lines.
pub record IsReordering (s : Subscriptions) (lines : List Bytes) (s' : Subscriptions) : Type 0 where
  pub printed : string_slice s' ≡ lines
  pub valid : is_valid s' ≡ true
  pub fresh : Fresh [] s'
  pub from : (t : Topic) → Memᴰ t s' → Memᴰ t s
  pub onto : (t : Topic) → Memᴰ t s → Memᴰ t s'

length-string_slice : (s : Subscriptions) → length (string_slice s) ≡ length s
unfolding string_slice
length-string_slice [] = refl
length-string_slice (t ∷ s) = ap suc (length-string_slice s)

pub reorder :
    (s : Subscriptions) (lines : List Bytes)
    → is_valid s ≡ true
    → Fresh [] s
    → length lines ≡ length (string_slice s)
    → ((u : Bytes) → occurrences u lines ≡ occurrences u (string_slice s))
    → (s' : Subscriptions) × IsReordering s lines s'
unfolding is_valid
reorder s lines v f l o =
    let valid : all Topic.is_valid s ≡ true = ground arith in
    let (s', e, n) = choose s lines (λ u m. mem-string_slice s u (
      mem_of_occurrences u (string_slice s)
        (subst (λ k. 1 ≤ k) (o u) (occurrences_of_mem u lines m)))) in
    let same : length s' ≡ length s =
      sym (length-string_slice s') ∙ ap length e ∙ l ∙ length-string_slice s in
    let valid' : all Topic.is_valid s' ≡ true =
      all_intro Topic.is_valid s' (λ t m. all_of_mem Topic.is_valid s valid (n t m)) in
    (
      s',
      record {
        printed = e;
        valid = rw (same, valid') (ground arith);
        fresh = Fresh_of_IsSingle s' [] (λ u. record {
          once =
              subst (λ k. k ≤ 1) (sym (ap (occurrences u) e ∙ o u))
                (IsSingle-of_Fresh s [] f u).once;
          new = λ h. absurd (ground arith);
        });
        from = n;
        onto = λ t m.
            let (t', m', g) = mem-string_slice s' (to_string t) (
              mem_of_occurrences (to_string t) (string_slice s') (
                subst (λ k. 1 ≤ k) (sym (ap (occurrences (to_string t)) e ∙ o (to_string t)))
                  (occurrences_of_mem (to_string t) (string_slice s) (string_slice-mem s t m)))) in
            subst (λ x. Memᴰ x s')
              (same_topic t' t (all_of_mem Topic.is_valid s valid (n t' m'))
                (all_of_mem Topic.is_valid s valid m) g)
              m';
      },
    )
