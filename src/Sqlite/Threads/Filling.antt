-- ===== src/Sqlite/Threads/Filling.antt =====
-- sqlite/entity_database.go: what GetThread returns, and when.
use dscuss.Prelude.{
  ℕ, zero, suc, ◌<◌, ◌≡◌, refl, ap, sym, ◌∙◌, subst, arith, List, [], ◌∷◌, Memᴰ, Option, none, some,
  Result, ok, err, fatal,
}
use dscuss.Entity.{EntityId, Message}
use dscuss.Thread.{Node, node, Children, no_child, child, msg}
use dscuss.Env.{Env}
use dscuss.Sqlite.{EntityDatabase}
use dscuss.Sqlite.MessageTable.{get_message}
use dscuss.Sqlite.MessageQueries.{get_replies}
use dscuss.Sqlite.Threads.{and_rest, each, of_children, of_replies, fill_subthreads, get_thread}

-- Each node has the replies to its message as its children, in their order.
mutual
  pub data IsFilled (env : Env) (db : EntityDatabase) : Node → Type 0 where
    filled :
        (m : Message) (rs : List Message) (cs : Children)
        → get_replies env db m.id ≡ ok rs
        → AreFilled env db rs cs
        → IsFilled env db (node m cs)

  pub data AreFilled (env : Env) (db : EntityDatabase) : List Message → Children → Type 0 where
    no_reply : AreFilled env db [] no_child
    reply :
        (m : Message) (ds : Children) (rs : List Message) (cs : Children)
        → IsFilled env db (node m ds)
        → AreFilled env db rs cs
        → AreFilled env db (m ∷ rs) (child (node m ds) cs)

module _ (env : Env) (db : EntityDatabase) where
  -- What a search for the thread of the message comes to.
  abbrev Fills : Message → Option (Result Node) → Type 0
  Fills m (some (ok (node m' cs))) = (m' ≡ m) × IsFilled env db (node m cs)
  Fills m _ = Unit {0}

  abbrev FillsAll : List Message → Option (Result Children) → Type 0
  FillsAll rs (some (ok cs)) = AreFilled env db rs cs
  FillsAll rs _ = Unit {0}

  and_rest-FillsAll :
      (m : Message) (rs : List Message) (o : Option (Result Node)) (rest : Option (Result Children))
      → Fills m o
      → FillsAll rs rest
      → FillsAll (m ∷ rs) (and_rest o rest)
  and_rest-FillsAll m rs none rest f g = tt
  and_rest-FillsAll m rs (some (err e)) rest f g = tt
  and_rest-FillsAll m rs (some fatal) rest f g = tt
  and_rest-FillsAll m rs (some (ok (node m' ds))) none f g = tt
  and_rest-FillsAll m rs (some (ok (node m' ds))) (some (ok cs)) (e, f) g =
      subst (λ x. AreFilled env db (m ∷ rs) (child (node x ds) cs)) (sym e)
        (AreFilled.reply m ds rs cs f g)
  and_rest-FillsAll m rs (some (ok (node m' ds))) (some (err e)) f g = tt
  and_rest-FillsAll m rs (some (ok (node m' ds))) (some fatal) f g = tt

  each-FillsAll :
      (fill : Message → Option (Result Node)) (rs : List Message)
      → ((m : Message) → Fills m (fill m))
      → FillsAll rs (each fill rs)
  each-FillsAll fill [] f = AreFilled.no_reply
  each-FillsAll fill (r ∷ rs) f =
      and_rest-FillsAll r rs (fill r) (each fill rs) (f r) (each-FillsAll fill rs f)

  of_children-Fills :
      (m : Message) (rs : List Message) (o : Option (Result Children))
      → get_replies env db m.id ≡ ok rs
      → FillsAll rs o
      → Fills m (of_children m o)
  of_children-Fills m rs none e f = tt
  of_children-Fills m rs (some (ok cs)) e f = (refl, IsFilled.filled m rs cs e f)
  of_children-Fills m rs (some (err x)) e f = tt
  of_children-Fills m rs (some fatal) e f = tt

  of_replies-Fills :
      (fill : Message → Option (Result Node)) (m : Message) (r : Result (List Message))
      → get_replies env db m.id ≡ r
      → ((m : Message) → Fills m (fill m))
      → Fills m (of_replies fill m r)
  of_replies-Fills fill m (ok rs) e f =
      of_children-Fills m rs (each fill rs) e (each-FillsAll fill rs f)
  of_replies-Fills fill m (err x) e f = tt
  of_replies-Fills fill m fatal e f = tt

  fill_subthreads-Fills : (fuel : ℕ) (m : Message) → Fills m (fill_subthreads env db fuel m)
  unfolding fill_subthreads
  fill_subthreads-Fills zero m = tt
  fill_subthreads-Fills (suc fuel) m =
      of_replies-Fills (fill_subthreads env db fuel) m (get_replies env db m.id) refl
        (fill_subthreads-Fills fuel)

  -- A search that has ended.
  abbrev Ends : {A : Type 0} → Option A → Type 0
  Ends {A = A} o = (a : A) × (o ≡ some a)

  and_rest-Ends :
      (o : Option (Result Node)) (rest : Option (Result Children))
      → Ends o
      → Ends rest
      → Ends (and_rest o rest)
  and_rest-Ends o rest (r, e) (s, f) =
      subst (λ x. Ends (and_rest x rest)) (sym e)
        (subst (λ y. Ends (and_rest (some r) y)) (sym f) (both r s))
    where
      both : (r : Result Node) (s : Result Children) → Ends (and_rest (some r) (some s))
      both (ok c) (ok cs) = (ok (child c cs), refl)
      both (ok c) (err e) = (err e, refl)
      both (ok c) fatal = (fatal, refl)
      both (err e) s = (err e, refl)
      both fatal s = (fatal, refl)

  each-Ends :
      (fill : Message → Option (Result Node)) (rs : List Message)
      → ((m : Message) → Memᴰ m rs → Ends (fill m))
      → Ends (each fill rs)
  each-Ends fill [] f = (ok no_child, refl)
  each-Ends fill (r ∷ rs) f =
      and_rest-Ends (fill r) (each fill rs) (f r (Memᴰ.head refl))
        (each-Ends fill rs (λ m i. f m (Memᴰ.tail i)))

  of_replies-Ends :
      (fill : Message → Option (Result Node)) (m : Message) (r : Result (List Message))
      → ((rs : List Message) → r ≡ ok rs → Ends (each fill rs))
      → Ends (of_replies fill m r)
  of_replies-Ends fill m (ok rs) f =
      let (o, e) = f rs refl in subst (λ x. Ends (of_children m x)) (sym e) (built o)
    where
      built : (o : Result Children) → Ends (of_children m (some o))
      built (ok cs) = (ok (node m cs), refl)
      built (err x) = (err x, refl)
      built fatal = (fatal, refl)
  of_replies-Ends fill m (err x) f = (err x, refl)
  of_replies-Ends fill m fatal f = (fatal, refl)

-- A measure of messages that falls from a message to its replies.
abbrev pub Descends : Env → EntityDatabase → (EntityId → ℕ) → Type 0
Descends env db rank =
    (id : EntityId) (rs : List Message) (r : Message)
    → get_replies env db id ≡ ok rs
    → Memᴰ r rs
    → rank r.id < rank id

fill_subthreads-Ends :
    (env : Env) (db : EntityDatabase) (rank : EntityId → ℕ) (fuel : ℕ) (m : Message)
    → Descends env db rank
    → rank m.id < fuel
    → (r : Result Node) × (fill_subthreads env db fuel m ≡ some r)
unfolding fill_subthreads
fill_subthreads-Ends env db rank zero m d l = absurd (omega arith)
fill_subthreads-Ends env db rank (suc fuel) m d l =
    of_replies-Ends env db (fill_subthreads env db fuel) m (get_replies env db m.id) (λ rs e.
      each-Ends env db (fill_subthreads env db fuel) rs (λ r i.
        let below = d m.id rs r e i in fill_subthreads-Ends env db rank fuel r d (omega arith)))

-- What `GetThread` finds: the message asked for, and below each message all replies to it.
pub record IsThread (env : Env) (db : EntityDatabase) (id : EntityId) (t : Node) : Type 0 where
  pub root : get_message env db id ≡ ok (msg t)
  pub all_replies : IsFilled env db t

IsThread-Fills :
    (env : Env) (db : EntityDatabase) (id : EntityId) (m : Message) (t : Node)
    → get_message env db id ≡ ok m
    → Fills env db m (some (ok t))
    → IsThread env db id t
IsThread-Fills env db id m (node m' cs) e (same, f) = record {
  root = e ∙ ap ok (sym same);
  all_replies = subst (λ x. IsFilled env db (node x cs)) (sym same) f;
}

-- If a measure falls from each message to its replies, and is below the fuel at the message asked
-- for, `GetThread` returns; the thread that it returns has that message at its root and below each
-- message all the replies to it, in their order.
pub get_thread_total :
    (env : Env) (db : EntityDatabase) (rank : EntityId → ℕ) (fuel : ℕ) (id : EntityId)
    → Descends env db rank
    → ((m : Message) → get_message env db id ≡ ok m → rank m.id < fuel)
    → (r : Result Node) × (get_thread env db fuel id ≡ some r)
      × ((t : Node) → r ≡ ok t → IsThread env db id t)
unfolding get_thread
get_thread_total env db rank fuel id d l = by_message (get_message env db id) refl
  where
    by_message :
        (r : Result Message)
        → get_message env db id ≡ r
        → (q : Result Node) × ((elim r [
          | ok m ↦ fill_subthreads env db fuel m
          | err e ↦ some (err e)
          | fatal ↦ some fatal
        ])
            ≡ some q)
          × ((t : Node) → q ≡ ok t → IsThread env db id t)
    by_message (ok m) e =
        let (q, f) = fill_subthreads-Ends env db rank fuel m d (l m e) in
        (
          q,
          f,
          λ t g.
              IsThread-Fills env db id m t e
                (subst (Fills env db m) (f ∙ ap some g) (fill_subthreads-Fills env db fuel m)),
        )
    by_message (err x) e = (err x, refl, λ t g. absurd (ground arith))
    by_message fatal e = (fatal, refl, λ t g. absurd (ground arith))
