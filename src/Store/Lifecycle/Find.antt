-- ===== src/Store/Lifecycle/Find.antt =====
-- `find_record` and the changes of the records (experiments/preprocessed-pbmo/src/token.rs).
use thinwallet.Prelude.{
  ◌≡◌, ◌≢◌, refl, ap, true, false, none, some, List, [], ◌∷◌, ◌++◌, map, any, arith, ◌==◌, bytes_eq,
  if◌then◌else◌,
}
use thinwallet.Prelude.Bytes.{Bytes, lex_lt, lex_lt_irrefl}
use thinwallet.Token.{LifecycleRecord}
use mathlib.Core.Option
use thinwallet.Store.Snapshot.{find_record, update_record, insert_sorted, sort_by_tid}

pub find_record-tid :
    (id : Bytes) (rs : List LifecycleRecord) (r : LifecycleRecord)
    → find_record id rs ≡ some r
    → r.tid ≡ id
unfolding find_record
find_record-tid id [] r h = cc
find_record-tid id (x ∷ rs) r h = ground (arith, find_record-tid id rs r)

-- `any(|record| record.tid == id)` is false exactly when there is no such record.
pub find_record-fresh :
    (id : Bytes) (rs : List LifecycleRecord)
    → any (λ x. x.tid == id) rs ≡ false
    → find_record id rs ≡ none
unfolding find_record
find_record-fresh id [] h = refl
find_record-fresh id (x ∷ rs) h = ground (arith, find_record-fresh id rs)

pub find_record-append :
    (id : Bytes) (rs : List LifecycleRecord) (x : LifecycleRecord)
    → find_record id (rs ++ x ∷ [])
      ≡ elim (find_record id rs) [ none ↦ if x.tid == id then some x else none | some r ↦ some r ]
unfolding find_record
find_record-append id [] x = refl
find_record-append id (y ∷ rs) x = ground (arith, find_record-append id rs x)

lex_lt-ne : (a b : Bytes) → lex_lt a b ≡ true → a ≢ b
lex_lt-ne a b h e = cc (lex_lt_irrefl b, ap (λ (x : Bytes). lex_lt x b) e)

find_record-insert_sorted :
    (id : Bytes) (r : LifecycleRecord) (rs : List LifecycleRecord)
    → find_record id (insert_sorted r rs) ≡ (if r.tid == id then some r else find_record id rs)
unfolding find_record insert_sorted
find_record-insert_sorted id r [] = refl
find_record-insert_sorted id r (x ∷ rs) =
    ground (arith, find_record-insert_sorted id r rs, lex_lt-ne x.tid r.tid)

-- A stable sort by the id finds the same record of an id.
pub find_record-sort_by_tid :
    (id : Bytes) (rs : List LifecycleRecord) → find_record id (sort_by_tid rs) ≡ find_record id rs
unfolding find_record sort_by_tid
find_record-sort_by_tid id [] = refl
find_record-sort_by_tid id (r ∷ rs) =
    rw (find_record-insert_sorted id r (sort_by_tid rs), find_record-sort_by_tid id rs) refl

module _ (f : LifecycleRecord → LifecycleRecord)
    (keeps : (r : LifecycleRecord) → (f r).tid ≡ r.tid) where
  pub find_record-update_record :
      (id j : Bytes) (rs : List LifecycleRecord)
      → find_record j (update_record id f rs)
        ≡ (if id == j then Option.map f (find_record j rs) else find_record j rs)
  unfolding find_record update_record
  find_record-update_record id j [] = ground arith
  find_record-update_record id j (r ∷ rs) =
      ground (arith, find_record-update_record id j rs, keeps r)

  pub find_record-map :
      (j : Bytes) (rs : List LifecycleRecord)
      → find_record j (map f rs) ≡ Option.map f (find_record j rs)
  unfolding find_record
  find_record-map j [] = refl
  find_record-map j (r ∷ rs) = ground (arith, find_record-map j rs, keeps r)
