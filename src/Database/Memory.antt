-- ===== src/Database/Memory.antt =====
-- A database in memory, which shows that the laws of `Database` can be met. The id of a new row is
-- its idempotency key, and a row whose id would be in use is refused.
use payment_orchestration_la.Common.{
  String, ◌≡◌, refl, ◌≢◌, Bool, true, false, Option, none, some, List, [], ◌∷◌, ◌++◌, arith, str_eq,
  eq_iff, if◌then◌else◌, Bool-cases, inl, inr, ap,
}
use payment_orchestration_la.Common.Effect.{Result, ok, err, Action}
use payment_orchestration_la.Common.Effect.Rules.{Ends, Unchanged, Never, Ends-ok, Ends-err}
use payment_orchestration_la.Entities.{Transaction, AuditLog}
use payment_orchestration_la.Database.{
  Database, IsLawful, IsAvailable, Exception, refused, unique_violation, Saved, Inserted, Logged,
}

pub record Store : Type 0 where
  pub rows : List Transaction
  pub entries : List AuditLog

abbrev find_row : String → List Transaction → Option Transaction
find_row id [] = none
find_row id (t ∷ ts) = if str_eq t.id id then some t else find_row id ts

abbrev put_row : Transaction → List Transaction → List Transaction
put_row t [] = t ∷ []
put_row t (r ∷ rs) = if str_eq r.id t.id then t ∷ rs else r ∷ put_row t rs

abbrev find_row_by : (Transaction → Bool) → List Transaction → Option Transaction
find_row_by p [] = none
find_row_by p (t ∷ ts) = if p t then some t else find_row_by p ts

abbrev entries_of : String → List AuditLog → List AuditLog
entries_of id [] = []
entries_of id (e ∷ es) =
    let rest = entries_of id es in if str_eq e.transaction_id id then e ∷ rest else rest

abbrev is_text : Option String → String → Bool
is_text none s = false
is_text (some r) s = str_eq r s

-- `id` may be given to a new row
abbrev is_free : String → Store → Bool
is_free id s = elim (find_row id s.rows) [
  | some _ ↦ false
  | none ↦ elim (entries_of id s.entries) [ [] ↦ true | _ ∷ _ ↦ false ]
]

abbrev save : Transaction → Action Store Exception Transaction
save t s = (ok t, record s { rows = put_row t s.rows })

abbrev insert : Transaction → Action Store Exception Transaction
insert t s =
    let t' = record t { id = t.idempotency_key } in
    if is_free t'.id s
    then (ok t', record s { rows = put_row t' s.rows })
    else (err (refused unique_violation), s)

abbrev log : AuditLog → Action Store Exception (Unit {0})
log e s = (ok tt, record s { entries = s.entries ++ e ∷ [] })

abbrev roll_back :
    Store → Result Exception Transaction × Store → Result Exception Transaction × Store
roll_back s (ok t, s') = (ok t, s')
roll_back s (err x, s') = (err x, s)

abbrev pub memory : Database
memory = record {
  Db = Store;
  find_txn = λ id s. find_row id s.rows;
  find_txn_by_key = λ k s. find_row_by (λ t. str_eq t.idempotency_key k) s.rows;
  find_txn_by_gateway_or_key = λ g k s.
      find_row_by (λ t. if is_text t.gateway_txn_id g then true else str_eq t.idempotency_key k)
        s.rows;
  save_txn = save;
  insert_txn = insert;
  insert_audit = log;
  history = λ id s. entries_of id s.entries;
  atomically = λ m s. roll_back s (m s);
}

find_row_id :
    (id : String) (t : Transaction) (rs : List Transaction) → find_row id rs ≡ some t → t.id ≡ id
find_row_id id t [] h = ground arith
find_row_id id t (r ∷ rs) h = ground (arith, eq_iff r.id id, find_row_id id t rs)

find_row-put_self :
    (t : Transaction) (rs : List Transaction) → find_row t.id (put_row t rs) ≡ some t
find_row-put_self t [] = ground (arith, eq_iff t.id t.id)
find_row-put_self t (r ∷ rs) =
    ground (arith, eq_iff t.id t.id, eq_iff r.id t.id, find_row-put_self t rs)

find_row-put_ne :
    (t : Transaction) (id : String) (rs : List Transaction)
    → id ≢ t.id
    → find_row id (put_row t rs) ≡ find_row id rs
find_row-put_ne t id [] ne = ground (arith, eq_iff t.id id)
find_row-put_ne t id (r ∷ rs) ne =
    ground (arith, eq_iff t.id id, eq_iff r.id t.id, eq_iff r.id id, find_row-put_ne t id rs)

entries_of-log_self :
    (e : AuditLog) (es : List AuditLog)
    → entries_of e.transaction_id (es ++ e ∷ []) ≡ entries_of e.transaction_id es ++ e ∷ []
entries_of-log_self e [] = ground (arith, eq_iff e.transaction_id e.transaction_id)
entries_of-log_self e (d ∷ es) =
    ground (arith, eq_iff d.transaction_id e.transaction_id, entries_of-log_self e es)

entries_of-log_ne :
    (e : AuditLog) (id : String) (es : List AuditLog)
    → id ≢ e.transaction_id
    → entries_of id (es ++ e ∷ []) ≡ entries_of id es
entries_of-log_ne e id [] ne = ground (arith, eq_iff e.transaction_id id)
entries_of-log_ne e id (d ∷ es) ne =
    ground (arith, eq_iff d.transaction_id id, entries_of-log_ne e id es)

is_free_lem :
    (id : String) (s : Store)
    → is_free id s ≡ true
    → (find_row id s.rows ≡ none) × (entries_of id s.entries ≡ [])
is_free_lem id s h = ground arith

insert-Inserted :
    (t : Transaction) (s : Store)
    → Ends (λ t' s'. Inserted memory t t' s s') (Unchanged s) (insert t s)
insert-Inserted t s = elim (Bool-cases (is_free t.idempotency_key s)) [
  | inl free ↦
      let t' = record t { id = t.idempotency_key } in
      rw free (
        Ends-ok t' (record s { rows = put_row t' s.rows })
          (record {
            returned = refl;
            unused = (is_free_lem t'.id s free).0;
            unlogged = (is_free_lem t'.id s free).1;
            stored = find_row-put_self t' s.rows;
            others = λ id ne. find_row-put_ne t' id s.rows ne;
            same_history = λ id. refl;
          }))
  | inr used ↦ rw used (Ends-err _ s refl)
]

save-Saved :
    (E : Exception → Store → Type 0) (t : Transaction) (s : Store)
    → Ends (λ t' s'. Saved memory t t' s s') E (save t s)
save-Saved E t s = Ends-ok t _ (record {
  returned = refl;
  stored = find_row-put_self t s.rows;
  others = λ id ne. find_row-put_ne t id s.rows ne;
  same_history = λ id. refl;
})

log-Logged :
    (E : Exception → Store → Type 0) (e : AuditLog) (s : Store)
    → Ends (λ u s'. Logged memory e s s') E (log e s)
log-Logged E e s = Ends-ok tt _ (record {
  appended = entries_of-log_self e s.entries;
  others = λ id ne. entries_of-log_ne e id s.entries ne;
  same_txn = λ id. refl;
})

roll_back_lem :
    (s : Store) (o : Result Exception Transaction × Store)
    → Ends (λ t s'. o ≡ (ok t, s')) (Unchanged s) (roll_back s o)
roll_back_lem s (ok t, s') = Ends-ok t s' refl
roll_back_lem s (err x, s') = Ends-err x s refl

-- The laws hold of the database in memory.
pub memory-IsLawful : IsLawful memory
memory-IsLawful = record {
  id-find_txn = λ id t s. find_row_id id t s.rows;
  save_txn_lem = λ t s. save-Saved (Unchanged s) t s;
  insert_txn_lem = insert-Inserted;
  insert_audit_lem = λ e s. log-Logged (Unchanged s) e s;
  atomically_lem = λ m s. roll_back_lem s (m s);
  atomically_throw = λ m x s s' e. ap (roll_back s) e;
}

pub memory-IsAvailable : IsAvailable memory
memory-IsAvailable = record {
  save_txn_total = save-Saved Never;
  insert_audit_total = log-Logged Never;
  atomically_total = λ m t s s' e. ap (roll_back s) e;
}
