-- ===== src/Redis/Store.antt =====
-- The keys and values that the program keeps in Redis, and the JavaScript `Map` that stands in for
-- it. The templates of the keys have different beginnings, so a key is its template and what
-- fills it; a value is what `JSON.stringify` was given, or a text.
use payment_orchestration_la.Common.{
  String, Bool, true, false, Option, none, some, List, [], ◌∷◌, str_eq, if◌then◌else◌, ◌≡◌, refl,
  arith, eq_iff,
}
use payment_orchestration_la.Enums.{GatewayProvider, provider_eq}
use payment_orchestration_la.Entities.{Transaction}

pub data RedisKey : Type 0 where
  -- `idempotency:${key}`
  idempotency : String → RedisKey
  -- `circuit:open:${gateway}`
  circuit : GatewayProvider → RedisKey
  -- 'payment_orchestrator:reconciliation_queue'
  reconciliation_queue : RedisKey

pub data Stored : Type 0 where
  -- { status: 'processing' } and { status: 'completed', transaction }
  processing_mark : Stored
  completed : Transaction → Stored
  -- 'open', or the id of a webhook event
  text : String → Stored

abbrev pub key_eq : RedisKey → RedisKey → Bool
key_eq (idempotency a) (idempotency b) = str_eq a b
key_eq (circuit a) (circuit b) = provider_eq a b
key_eq reconciliation_queue reconciliation_queue = true
key_eq _ _ = false

-- `value || null`: the empty text is no value
abbrev pub truthy_value : Option Stored → Option Stored
truthy_value (some (text s)) = if str_eq s "" then none else some (text s)
truthy_value o = o

abbrev pub MockStore : Type 0
MockStore = List (RedisKey × Stored)

unfoldable pub get : RedisKey → MockStore → Option Stored
get k [] = none
get k ((j, v) ∷ m) = if key_eq j k then some v else get k m

unfoldable pub has : RedisKey → MockStore → Bool
has k [] = false
has k ((j, v) ∷ m) = if key_eq j k then true else has k m

unfoldable pub set : RedisKey → Stored → MockStore → MockStore
set k v [] = (k, v) ∷ []
set k v ((j, w) ∷ m) = if key_eq j k then (j, v) ∷ m else (j, w) ∷ set k v m

unfoldable pub delete : RedisKey → MockStore → MockStore
delete k [] = []
delete k ((j, w) ∷ m) = let rest = delete k m in if key_eq j k then rest else (j, w) ∷ rest

pub key_eq_iff : (j k : RedisKey) → (key_eq j k ≡ true) → j ≡ k
key_eq_iff (idempotency a) (idempotency b) h = ground (arith, eq_iff a b)
key_eq_iff (circuit a) (circuit b) h = ground arith
key_eq_iff reconciliation_queue reconciliation_queue h = refl
key_eq_iff j k h = ground arith

pub key_eq_refl : (k : RedisKey) → key_eq k k ≡ true
key_eq_refl (idempotency a) = ground (arith, eq_iff a a)
key_eq_refl (circuit a) = ground arith
key_eq_refl reconciliation_queue = refl

pub get-set :
    (k j : RedisKey) (v : Stored) (m : MockStore)
    → get j (set k v m) ≡ (if key_eq k j then some v else get j m)
unfolding get set
get-set k j v [] = refl
get-set k j v ((i, w) ∷ m) = ground (
  arith,
  key_eq_iff i k,
  key_eq_iff i j,
  key_eq_iff k j,
  key_eq_refl k,
  key_eq_refl j,
  get-set k j v m,
)

pub get-delete :
    (k j : RedisKey) (m : MockStore) → get j (delete k m) ≡ (if key_eq k j then none else get j m)
unfolding get delete
get-delete k j [] = ground arith
get-delete k j ((i, w) ∷ m) = ground (
  arith,
  key_eq_iff i k,
  key_eq_iff i j,
  key_eq_iff k j,
  key_eq_refl k,
  key_eq_refl j,
  get-delete k j m,
)

pub has-eq-get :
    (k : RedisKey) (m : MockStore) → has k m ≡ (elim (get k m) [ none ↦ false | some v ↦ true ])
unfolding get has
has-eq-get k [] = refl
has-eq-get k ((j, v) ∷ m) = ground (arith, has-eq-get k m)
