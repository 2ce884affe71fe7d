-- ===== src/Routing/Table.antt =====
-- A table of statistics in memory, which shows that the laws of `StatsRepo` can be met.
use payment_orchestration_la.Common.{
  ◌≡◌, ◌≢◌, true, Option, none, some, List, [], ◌∷◌, arith, if◌then◌else◌, refl,
}
use payment_orchestration_la.Common.Effect.{ok}
use payment_orchestration_la.Common.Effect.Rules.{Ends, Ends-ok}
use payment_orchestration_la.Enums.{GatewayProvider, stripe, razorpay, payu, upi, provider_eq}
use payment_orchestration_la.Entities.{GatewayStats}
use payment_orchestration_la.Database.{Exception}
use payment_orchestration_la.Routing.Stats.{StatsRepo, StatsSaved, IsStatsRepo}

abbrev row_of : GatewayProvider → List GatewayStats → Option GatewayStats
row_of g [] = none
row_of g (r ∷ rs) = if provider_eq r.gateway g then some r else row_of g rs

abbrev put : GatewayStats → List GatewayStats → List GatewayStats
put row [] = row ∷ []
put row (r ∷ rs) = if provider_eq r.gateway row.gateway then row ∷ rs else r ∷ put row rs

abbrev pub table : StatsRepo
table = record {
  State = List GatewayStats;
  find = λ s. s;
  find_one = row_of;
  save = λ row s. (ok tt, put row s);
}

pub provider_eq_iff : (g h : GatewayProvider) → provider_eq g h ≡ true → g ≡ h
provider_eq_iff stripe stripe e = refl
provider_eq_iff stripe razorpay e = absurd (ground arith)
provider_eq_iff stripe payu e = absurd (ground arith)
provider_eq_iff stripe upi e = absurd (ground arith)
provider_eq_iff razorpay stripe e = absurd (ground arith)
provider_eq_iff razorpay razorpay e = refl
provider_eq_iff razorpay payu e = absurd (ground arith)
provider_eq_iff razorpay upi e = absurd (ground arith)
provider_eq_iff payu stripe e = absurd (ground arith)
provider_eq_iff payu razorpay e = absurd (ground arith)
provider_eq_iff payu payu e = refl
provider_eq_iff payu upi e = absurd (ground arith)
provider_eq_iff upi stripe e = absurd (ground arith)
provider_eq_iff upi razorpay e = absurd (ground arith)
provider_eq_iff upi payu e = absurd (ground arith)
provider_eq_iff upi upi e = refl

pub provider_eq_refl : (g : GatewayProvider) → provider_eq g g ≡ true
provider_eq_refl stripe = refl
provider_eq_refl razorpay = refl
provider_eq_refl payu = refl
provider_eq_refl upi = refl

row_of-gateway :
    (g : GatewayProvider) (row : GatewayStats) (rs : List GatewayStats)
    → row_of g rs ≡ some row
    → row.gateway ≡ g
row_of-gateway g row [] h = ground arith
row_of-gateway g row (r ∷ rs) h =
    ground (arith, provider_eq_iff r.gateway g, row_of-gateway g row rs)

row_of-put_self :
    (row : GatewayStats) (rs : List GatewayStats) → row_of row.gateway (put row rs) ≡ some row
row_of-put_self row [] = ground (arith, provider_eq_refl row.gateway)
row_of-put_self row (r ∷ rs) = ground (arith, provider_eq_refl row.gateway, row_of-put_self row rs)

row_of-put_ne :
    (row : GatewayStats) (g : GatewayProvider) (rs : List GatewayStats)
    → g ≢ row.gateway
    → row_of g (put row rs) ≡ row_of g rs
row_of-put_ne row g [] ne = ground (arith, provider_eq_iff row.gateway g)
row_of-put_ne row g (r ∷ rs) ne = ground (
  arith,
  provider_eq_iff row.gateway g,
  provider_eq_iff r.gateway row.gateway,
  provider_eq_iff r.gateway g,
  row_of-put_ne row g rs,
)

pub table_saved :
    (E : Exception → List GatewayStats → Type 0) (row : GatewayStats) (s : List GatewayStats)
    → Ends (λ u s'. StatsSaved table row s s') E (table.save row s)
table_saved E row s =
    Ends-ok tt _
      (record { stored = row_of-put_self row s; others = λ g ne. row_of-put_ne row g s ne })

-- The laws hold of the table in memory.
pub table-IsStatsRepo : IsStatsRepo table
table-IsStatsRepo = record {
  gateway-find_one = row_of-gateway;
  save_lem = λ row s. table_saved _ row s;
}
