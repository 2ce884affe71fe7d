-- ===== src/Adapters/Sandbox.antt =====
-- Payments through the adapters: in the sandbox, and of whole units with live keys.
use mathlib.Core.List.{Memᴰ}
use payment_orchestration_la.Common.{
  ℕ, ◌%◌, ◌≤◌, ◌<◌, ◌≡◌, ◌≢◌, ◌⊎◌, inl, inr, refl, true, some, List, [], ◌∷◌, arith, ltb, sym, ◌∙◌,
  String, subst,
}
use payment_orchestration_la.Common.Effect.Rules.{Ends, Never, Ends-mono}
use payment_orchestration_la.Enums.{
  GatewayProvider, stripe, razorpay, payu, upi, success, routed, allowed,
}
use payment_orchestration_la.Entities.{Transaction}
use payment_orchestration_la.Database.{IsLawful, IsAvailable}
use payment_orchestration_la.Routing.Config.{Env}
use payment_orchestration_la.Routing.Stats.{IsStatsRepo}
use payment_orchestration_la.Routing.Effects.{SavesAll}
use payment_orchestration_la.Payments.Charge.{GatewayChargeRequest, race}
use payment_orchestration_la.Payments.World.{System, World}
use payment_orchestration_la.Payments.Requests.{CreateTransactionDto, charge_request}
use payment_orchestration_la.Payments.Service.{run_attempts}
use payment_orchestration_la.Payments.Attempts.{pays, final_state}
use payment_orchestration_la.Payments.Failover.{run_attempts_result}
use payment_orchestration_la.Adapters.{Web}
use payment_orchestration_la.Adapters.Online.{adapter, online}
use payment_orchestration_la.Adapters.Simulated.{
  Ending, succeeds, refuses, ending_of, Simulates, is_simulated, is_sandbox, charge_by_amount,
}

-- A timer that is set to less than another goes off before it.
abbrev pub InOrder : Web → Type 0
InOrder web = (m n : ℕ) → m < n → web.timer m < web.timer n

by_ending :
    (web : Web) (env : Env) (r : GatewayChargeRequest) (g : GatewayProvider) (e : Ending)
    → is_simulated env g r.amount ≡ true
    → ending_of g r.amount ≡ e
    → Simulates web e (adapter web env g r)
by_ending web env r g e h same = elim (charge_by_amount web env r g) [
  | inl (simulated, s) ↦ subst (λ x. Simulates web x (adapter web env g r)) same s
  | inr (live, charged) ↦ absurd (ground (arith, h, live))
]

-- A charge that is simulated and succeeds pays within the time limit.
simulated_pays :
    (web : Web) (env : Env) (now : ℕ) (order : InOrder web) (g : GatewayProvider)
    (r : GatewayChargeRequest)
    → Simulates web succeeds (adapter web env g r)
    → (race (online web env now) g r).0.success ≡ true
unfolding race
simulated_pays web env now order g r s =
    let early : web.timer s.wait < web.timer 1500 = order s.wait 1500 (omega (arith, s.lasts)) in
    let in_time : ltb (web.timer s.wait) (web.timer 1500) ≡ true = ground (arith, early) in
    rw (s.after, s.answer, in_time) s.success

-- One of two gateways succeeds, unless they are Stripe and UPI.
one_succeeds :
    (n : ℕ) (g₁ g₂ : GatewayProvider)
    → (g₁ ≡ razorpay) ⊎ (g₁ ≡ payu)
    → g₁ ≢ g₂
    → (ending_of g₁ n ≡ succeeds) ⊎ (ending_of g₂ n ≡ succeeds)
one_succeeds n stripe g₂ h ne = absurd (ground arith)
one_succeeds n upi g₂ h ne = absurd (ground arith)
one_succeeds n razorpay stripe h ne = ground arith
one_succeeds n razorpay razorpay h ne = absurd (ne refl)
one_succeeds n razorpay payu h ne = ground arith
one_succeeds n razorpay upi h ne = ground arith
one_succeeds n payu stripe h ne = ground arith
one_succeeds n payu razorpay h ne = ground arith
one_succeeds n payu payu h ne = absurd (ne refl)
one_succeeds n payu upi h ne = ground arith

-- The loop ends with SUCCESS where one of its gateways pays.
final_state_success :
    (Y : System) (dto : CreateTransactionDto) (id : String) (p g : GatewayProvider)
    (rest : List GatewayProvider)
    → Memᴰ p (g ∷ rest)
    → pays Y dto id p ≡ true
    → final_state Y dto id g rest ≡ success
final_state_success Y dto id p g [] (Memᴰ.head e) h = rw (sym e, h) refl
final_state_success Y dto id p g [] (Memᴰ.tail m) h = elim m [ ]
final_state_success Y dto id p g (next ∷ rest) (Memᴰ.head e) h = rw (sym e, h) refl
final_state_success Y dto id p g (next ∷ rest) (Memᴰ.tail m) h =
    let others = final_state_success Y dto id p next rest m h in ground (arith, others)

-- The service with these adapters.
abbrev pub through : System → Web → Env → ℕ → System
through Y web env now = record Y { env = env; outside = online web env now }

module _ (web : Web) (env : Env) (now : ℕ) (order : InOrder web)
    (sandbox : (g : GatewayProvider) → is_sandbox env g ≡ true) where
  pays_in_sandbox :
      (Y : System) (dto : CreateTransactionDto) (id : String) (g : GatewayProvider)
      → ending_of g dto.amount ≡ succeeds
      → pays (through Y web env now) dto id g ≡ true
  unfolding charge_request
  pays_in_sandbox Y dto id g e =
      simulated_pays web env now order g (charge_request dto id g)
        (by_ending web env (charge_request dto id g) g succeeds (ground (arith, sandbox g)) e)

  -- Without keys, where the timers go off in order and the database refuses no write, a payment of
  -- any amount whose gateways are at least Razorpay or PayU and one more ends as SUCCESS.
  pub sandbox_pays :
      (Y : System) (lawful : IsLawful Y.database) (available : IsAvailable Y.database)
      (stats_law : IsStatsRepo Y.stats) (all : SavesAll Y.stats) (dto : CreateTransactionDto)
      (id : String) (g g₁ g₂ : GatewayProvider) (rest : List GatewayProvider) (t : Transaction)
      (w : World (through Y web env now))
      → Y.database.find_txn id w.db ≡ some t
      → allowed t.current_state routed ≡ true
      → Memᴰ g₁ (g ∷ rest)
      → Memᴰ g₂ (g ∷ rest)
      → (g₁ ≡ razorpay) ⊎ (g₁ ≡ payu)
      → g₁ ≢ g₂
      → Ends
          (λ t' w'. t'.current_state ≡ success)
          Never
          (run_attempts (through Y web env now) dto id g rest w)
  sandbox_pays Y lawful available stats_law all dto id g g₁ g₂ rest t w found may m₁ m₂ h ne =
      Ends-mono _
        (run_attempts_result (through Y web env now) lawful available stats_law all dto id g rest t
          w found may)
        (λ t' w' e r. r.0 ∙ (elim (one_succeeds dto.amount g₁ g₂ h ne) [
          | inl e₁ ↦
              final_state_success (through Y web env now) dto id g₁ g rest m₁
                (pays_in_sandbox Y dto id g₁ e₁)
          | inr e₂ ↦
              final_state_success (through Y web env now) dto id g₂ g rest m₂
                (pays_in_sandbox Y dto id g₂ e₂)
        ]))
        (λ x s e never. never)

-- With any keys, a charge of a whole number of units (an amount of a hundred or a multiple of it) sends
-- no request through Stripe, which declines it, through Razorpay, which reports it paid, and through
-- UPI, which declines it.
pub whole_units :
    (web : Web) (env : Env) (r : GatewayChargeRequest)
    → 10 ≤ r.amount
    → r.amount % 100 ≡ 0
    → Simulates web refuses (adapter web env stripe r)
      × Simulates web succeeds (adapter web env razorpay r)
      × Simulates web refuses (adapter web env upi r)
whole_units web env r large whole = (
  by_ending web env r stripe refuses (ground arith) (ground arith),
  by_ending web env r razorpay succeeds (ground arith) (ground arith),
  by_ending web env r upi refuses (ground arith) (ground arith),
)
