-- ===== src/Async/Lens.antt =====
-- A method on a part of the state as a method on the state.
use payment_orchestration_la.Common.{String, Option, ◌≡◌, ap, ◌∙◌, sym}
use payment_orchestration_la.Common.Effect.{Result, Action}
use payment_orchestration_la.Async.{Task, done, step, run}
use payment_orchestration_la.Async.Rules.{Guarantee, Steps, ended, going}
use payment_orchestration_la.Async.Alone.{Does}

-- A part of the state, which is read and written.
pub record Part (T S : Type 0) : Type 0 where
  pub get : T → S
  pub put : S → T → T
  pub get-put : (s : S) (t : T) → get (put s t) ≡ s
  pub put-get : (t : T) → put (get t) t ≡ t
  pub put-put : (s s' : S) (t : T) → put s' (put s t) ≡ put s' t

module _ {T S X A : Type 0} (p : Part T S) where
  unfoldable pub zoom : Task S X A → Task T X A
  zoom (done r) = done r
  zoom (step l u k) = step l (λ a. p.put (u (p.get a)) a) (λ a. zoom (k (p.get a)))

  unfoldable pub zoomed : Action S X A → Action T X A
  zoomed m a = let (r, s) = m (p.get a) in (r, p.put s a)

  run-zoom : (t : Task S X A) (a : T) → run (zoom t) a ≡ zoomed (run t) a
  unfolding zoom zoomed run
  run-zoom (done r) a = ap (λ b. (r, b)) (sym (p.put-get a))
  run-zoom (step l u k) a =
      run-zoom (k (p.get a)) (p.put (u (p.get a)) a)
      ∙ (ap (λ s. ((run (k (p.get a)) s).0, p.put (run (k (p.get a)) s).1 (p.put (u (p.get a)) a)))
            (p.get-put (u (p.get a)) a)
          ∙ ap (λ b. ((run (k (p.get a)) (u (p.get a))).0, b)) (p.put-put (u (p.get a)) _ a))

  pub Does-zoom : {t : Task S X A} {m : Action S X A} → Does t m → Does (zoom t) (zoomed m)
  unfolding zoomed
  Does-zoom {t = t} h = record {
    same = λ a. run-zoom t a ∙ ap (λ (o : Result X A × S). (o.0, p.put o.1 a)) (h.same (p.get a));
  }

  pub Steps-zoom :
      {R : Guarantee S} {Q : Guarantee T} {t : Task S X A}
      → ((l : Option String) (a : T) (s : S) → R l (p.get a) s → Q l a (p.put s a))
      → Steps R t
      → Steps Q (zoom t)
  unfolding zoom
  Steps-zoom h (ended r) = ended r
  Steps-zoom h (going l u k g i) =
      going l _ _ (λ a. h l a (u (p.get a)) (g (p.get a))) (λ a. Steps-zoom h (i (p.get a)))
