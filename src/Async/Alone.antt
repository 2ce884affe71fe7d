-- ===== src/Async/Alone.antt =====
-- A method that runs alone is an action.
use payment_orchestration_la.Common.{
  String, Option, none, some, Bool, true, false, if◌then◌else◌, ◌≡◌, refl, ap, ◌∙◌,
}
use payment_orchestration_la.Common.Effect.{Result, ok, err, Action, pure, throw, catch}
use payment_orchestration_la.Common.Effect.{◌>>=◌ as bind}
use payment_orchestration_la.Async.{Task, done, step, await, give, fail, ◌>>=◌, rescue, within, run}

-- The method, alone, does what the action does.
pub record Does {S X A : Type 0} (t : Task S X A) (m : Action S X A) : Type 0 where
  pub same : (s : S) → run t s ≡ m s

module _ {S X : Type 0} where
  pub Does-await : {A : Type 0} (m : Action S X A) → Does (await m) m
  unfolding await run
  Does-await m = record { same = λ s. refl }

  pub Does-give : {A : Type 0} (a : A) → Does {S = S} {X = X} (give a) (pure a)
  unfolding give run pure
  Does-give a = record { same = λ s. refl }

  pub Does-fail : {A : Type 0} (x : X) → Does {S = S} {A = A} (fail x) (throw x)
  unfolding fail run throw
  Does-fail x = record { same = λ s. refl }

  run-bind :
      {A B : Type 0} (t : Task S X A) (f : A → Task S X B) (s : S)
      → run (t >>= f) s ≡ bind (run t) (λ a. run (f a)) s
  unfolding run ◌>>=◌ bind
  run-bind (done (ok a)) f s = refl
  run-bind (done (err x)) f s = refl
  run-bind (step l u k) f s = run-bind (k s) f (u s)

  run-rescue :
      {A : Type 0} (t : Task S X A) (h : X → Task S X A) (s : S)
      → run (rescue t h) s ≡ catch (run t) (λ x. run (h x)) s
  unfolding run rescue catch
  run-rescue (done (ok a)) h s = refl
  run-rescue (done (err x)) h s = refl
  run-rescue (step l u k) h s = run-rescue (k s) h (u s)

  after_same :
      {A B : Type 0} (f : A → Task S X B) (n : A → Action S X B)
      → ((a : A) → Does (f a) (n a))
      → (o : Result X A × S)
      → elim o.0 as (λ x. Result X B × S) [ ok a ↦ run (f a) o.1 | err x ↦ (err x, o.1) ]
        ≡ (elim o.0 [ ok a ↦ n a o.1 | err x ↦ (err x, o.1) ])
  after_same f n h (ok a, s) = (h a).same s
  after_same f n h (err x, s) = refl

  caught_same :
      {A : Type 0} (f : X → Task S X A) (n : X → Action S X A)
      → ((x : X) → Does (f x) (n x))
      → (o : Result X A × S)
      → elim o.0 as (λ x. Result X A × S) [ ok a ↦ (ok a, o.1) | err x ↦ run (f x) o.1 ]
        ≡ (elim o.0 [ ok a ↦ (ok a, o.1) | err x ↦ n x o.1 ])
  caught_same f n h (ok a, s) = refl
  caught_same f n h (err x, s) = (h x).same s

  pub Does-bind :
      {A B : Type 0} {t : Task S X A} {m : Action S X A} {f : A → Task S X B} {n : A → Action S X B}
      → Does t m
      → ((a : A) → Does (f a) (n a))
      → Does (t >>= f) (bind m n)
  unfolding bind
  Does-bind {A = A} {B = B} {t = t} {m = m} {f = f} {n = n} h k = record {
    same = λ s.
        run-bind t f s
        ∙ (ap
              (λ (o : Result X A × S). elim o.0 as (λ x. Result X B × S) [
                | ok a ↦ run (f a) o.1
                | err x ↦ (err x, o.1)
              ])
              (h.same s)
            ∙ after_same f n k (m s));
  }

  pub Does-rescue :
      {A : Type 0} {t : Task S X A} {m : Action S X A} {f : X → Task S X A} {n : X → Action S X A}
      → Does t m
      → ((x : X) → Does (f x) (n x))
      → Does (rescue t f) (catch m n)
  unfolding catch
  Does-rescue {A = A} {t = t} {m = m} {f = f} {n = n} h k = record {
    same = λ s.
        run-rescue t f s
        ∙ (ap
              (λ (o : Result X A × S). elim o.0 as (λ x. Result X A × S) [
                | ok a ↦ (ok a, o.1)
                | err x ↦ run (f x) o.1
              ])
              (h.same s)
            ∙ caught_same f n k (m s));
  }

  run-within : {A : Type 0} (key : String) (t : Task S X A) (s : S) → run (within key t) s ≡ run t s
  unfolding run within
  run-within key (done r) s = refl
  run-within key (step l u k) s = run-within key (k s) (u s)

  pub Does-within :
      {A : Type 0} {t : Task S X A} {m : Action S X A} (key : String)
      → Does t m
      → Does (within key t) m
  Does-within {t = t} key h = record { same = λ s. run-within key t s ∙ h.same s }

  pub Does-if :
      {A : Type 0} (b : Bool) {t n : Task S X A} {m l : Action S X A}
      → Does t m
      → Does n l
      → Does (if b then t else n) (if b then m else l)
  Does-if true h k = h
  Does-if false h k = k

  pub Does-elim :
      {A B : Type 0} (o : Option B) {n : Task S X A} {l : Action S X A} {f : B → Task S X A}
      {m : B → Action S X A}
      → Does n l
      → ((b : B) → Does (f b) (m b))
      → Does (elim o [ none ↦ n | some b ↦ f b ]) (elim o [ none ↦ l | some b ↦ m b ])
  Does-elim none h k = h
  Does-elim (some b) h k = k b
