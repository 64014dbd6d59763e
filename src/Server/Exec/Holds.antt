-- ===== src/Server/Exec/Holds.antt =====
-- Invariants of programs that also draw from the source of randomness: what holds of the store, in a
-- world that has drawn at least `d` times.
use minidp.Base.{
  String, ℕ, suc, ◌≤◌, ◌≡◌, refl, Bool, true, false, Option, none, some, if◌then◌else◌, arith,
}
use minidp.Errors.{Result, ok, err}
use minidp.Store.{Store}
use minidp.Server.{Platform, World}
use minidp.Server.Exec.{
  Exec, Outcome, Reply, go, stop, ◌>>=◌, pure, answer, lift, stop_if, now, random, with_store,
  with_store_once, with_store_twice, or_answer, ok_or_answer, continue,
}

-- `P` of the store, behind the first `d` draws.
pub record Behind (d : ℕ) (P : Store → Type 0) (w : World) : Type 0 where
  pub drawn : d ≤ w.draws
  pub holds : P w.store

pub record Holds {ℓ} {A : Type ℓ} (d : ℕ) (P : Store → Type 0) (m : Exec A) : Type ℓ where
  pub at : (w : World) → Behind d P w → Behind d P (m w).1

module _ {ℓ κ} {A : Type ℓ} {B : Type κ} {d : ℕ} {P : Store → Type 0} where
  Holds-continue :
      (o : Outcome A) (f : A → Exec B) (w : World)
      → Behind d P w
      → ((a : A) → Holds d P (f a))
      → Behind d P (continue o f w).1
  Holds-continue (go a) f w h k = (k a).at w h
  Holds-continue (stop r) f w h k = h

  pub Holds-bind :
      (m : Exec A) (f : A → Exec B)
      → Holds d P m
      → ((a : A) → Holds d P (f a))
      → Holds d P (m >>= f)
  Holds-bind m f h k = record { at = λ w p. Holds-continue (m w).0 f (m w).1 (h.at w p) k }

  -- The rest runs with the value that was there.
  pub Holds-or_answer-bind :
      (r : Reply) (o : Option A) (f : A → Exec B)
      → ((a : A) → o ≡ some a → Holds d P (f a))
      → Holds d P (or_answer r o >>= f)
  Holds-or_answer-bind r none f k = record { at = λ w h. h }
  Holds-or_answer-bind r (some a) f k = record { at = λ w h. (k a refl).at w h }

module _ {ℓ} {A : Type ℓ} {d : ℕ} {P : Store → Type 0} where
  -- The rest runs with a draw that was not made before.
  pub Holds-random-bind :
      (pf : Platform) (f : Option String → Exec A)
      → ((n : ℕ) → d ≤ n → Holds d P (f (pf.draw n)))
      → Holds d P (random pf >>= f)
  Holds-random-bind pf f k = record {
    at = λ w h.
        (k w.draws h.drawn).at (record w { draws = suc w.draws })
          (record { drawn = omega (arith, h.drawn); holds = h.holds });
  }

  -- The rest runs with a reading of the clock.
  pub Holds-now-bind :
      (pf : Platform) (f : ℕ → Exec A)
      → ((n : ℕ) → Holds d P (f (pf.clock n)))
      → Holds d P (now pf >>= f)
  Holds-now-bind pf f k = record {
    at = λ w h.
        (k w.reads).at (record w { reads = suc w.reads })
          (record { drawn = h.drawn; holds = h.holds });
  }

  pub Holds-pure : (a : A) → Holds d P (pure a)
  Holds-pure a = record { at = λ w h. h }

  pub Holds-answer : (r : Reply) → Holds d P (answer {A = A} r)
  Holds-answer r = record { at = λ w h. h }

  pub Holds-lift : (o : Outcome A) → Holds d P (lift o)
  Holds-lift o = record { at = λ w h. h }

  pub Holds-or_answer : (r : Reply) (o : Option A) → Holds d P (or_answer r o)
  Holds-or_answer r none = record { at = λ w h. h }
  Holds-or_answer r (some a) = record { at = λ w h. h }

  pub Holds-ok_or_answer : (r : Reply) (o : Result A) → Holds d P (ok_or_answer r o)
  Holds-ok_or_answer r (err e) = record { at = λ w h. h }
  Holds-ok_or_answer r (ok a) = record { at = λ w h. h }

  pub Holds-if :
      (b : Bool) (m n : Exec A) → Holds d P m → Holds d P n → Holds d P (if b then m else n)
  Holds-if true m n h k = h
  Holds-if false m n h k = k

  pub Holds-with_store_twice :
      (pf : Platform) (f : ℕ → ℕ → Store → A × Store)
      → ((n : ℕ) (st : Store) → P st → P (f (pf.clock n) (pf.clock (suc n)) st).1)
      → Holds d P (with_store_twice pf f)
  Holds-with_store_twice pf f k = record {
    at = λ w h. record { drawn = h.drawn; holds = k w.reads w.store h.holds };
  }

module _ {d : ℕ} {P : Store → Type 0} where
  pub Holds-stop_if : (b : Bool) (r : Reply) → Holds d P (stop_if b r)
  Holds-stop_if true r = record { at = λ w h. h }
  Holds-stop_if false r = record { at = λ w h. h }

  pub Holds-now : (pf : Platform) → Holds d P (now pf)
  Holds-now pf = record { at = λ w h. record { drawn = h.drawn; holds = h.holds } }

  pub Holds-with_store_once :
      (pf : Platform) (f : ℕ → Store → Store)
      → ((n : ℕ) (st : Store) → P st → P (f (pf.clock n) st))
      → Holds d P (with_store_once pf f)
  Holds-with_store_once pf f k = record {
    at = λ w h. record { drawn = h.drawn; holds = k w.reads w.store h.holds };
  }

  pub Holds-with_store :
      (f : Store → Store) → ((st : Store) → P st → P (f st)) → Holds d P (with_store f)
  Holds-with_store f k = record {
    at = λ w h. record { drawn = h.drawn; holds = k w.store h.holds };
  }

pub ruleset holds_rules = (
  Holds-random-bind, Holds-now-bind, Holds-or_answer-bind, Holds-bind, Holds-pure, Holds-answer,
  Holds-lift, Holds-or_answer, Holds-ok_or_answer, Holds-if, Holds-with_store_twice, Holds-stop_if,
  Holds-now, Holds-with_store_once, Holds-with_store,
)
