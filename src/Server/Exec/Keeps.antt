-- ===== src/Server/Exec/Keeps.antt =====
-- Invariants of programs over the world, one rule for each way to build a program.
use minidp.Base.{ℕ, Bool, true, false, Option, none, some, if◌then◌else◌, suc, ◌≡◌, refl}
use minidp.Errors.{Result, ok, err}
use minidp.Store.{Store}
use minidp.Server.{Platform, World}
use minidp.Server.Exec.{
  Exec, Outcome, Reply, go, stop, ◌>>=◌, pure, answer, lift, stop_if, now, random, with_store,
  with_store_once, with_store_twice, or_answer, ok_or_answer, continue,
}

-- `m` keeps what `P` says of the store, whether it goes on or stops.
pub record Keeps {ℓ} {A : Type ℓ} (P : Store → Type 0) (m : Exec A) : Type ℓ where
  pub at : (w : World) → P w.store → P (m w).1.store

module _ {ℓ κ} {A : Type ℓ} {B : Type κ} {P : Store → Type 0} where
  Keeps-continue :
      (o : Outcome A) (f : A → Exec B) (w : World)
      → P w.store
      → ((a : A) → Keeps P (f a))
      → P (continue o f w).1.store
  Keeps-continue (go a) f w h k = (k a).at w h
  Keeps-continue (stop r) f w h k = h

  pub Keeps-bind :
      (m : Exec A) (f : A → Exec B) → Keeps P m → ((a : A) → Keeps P (f a)) → Keeps P (m >>= f)
  Keeps-bind m f h k = record { at = λ w p. Keeps-continue (m w).0 f (m w).1 (h.at w p) k }

  -- The rest runs with what the lifted outcome is.
  pub Keeps-lift-bind :
      (o : Outcome A) (f : A → Exec B)
      → ((a : A) → o ≡ go a → Keeps P (f a))
      → Keeps P (lift o >>= f)
  Keeps-lift-bind (go a) f k = record { at = λ w h. (k a refl).at w h }
  Keeps-lift-bind (stop r) f k = record { at = λ w h. h }

module _ {ℓ} {A : Type ℓ} {P : Store → Type 0} where
  pub Keeps-pure : (a : A) → Keeps P (pure a)
  Keeps-pure a = record { at = λ w h. h }

  pub Keeps-answer : (r : Reply) → Keeps P (answer {A = A} r)
  Keeps-answer r = record { at = λ w h. h }

  pub Keeps-lift : (o : Outcome A) → Keeps P (lift o)
  Keeps-lift o = record { at = λ w h. h }

  pub Keeps-or_answer : (r : Reply) (o : Option A) → Keeps P (or_answer r o)
  Keeps-or_answer r none = record { at = λ w h. h }
  Keeps-or_answer r (some a) = record { at = λ w h. h }

  pub Keeps-ok_or_answer : (r : Reply) (o : Result A) → Keeps P (ok_or_answer r o)
  Keeps-ok_or_answer r (err e) = record { at = λ w h. h }
  Keeps-ok_or_answer r (ok a) = record { at = λ w h. h }

  pub Keeps-if : (b : Bool) (m n : Exec A) → Keeps P m → Keeps P n → Keeps P (if b then m else n)
  Keeps-if true m n h k = h
  Keeps-if false m n h k = k

  pub Keeps-with_store_twice :
      (pf : Platform) (f : ℕ → ℕ → Store → A × Store)
      → ((t u : ℕ) (st : Store) → P st → P (f t u st).1)
      → Keeps P (with_store_twice pf f)
  Keeps-with_store_twice pf f k = record {
    at = λ w h. k (pf.clock w.reads) (pf.clock (suc w.reads)) w.store h;
  }

module _ {P : Store → Type 0} where
  pub Keeps-stop_if : (b : Bool) (r : Reply) → Keeps P (stop_if b r)
  Keeps-stop_if true r = record { at = λ w h. h }
  Keeps-stop_if false r = record { at = λ w h. h }

  pub Keeps-now : (pf : Platform) → Keeps P (now pf)
  Keeps-now pf = record { at = λ w h. h }

  pub Keeps-random : (pf : Platform) → Keeps P (random pf)
  Keeps-random pf = record { at = λ w h. h }

  pub Keeps-with_store_once :
      (pf : Platform) (f : ℕ → Store → Store)
      → ((t : ℕ) (st : Store) → P st → P (f t st))
      → Keeps P (with_store_once pf f)
  Keeps-with_store_once pf f k = record { at = λ w h. k (pf.clock w.reads) w.store h }

  pub Keeps-with_store :
      (f : Store → Store) → ((st : Store) → P st → P (f st)) → Keeps P (with_store f)
  Keeps-with_store f k = record { at = λ w h. k w.store h }

pub ruleset keeps_rules = (
  Keeps-bind, Keeps-pure, Keeps-answer, Keeps-lift, Keeps-or_answer, Keeps-ok_or_answer, Keeps-if,
  Keeps-with_store_twice, Keeps-stop_if, Keeps-now, Keeps-random, Keeps-with_store_once,
  Keeps-with_store,
)

abbrev pub WentOn {ℓ} : {A : Type ℓ} → Outcome A → Type 0
WentOn (go a) = Unit {0}
WentOn (stop r) = ⊥

-- `P` holds of the store wherever `m` goes on.
pub record Makes {ℓ} {A : Type ℓ} (P : Store → Type 0) (m : Exec A) : Type ℓ where
  pub at : (w : World) → WentOn (m w).0 → P (m w).1.store

module _ {ℓ κ} {A : Type ℓ} {B : Type κ} {P : Store → Type 0} where
  after-Makes :
      (o : Outcome A) (f : A → Exec B) (w : World)
      → (WentOn o → P w.store)
      → ((a : A) → Keeps P (f a))
      → WentOn (continue o f w).0
      → P (continue o f w).1.store
  after-Makes (go a) f w h k g = (k a).at w (h tt)
  after-Makes (stop r) f w h k g = absurd g

  -- The first step brings `P` about, and the rest keeps it.
  pub Makes-first :
      (m : Exec A) (f : A → Exec B) → Makes P m → ((a : A) → Keeps P (f a)) → Makes P (m >>= f)
  Makes-first m f h k = record { at = λ w g. after-Makes (m w).0 f (m w).1 (h.at w) k g }

  in-Makes :
      (o : Outcome A) (f : A → Exec B) (w : World)
      → ((a : A) → Makes P (f a))
      → WentOn (continue o f w).0
      → P (continue o f w).1.store
  in-Makes (go a) f w k g = (k a).at w g
  in-Makes (stop r) f w k g = absurd g

  -- The rest brings it about.
  pub Makes-rest : (m : Exec A) (f : A → Exec B) → ((a : A) → Makes P (f a)) → Makes P (m >>= f)
  Makes-rest m f k = record { at = λ w g. in-Makes (m w).0 f (m w).1 k g }

pub Makes-with_store_twice {ℓ} :
    {A : Type ℓ} {P : Store → Type 0} (pf : Platform) (f : ℕ → ℕ → Store → A × Store)
    → ((t u : ℕ) (st : Store) → P (f t u st).1)
    → Makes P (with_store_twice pf f)
Makes-with_store_twice pf f k = record {
  at = λ w g. k (pf.clock w.reads) (pf.clock (suc w.reads)) w.store;
}
