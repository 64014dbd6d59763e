-- ===== src/Server/Exec/Ends.antt =====
-- What the replies of a program satisfy, whether it stops early or goes on to its end.
use minidp.Base.{ℕ, Bool, true, false, if◌then◌else◌}
use minidp.Store.{Store}
use minidp.Server.{Platform, World}
use minidp.Server.Exec.{
  Exec, Outcome, go, stop, Reply, ◌>>=◌, continue, pure, answer, lift, stop_if, now, random,
  with_store_twice, reply_of,
}

abbrev pub StopsIn {ℓ} : {A : Type ℓ} → (Reply → Type 0) → Outcome A → Type 0
StopsIn P (go a) = Unit {0}
StopsIn P (stop r) = P r

-- Where `m` stops early, its reply satisfies `P`.
pub record Stops {ℓ} {A : Type ℓ} (P : Reply → Type 0) (m : Exec A) : Type ℓ where
  pub at : (w : World) → StopsIn P (m w).0

-- The reply of `m` satisfies `P`.
pub record Ends (P : Reply → Type 0) (m : Exec Reply) : Type 0 where
  pub at : (w : World) → P (reply_of (m w).0)

module _ {ℓ} {A : Type ℓ} {P : Reply → Type 0} where
  in-Ends :
      (o : Outcome A) (v : World) (f : A → Exec Reply)
      → StopsIn P o
      → ((a : A) → Ends P (f a))
      → P (reply_of (continue o f v).0)
  in-Ends (go a) v f h k = (k a).at v
  in-Ends (stop r) v f h k = h

  pub Ends-bind :
      (m : Exec A) (f : A → Exec Reply) → Stops P m → ((a : A) → Ends P (f a)) → Ends P (m >>= f)
  Ends-bind m f h k = record { at = λ w. in-Ends (m w).0 (m w).1 f (h.at w) k }

  pub Stops-pure : (a : A) → Stops P (pure a)
  Stops-pure a = record { at = λ w. tt }

  pub Stops-answer : (r : Reply) → P r → Stops P (answer {A = A} r)
  Stops-answer r h = record { at = λ w. h }

  pub Stops-lift : (o : Outcome A) → StopsIn P o → Stops P (lift o)
  Stops-lift o h = record { at = λ w. h }

  pub Stops-with_store_twice :
      (pf : Platform) (f : ℕ → ℕ → Store → A × Store) → Stops P (with_store_twice pf f)
  Stops-with_store_twice pf f = record { at = λ w. tt }

module _ {ℓ κ} {A : Type ℓ} {B : Type κ} {P : Reply → Type 0} where
  in-Stops :
      (o : Outcome A) (v : World) (f : A → Exec B)
      → StopsIn P o
      → ((a : A) → Stops P (f a))
      → StopsIn P (continue o f v).0
  in-Stops (go a) v f h k = (k a).at v
  in-Stops (stop r) v f h k = h

  pub Stops-bind :
      (m : Exec A) (f : A → Exec B) → Stops P m → ((a : A) → Stops P (f a)) → Stops P (m >>= f)
  Stops-bind m f h k = record { at = λ w. in-Stops (m w).0 (m w).1 f (h.at w) k }

module _ {P : Reply → Type 0} where
  pub Ends-pure : (r : Reply) → P r → Ends P (pure r)
  Ends-pure r h = record { at = λ w. h }

  pub Stops-stop_if : (b : Bool) (r : Reply) → P r → Stops P (stop_if b r)
  Stops-stop_if true r h = record { at = λ w. h }
  Stops-stop_if false r h = record { at = λ w. tt }

  pub Stops-now : (pf : Platform) → Stops P (now pf)
  Stops-now pf = record { at = λ w. tt }

  pub Stops-random : (pf : Platform) → Stops P (random pf)
  Stops-random pf = record { at = λ w. tt }

  pub Ends-if : (b : Bool) (m n : Exec Reply) → Ends P m → Ends P n → Ends P (if b then m else n)
  Ends-if true m n h k = h
  Ends-if false m n h k = k

module _ {ℓ} {A : Type ℓ} {P : Reply → Type 0} where
  pub Stops-if : (b : Bool) (m n : Exec A) → Stops P m → Stops P n → Stops P (if b then m else n)
  Stops-if true m n h k = h
  Stops-if false m n h k = k

pub ruleset ends_rules = (
  Ends-bind, Ends-pure, Ends-if, Stops-pure, Stops-answer, Stops-lift, Stops-bind, Stops-stop_if,
  Stops-now, Stops-random, Stops-with_store_twice, Stops-if,
)
