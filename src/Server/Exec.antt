-- ===== src/Server/Exec.antt =====
-- Handlers as programs: a step reads and changes the world, and goes on with a value or stops with
-- the response that has been written.
pub mod Keeps
pub mod Holds
pub mod Ends
use minidp.Base.{
  ◌≡◌, refl, sym, ap, ◌∙◌, ℕ, suc, ◌+◌, String, Bool, true, false, Option, none, some, List,
  if◌then◌else◌,
}
use minidp.Clients.{User}
use minidp.Tokens.{TokenResponse}
use minidp.Tokens.Claims.{Claims}
use minidp.Errors.{Result, ok, err}
use minidp.Store.{Store}
use minidp.Server.{Platform, World}

-- What the login page shows as a form: the error, the user name, the hidden fields, the form token,
-- and the cookie that is set along with it.
pub record LoginForm : Type 0 where
  pub error : String
  pub username : String
  pub hidden : List (String × String)
  pub csrf_token : String
  pub set_cookie : Option String

-- What a handler answers. Headers and human-readable descriptions are left out.
pub data Reply : Type 0 where
  -- writeError: a status and an OAuth error code
  error : ℕ → String → Reply
  -- a token set, with status 200
  tokens : TokenResponse → Reply
  -- a JSON object, with status 200
  json : Claims → Reply
  -- an empty answer, with status 200
  done : Reply
  -- the login page with a status: a message, or a form
  message : ℕ → String → Reply
  form : ℕ → LoginForm → Reply
  -- http.Error: a status and a text
  plain : ℕ → String → Reply
  -- a redirect to a registered URI, with the parameters that are set on its query
  redirect : String → List (String × String) → Reply

pub data Outcome {ℓ} (A : Type ℓ) : Type ℓ where
  go : A → Outcome A
  stop : Reply → Outcome A

abbrev pub Exec {ℓ} : Type ℓ → Type ℓ
Exec A = World → Outcome A × World

module _ {ℓ κ} {A : Type ℓ} {B : Type κ} where
  abbrev pub continue : Outcome A → (A → Exec B) → Exec B
  continue (go a) f w = f a w
  continue (stop r) f w = (stop r, w)

  infixl 5 ◌>>=◌
  abbrev pub ◌>>=◌ : Exec A → (A → Exec B) → Exec B
  ◌>>=◌ m f w = let (o, w') = m w in continue o f w'

infixl 5 ◌>>◌
abbrev pub ◌>>◌ {ℓ κ} : {A : Type ℓ} {B : Type κ} → Exec A → Exec B → Exec B
m >> k = m >>= λ _. k

abbrev pub pure {ℓ} : {A : Type ℓ} → A → Exec A
pure a w = (go a, w)

abbrev pub answer {ℓ} : {A : Type ℓ} → Reply → Exec A
answer r w = (stop r, w)

abbrev pub lift {ℓ} : {A : Type ℓ} → Outcome A → Exec A
lift o w = (o, w)

-- if bad { answer; return }
abbrev pub stop_if : Bool → Reply → Exec (Unit {0})
stop_if true r = answer r
stop_if false r = pure tt

abbrev pub reply_of : Outcome Reply → Reply
reply_of (go r) = r
reply_of (stop r) = r

module _ (pf : Platform) where
  abbrev pub now : Exec ℕ
  now w = (go (pf.clock w.reads), record w { reads = suc w.reads })

  abbrev pub random : Exec (Option String)
  random w = (go (pf.draw w.draws), record w { draws = suc w.draws })

-- A call of the store that reads the clock up to two times, up to once, or not at all.
module _ (pf : Platform) where
  abbrev pub with_store_twice {ℓ} : {A : Type ℓ} → (ℕ → ℕ → Store → A × Store) → Exec A
  with_store_twice f w =
      let (a, st) = f (pf.clock w.reads) (pf.clock (suc w.reads)) w.store in
      (go a, record w { store = st; reads = suc (suc w.reads) })

  abbrev pub with_store_once : (ℕ → Store → Store) → Exec (Unit {0})
  with_store_once f w =
      (go tt, record w { store = f (pf.clock w.reads) w.store; reads = suc w.reads })

abbrev pub with_store : (Store → Store) → Exec (Unit {0})
with_store f w = (go tt, record w { store = f w.store })

abbrev pub or_answer {ℓ} : {A : Type ℓ} → Reply → Option A → Exec A
or_answer r none = answer r
or_answer r (some a) = pure a

abbrev pub ok_or_answer {ℓ} : {A : Type ℓ} → Reply → Result A → Exec A
ok_or_answer r (err e) = answer r
ok_or_answer r (ok a) = pure a

module _ {ℓ κ} {A : Type ℓ} {B : Type κ} where
  -- Inversion: a program that goes on has gone on after its first step.
  pub >>=-eq-go :
      (m : Exec A) (f : A → Exec B) (w : World) {b : B} {w' : World}
      → (m >>= f) w ≡ (go b, w')
      → (a : A) × (v : World) × (m w ≡ (go a, v)) × (f a v ≡ (go b, w'))
  >>=-eq-go m f w {b} {w'} h = invert (m w) refl
    where
      after : (x : Outcome A × World) → m w ≡ x → continue x.0 f x.1 ≡ (go b, w')
      after x e = sym (ap (λ (y : Outcome A × World). continue y.0 f y.1) e) ∙ h

      invert :
          (x : Outcome A × World)
          → m w ≡ x
          → (a : A) × (v : World) × (m w ≡ (go a, v)) × (f a v ≡ (go b, w'))
      invert (go a, v) e = (a, v, e, after (go a, v) e)
      invert (stop r, v) e = cc (after (stop r, v) e)

abbrev pub is_error : Reply → Bool
is_error (error status code) = true
is_error _ = false

-- A program that stops early stops with an error.
abbrev pub IsRefusal {ℓ} : {A : Type ℓ} → Outcome A → Type 0
IsRefusal (go a) = Unit {0}
IsRefusal (stop r) = is_error r ≡ true

pub record Refuses {ℓ} {A : Type ℓ} (m : Exec A) : Type ℓ where
  pub at : (w : World) → IsRefusal (m w).0

module _ {ℓ κ} {A : Type ℓ} {B : Type κ} where
  Refuses-continue :
      (o : Outcome A) (f : A → Exec B) (w : World)
      → IsRefusal o
      → ((a : A) → Refuses (f a))
      → IsRefusal (continue o f w).0
  Refuses-continue (go a) f w h k = (k a).at w
  Refuses-continue (stop r) f w h k = h

  pub Refuses-bind :
      (m : Exec A) (f : A → Exec B) → Refuses m → ((a : A) → Refuses (f a)) → Refuses (m >>= f)
  Refuses-bind m f h k = record { at = λ w. Refuses-continue (m w).0 f (m w).1 (h.at w) k }

module _ {ℓ} {A : Type ℓ} where
  pub Refuses-pure : (a : A) → Refuses (pure a)
  Refuses-pure a = record { at = λ w. tt }

  pub Refuses-answer : (r : Reply) → is_error r ≡ true → Refuses (answer {A = A} r)
  Refuses-answer r h = record { at = λ w. h }

  pub Refuses-lift : (o : Outcome A) → IsRefusal o → Refuses (lift o)
  Refuses-lift o h = record { at = λ w. h }

  pub Refuses-or_answer : (r : Reply) (o : Option A) → is_error r ≡ true → Refuses (or_answer r o)
  Refuses-or_answer r none h = record { at = λ w. h }
  Refuses-or_answer r (some a) h = record { at = λ w. tt }

  pub Refuses-ok_or_answer :
      (r : Reply) (o : Result A) → is_error r ≡ true → Refuses (ok_or_answer r o)
  Refuses-ok_or_answer r (err e) h = record { at = λ w. h }
  Refuses-ok_or_answer r (ok a) h = record { at = λ w. tt }

  pub Refuses-if : (b : Bool) (m n : Exec A) → Refuses m → Refuses n → Refuses (if b then m else n)
  Refuses-if true m n h k = h
  Refuses-if false m n h k = k

pub Refuses-stop_if : (b : Bool) (r : Reply) → is_error r ≡ true → Refuses (stop_if b r)
Refuses-stop_if true r h = record { at = λ w. h }
Refuses-stop_if false r h = record { at = λ w. tt }

module _ (pf : Platform) where
  pub Refuses-now : Refuses (now pf)
  Refuses-now = record { at = λ w. tt }

  pub Refuses-random : Refuses (random pf)
  Refuses-random = record { at = λ w. tt }

  pub Refuses-with_store_twice {ℓ} :
      {A : Type ℓ} (f : ℕ → ℕ → Store → A × Store) → Refuses (with_store_twice pf f)
  Refuses-with_store_twice f = record { at = λ w. tt }

  pub Refuses-with_store_once : (f : ℕ → Store → Store) → Refuses (with_store_once pf f)
  Refuses-with_store_once f = record { at = λ w. tt }

pub Refuses-with_store : (f : Store → Store) → Refuses (with_store f)
Refuses-with_store f = record { at = λ w. tt }

pub ruleset refusals = (
  Refuses-bind, Refuses-pure, Refuses-answer, Refuses-lift, Refuses-or_answer, Refuses-ok_or_answer,
  Refuses-if, Refuses-stop_if, Refuses-now, Refuses-random, Refuses-with_store_twice,
  Refuses-with_store_once, Refuses-with_store, refl,
)
