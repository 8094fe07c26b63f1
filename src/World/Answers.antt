-- ===== src/World/Answers.antt =====
-- What a function can return. `Answers P V m` says that the statements `m` return a value with `P`,
-- or go on with a value that has `V`; one rule for each way to build them.
use mariadb_ha_operator.Base.{◌≡◌, refl, Bool, true, false, Option, none, some, if◌then◌else◌}
use mariadb_ha_operator.Api.{MariaDbHa}
use mariadb_ha_operator.World.{
  Error, Result, ok, err, State, Go, Body, Flow, next, exit, continue, merge, ◌>>=◌, return, pass,
  call, function, deferring, gets, modify, on_some, on_result,
}
use mariadb_ha_operator.World.Outcome.{Outcome, failed, check, unwrap}

abbrev pub Has : {R A : Type 0} → (R → Type 0) → (A → Type 0) → Flow R A → Type 0
Has P V (next a) = V a
Has P V (exit r) = P r

pub record Answers {R A : Type 0} (P : R → Type 0) (V : A → Type 0) (m : Body R A) : Type 0 where
  pub at : (s : State) → Has P V (m s).0

pub record Returns {R : Type 0} (P : R → Type 0) (m : Go R) : Type 0 where
  pub at : (s : State) → P (m s).0

abbrev pub Anything : {A : Type 0} → A → Type 0
Anything _ = Unit

module _ {R A : Type 0} {P : R → Type 0} {V : A → Type 0} where
  pub Answers-return : (r : R) → P r → Answers P V (return r)
  unfolding return
  Answers-return r p = record { at = λ s. p }

  pub Answers-call : (m : Go A) → Returns V m → Answers P V (call m)
  unfolding call
  Answers-call m k = record { at = λ s. k.at s }

  pub Answers-if :
      (b : Bool) (m n : Body R A)
      → (b ≡ true → Answers P V m)
      → (b ≡ false → Answers P V n)
      → Answers P V (if b then m else n)
  Answers-if true m n f g = f refl
  Answers-if false m n f g = g refl

  Answers-continue :
      {B : Type 0} {W : B → Type 0} (r : Flow R B) (k : B → Body R A) (s : State)
      → Has P W r
      → ((b : B) → W b → Answers P V (k b))
      → Has P V (continue r k s).0
  Answers-continue (next b) k s w f = (f b w).at s
  Answers-continue (exit r) k s p f = p

  pub Answers-bind :
      {B : Type 0} {W : B → Type 0} (m : Body R B) (k : B → Body R A)
      → Answers P W m
      → ((b : B) → W b → Answers P V (k b))
      → Answers P V (m >>= k)
  unfolding ◌>>=◌
  Answers-bind m k a f = record {
    at = λ s. let (r, s') = m s in Answers-continue r k s' (a.at s) f;
  }

module _ {R : Type 0} {P : R → Type 0} where
  pub Returns-function : (b : Body R R) → Answers P P b → Returns P (function b)
  unfolding function
  Returns-function b a = record { at = λ s. merged (b s).0 (a.at s) }
    where
      merged : (r : Flow R R) → Has P P r → P (merge r)
      merged (next r) p = p
      merged (exit r) p = p

  pub Answers-gets : {A : Type 0} (f : MariaDbHa → A) → Answers P Anything (gets f)
  unfolding gets
  Answers-gets f = record { at = λ s. tt }

  pub Answers-modify : (f : MariaDbHa → MariaDbHa) → Answers P Anything (modify f)
  unfolding modify
  Answers-modify f = record { at = λ s. tt }

  -- Nothing is asked of what the function that is called returns.
  pub Answers-any_call : {A : Type 0} (m : Go A) → Answers P Anything (call m)
  unfolding call
  Answers-any_call m = record { at = λ s. tt }

module _ {P : Outcome → Type 0} where
  pub Answers-check :
      (o : Option Error) → ((e : Error) → P (failed e)) → Answers P Anything (check o)
  unfolding check pass return
  Answers-check none f = record { at = λ s. tt }
  Answers-check (some e) f = record { at = λ s. f e }

  pub Answers-unwrap :
      {A : Type 0} (r : Result A)
      → ((e : Error) → P (failed e))
      → Answers P (λ a. r ≡ ok a) (unwrap r)
  unfolding unwrap
  Answers-unwrap (ok a) f = record { at = λ s. refl }
  Answers-unwrap (err e) f = record { at = λ s. f e }

module _ {R A : Type 0} {P : R → Type 0} {V : A → Type 0} where
  pub Answers-on_some :
      {B : Type 0} (o : Option B) (f : B → Body R A) (m : Body R A)
      → ((b : B) → o ≡ some b → Answers P V (f b))
      → (o ≡ none → Answers P V m)
      → Answers P V (on_some o f m)
  unfolding on_some
  Answers-on_some none f m p q = q refl
  Answers-on_some (some b) f m p q = p b refl

  pub Answers-on_result :
      {B : Type 0} (r : Result B) (f : Error → Body R A) (g : B → Body R A)
      → ((e : Error) → r ≡ err e → Answers P V (f e))
      → ((b : B) → r ≡ ok b → Answers P V (g b))
      → Answers P V (on_result r f g)
  unfolding on_result
  Answers-on_result (err e) f g p q = p e refl
  Answers-on_result (ok b) f g p q = q b refl

module _ {R : Type 0} {P : R → Type 0} where
  pub Answers-pass : {V : Unit {0} → Type 0} → V tt → Answers P V pass
  unfolding pass
  Answers-pass v = record { at = λ s. v }

  pub Returns-deferring : (d : Go (Unit {0})) (m : Go R) → Returns P m → Returns P (deferring d m)
  unfolding deferring
  Returns-deferring d m k = record { at = λ s. k.at s }

pub Returns-weaken :
    {R : Type 0} {P Q : R → Type 0} (m : Go R) → ((r : R) → P r → Q r) → Returns P m → Returns Q m
Returns-weaken m f k = record { at = λ s. f (m s).0 (k.at s) }

-- What holds of every value holds of these.
pub Answers-sure :
    {R A : Type 0} {P : R → Type 0} {V : A → Type 0} (m : Body R A)
    → ((r : R) → P r)
    → ((a : A) → V a)
    → Answers P V m
Answers-sure {R = R} {A = A} {P = P} {V = V} m p v = record { at = λ s. sure (m s).0 }
  where
    sure : (x : Flow R A) → Has P V x
    sure (next a) = v a
    sure (exit r) = p r

-- The call was made in some state.
abbrev pub Answered : {A : Type 0} → Go A → A → Type 0
Answered m a = (s : State) × ((m s).0 ≡ a)

pub Returns-answered : {A : Type 0} (m : Go A) → Returns (Answered m) m
Returns-answered m = record { at = λ s. (s, refl) }
