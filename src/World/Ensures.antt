-- ===== src/World/Ensures.antt =====
-- What a function leaves behind. `Ensures P Q V m` says that from a state with `P` the statements `m`
-- return a value and a state with `Q`, or go on with a value and a state with `V`.
use mariadb_ha_operator.Base.{◌≡◌, refl, Bool, true, false, Option, none, some, if◌then◌else◌}
use mariadb_ha_operator.Api.{MariaDbHa}
use mariadb_ha_operator.World.{
  Error, Result, ok, err, State, Go, Body, Flow, next, exit, continue, merge, ◌>>=◌, return, pass,
  call, function, deferring, gets, modify, on_some, on_result,
}
use mariadb_ha_operator.World.Outcome.{Outcome, check}
use mariadb_ha_operator.World.Keeps.{Keeps}

abbrev pub After :
    {R A : Type 0} → (R → State → Type 0) → (A → State → Type 0) → Flow R A × State → Type 0
After Q V (next a, s) = V a s
After Q V (exit r, s) = Q r s

pub record Ensures {R A : Type 0} (P : State → Type 0) (Q : R → State → Type 0)
    (V : A → State → Type 0) (m : Body R A) : Type 0 where
  pub at : (s : State) → P s → After Q V (m s)

pub record Leaves {R : Type 0} (P : State → Type 0) (Q : R → State → Type 0) (m : Go R)
    : Type 0 where
  pub at : (s : State) → P s → Q (m s).0 (m s).1

module _ {R A : Type 0} {Q : R → State → Type 0} {V : A → State → Type 0} where
  Ensures-continue :
      {B : Type 0} {W : B → State → Type 0} (r : Flow R B × State) (k : B → Body R A)
      → After Q W r
      → ((b : B) → Ensures (W b) Q V (k b))
      → After Q V (continue r.0 k r.1)
  Ensures-continue (next b, s) k w f = (f b).at s w
  Ensures-continue (exit r, s) k q f = q

module _ {R A : Type 0} {P : State → Type 0} {Q : R → State → Type 0} {V : A → State → Type 0} where
  pub Ensures-return : (r : R) → ((s : State) → P s → Q r s) → Ensures P Q V (return r)
  unfolding return
  Ensures-return r f = record { at = f }

  pub Ensures-if :
      (b : Bool) (m n : Body R A)
      → (b ≡ true → Ensures P Q V m)
      → (b ≡ false → Ensures P Q V n)
      → Ensures P Q V (if b then m else n)
  Ensures-if true m n f g = f refl
  Ensures-if false m n f g = g refl

  pub Ensures-bind :
      {B : Type 0} {W : B → State → Type 0} (m : Body R B) (k : B → Body R A)
      → Ensures P Q W m
      → ((b : B) → Ensures (W b) Q V (k b))
      → Ensures P Q V (m >>= k)
  unfolding ◌>>=◌
  Ensures-bind m k a f = record { at = λ s p. Ensures-continue (m s) k (a.at s p) f }

  pub Ensures-on_some :
      {B : Type 0} (o : Option B) (f : B → Body R A) (m : Body R A)
      → ((b : B) → Ensures P Q V (f b))
      → Ensures P Q V m
      → Ensures P Q V (on_some o f m)
  unfolding on_some
  Ensures-on_some none f m p q = q
  Ensures-on_some (some b) f m p q = p b

  pub Ensures-on_result :
      {B : Type 0} (r : Result B) (f : Error → Body R A) (g : B → Body R A)
      → ((e : Error) → Ensures P Q V (f e))
      → ((b : B) → Ensures P Q V (g b))
      → Ensures P Q V (on_result r f g)
  unfolding on_result
  Ensures-on_result (err e) f g p q = p e
  Ensures-on_result (ok b) f g p q = q b

module _ {R : Type 0} {P : State → Type 0} {Q : R → State → Type 0} where
  pub Leaves-function : (b : Body R R) → Ensures P Q Q b → Leaves P Q (function b)
  unfolding function
  Leaves-function b a = record { at = λ s p. merged (b s) (a.at s p) }
    where
      merged : (r : Flow R R × State) → After Q Q r → Q (merge r.0) r.1
      merged (next r, s) q = q
      merged (exit r, s) q = q

  pub Ensures-pass : Ensures P Q (λ _. P) pass
  unfolding pass
  Ensures-pass = record { at = λ s p. p }

  -- A call that keeps the predicate.
  pub Ensures-keep : {A : Type 0} (m : Go A) → Keeps P m → Ensures P Q (λ (_ : A). P) (call m)
  unfolding call
  Ensures-keep m k = record { at = λ s p. k.at s p }

  pub Ensures-call :
      {A : Type 0} {V : A → State → Type 0} (m : Go A) → Leaves P V m → Ensures P Q V (call m)
  unfolding call
  Ensures-call m k = record { at = λ s p. k.at s p }

  pub Ensures-modify :
      {P' : State → Type 0} (f : MariaDbHa → MariaDbHa)
      → ((s : State) → P s → P' (record s { ha = f s.ha }))
      → Ensures P Q (λ _. P') (modify f)
  unfolding modify
  Ensures-modify f k = record { at = k }

  pub Ensures-gets : {A : Type 0} (f : MariaDbHa → A) → Ensures P Q (λ (_ : A). P) (gets f)
  unfolding gets
  Ensures-gets f = record { at = λ s p. p }

module _ {R A : Type 0} {Q : R → State → Type 0} {V : A → State → Type 0} where
  -- The predicate tells what the branch needs of the option.
  pub Ensures-branch :
      {B : Type 0} (P : Option B → State → Type 0) (o : Option B) (f : B → Body R A) (m : Body R A)
      → ((b : B) → Ensures (P (some b)) Q V (f b))
      → Ensures (P none) Q V m
      → Ensures (P o) Q V (on_some o f m)
  unfolding on_some
  Ensures-branch P none f m p q = q
  Ensures-branch P (some b) f m p q = p b

module _ {R : Type 0} {P W : State → Type 0} {Q : R → State → Type 0} where
  pub Leaves-deferring :
      (d : Go (Unit {0})) (m : Go R)
      → Leaves P (λ _. W) m
      → ((r : R) → Leaves W (λ _ s. Q r s) d)
      → Leaves P Q (deferring d m)
  unfolding deferring
  Leaves-deferring d m k kd = record {
    at = λ s p. let closing = kd (m s).0 in closing.at (m s).1 (k.at s p);
  }

pub Leaves-keep : {R : Type 0} {P : State → Type 0} (m : Go R) → Keeps P m → Leaves P (λ _. P) m
Leaves-keep m k = record { at = k.at }

pub Keeps-of_leaves : {R : Type 0} {P : State → Type 0} (m : Go R) → Leaves P (λ _. P) m → Keeps P m
Keeps-of_leaves m k = record { at = k.at }

module _ {R A : Type 0} {Q : R → State → Type 0} {V : A → State → Type 0} where
  -- A fact that the predicate tells, whatever the state.
  pub Ensures-known :
      (X : Type 0) (P P' : State → Type 0) (m : Body R A)
      → ((s : State) → P s → X × P' s)
      → (X → Ensures P' Q V m)
      → Ensures P Q V m
  Ensures-known X P P' m split f = record {
    at = λ s p. let parts = split s p in let kept = f parts.0 in kept.at s parts.1;
  }

module _ {R A : Type 0} {P : State → Type 0} {Q : R → State → Type 0} where
  -- What is read of the object in memory.
  pub Ensures-read : (f : MariaDbHa → A) → Ensures P Q (λ a s. (f s.ha ≡ a) × P s) (gets f)
  unfolding gets
  Ensures-read f = record { at = λ s p. (refl, p) }

module _ {P : State → Type 0} {Q : Outcome → State → Type 0} where
  pub Ensures-check :
      (o : Option Error)
      → ((e : Error) (s : State) → P s → Q (Outcome.failed e) s)
      → Ensures P Q (λ _. P) (check o)
  unfolding check
  Ensures-check none f = Ensures-pass
  Ensures-check (some e) f = Ensures-return _ (f e)

module _ {R A : Type 0} {P P' : State → Type 0} {Q : R → State → Type 0}
    {V : A → State → Type 0} where
  pub Ensures-weaken :
      (m : Body R A) → ((s : State) → P s → P' s) → Ensures P' Q V m → Ensures P Q V m
  Ensures-weaken m f k = record { at = λ s p. k.at s (f s p) }
