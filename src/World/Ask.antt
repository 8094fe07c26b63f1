-- ===== src/World/Ask.antt =====
-- Rules of `Ensures` that hand on what was answered: the rest of the function may use it.
use mariadb_ha_operator.Base.{◌≡◌, refl, sym, ap, subst, Bool, true, false, not, Option, none, some}
use mariadb_ha_operator.World.{
  Error, Result, ok, err, Env, State, History, Go, Body, Flow, next, exit, ◌>>=◌, ◌>>◌, call,
  return, pass, on_result, on_some, gets,
}
use mariadb_ha_operator.StringMap.{StringMap}
use mariadb_ha_operator.Api.{MariaDbHa}
use mariadb_ha_operator.World.Outcome.{
  Outcome, done, failed, unwrap, proceed, try, try_error, ranged,
}
use mariadb_ha_operator.World.Keeps.{Keeps}
use mariadb_ha_operator.World.Keeps.Calls.{IsStable}
use mariadb_ha_operator.World.Answers.{Answered}
use mariadb_ha_operator.World.Ensures.{
  Ensures, Leaves, After, Ensures-bind, Ensures-call, Ensures-known, Ensures-return, Ensures-if,
}

-- The object in memory is as it was.
pub record Holds (ha : MariaDbHa) (s : State) : Type 0 where
  pub same : s.ha ≡ ha

pub Holds-stable : (ha : MariaDbHa) → IsStable (Holds ha)
Holds-stable ha = record { after = λ c q s w. record { same = w.same } }

-- Whether `proceed` goes on.
abbrev pub proceeds : Outcome → Bool
proceeds (done r) = not r.requeue
proceeds (failed e) = false

module _ {R A : Type 0} {P : State → Type 0} {Q : R → State → Type 0} {V : A → State → Type 0} where
  pub Ensures-ask :
      {B : Type 0} (m : Go B) (k : B → Body R A)
      → Keeps P m
      → ((b : B) → Answered m b → Ensures P Q V (k b))
      → Ensures P Q V (call m >>= k)
  Ensures-ask m k kept f =
      Ensures-bind {W = λ b s. Answered m b × P s} _ _
        (Ensures-call m (record { at = λ s p. ((s, refl), kept.at s p) }))
        (λ b. Ensures-known (Answered m b) _ P _ (λ s w. w) (f b))

  -- A call with more to say of its answer.
  pub Ensures-told :
      {B : Type 0} (X : B → Type 0) (m : Go B) (k : B → Body R A)
      → Leaves P (λ b s. X b × P s) m
      → ((b : B) → X b → Ensures P Q V (k b))
      → Ensures P Q V (call m >>= k)
  Ensures-told X m k told f =
      Ensures-bind {W = λ b s. X b × P s} _ _ (Ensures-call m told)
        (λ b. Ensures-known (X b) _ P _ (λ s w. w) (f b))

-- What holds of every result holds of these.
pub Ensures-sure :
    {R A : Type 0} {P : State → Type 0} {Q : R → State → Type 0} {V : A → State → Type 0}
    (m : Body R A)
    → ((r : R) (s : State) → Q r s)
    → ((a : A) (s : State) → V a s)
    → Ensures P Q V m
Ensures-sure {A = A} {Q = Q} {V = V} m q v = record { at = λ s p. sure (m s) }
  where
    sure : (x : Flow _ A × State) → After Q V x
    sure (next a, s) = v a s
    sure (exit r, s) = q r s

-- What is read of an object that is known.
pub Ensures-recall :
    {R A B : Type 0} {ha : MariaDbHa} {Q : R → State → Type 0} {V : A → State → Type 0}
    (f : MariaDbHa → B) (k : B → Body R A)
    → Ensures (Holds ha) Q V (k (f ha))
    → Ensures (Holds ha) Q V (gets f >>= k)
unfolding gets ◌>>=◌
Ensures-recall {ha = ha} {Q = Q} {V = V} f k rest = record {
  at = λ s w. subst (λ h. After Q V (k (f h) s)) (sym w.same) (rest.at s w);
}

module _ {R A : Type 0} {P : State → Type 0} {Q : R → State → Type 0} {V : A → State → Type 0} where
  pub Ensures-on_ok :
      {B : Type 0} (r : Result B) (f : Error → Body R A) (g : B → Body R A)
      → ((e : Error) → r ≡ err e → Ensures P Q V (f e))
      → ((b : B) → r ≡ ok b → Ensures P Q V (g b))
      → Ensures P Q V (on_result r f g)
  unfolding on_result
  Ensures-on_ok (err e) f g p q = p e refl
  Ensures-on_ok (ok b) f g p q = q b refl

  pub Ensures-on_error :
      {B : Type 0} (o : Option B) (f : B → Body R A) (m : Body R A)
      → ((b : B) → o ≡ some b → Ensures P Q V (f b))
      → (o ≡ none → Ensures P Q V m)
      → Ensures P Q V (on_some o f m)
  unfolding on_some
  Ensures-on_error none f m p q = q refl
  Ensures-on_error (some b) f m p q = p b refl

module _ {A : Type 0} {P : State → Type 0} {Q : Outcome → State → Type 0}
    {V : A → State → Type 0} where
  pub Ensures-unwrap :
      {B : Type 0} (r : Result B) (k : B → Body Outcome A)
      → ((e : Error) (s : State) → P s → Q (failed e) s)
      → ((b : B) → r ≡ ok b → Ensures P Q V (k b))
      → Ensures P Q V (unwrap r >>= k)
  unfolding unwrap ◌>>=◌
  Ensures-unwrap (ok b) k f g = record { at = λ s p. let rest = g b refl in rest.at s p }
  Ensures-unwrap (err e) k f g = record { at = λ s p. f e s p }

  pub Ensures-proceed :
      (o : Outcome) (k : Body Outcome A)
      → (proceeds o ≡ false → (s : State) → P s → Q o s)
      → (proceeds o ≡ true → Ensures P Q V k)
      → Ensures P Q V (proceed o >> k)
  unfolding proceed return pass ◌>>=◌
  Ensures-proceed (failed e) k f g = record { at = λ s p. f refl s p }
  Ensures-proceed (done r) k f g =
      Ensures-bind {W = λ _ s. (r.requeue ≡ false) × P s} _ _
        (Ensures-if r.requeue _ _ (λ e. Ensures-return _ (f (ap not e)))
          (λ e. record { at = λ s p. (e, p) }))
        (λ _. Ensures-known (r.requeue ≡ false) _ P _ (λ s w. w) (λ e. g (ap not e)))

module _ {R A : Type 0} {P : State → Type 0} {Q : Result R → State → Type 0}
    {V : A → State → Type 0} where
  pub Ensures-try :
      {B : Type 0} (r : Result B) (k : B → Body (Result R) A)
      → ((e : Error) (s : State) → P s → Q (err e) s)
      → ((b : B) → r ≡ ok b → Ensures P Q V (k b))
      → Ensures P Q V (try r >>= k)
  unfolding try ◌>>=◌
  Ensures-try (ok b) k f g = record { at = λ s p. let rest = g b refl in rest.at s p }
  Ensures-try (err e) k f g = record { at = λ s p. f e s p }

  pub Ensures-try_error :
      (o : Option Error) (k : Body (Result R) A)
      → ((e : Error) (s : State) → P s → Q (err e) s)
      → (o ≡ none → Ensures P Q V k)
      → Ensures P Q V (try_error o >> k)
  unfolding try_error ◌>>=◌ return pass
  Ensures-try_error none k f g = record { at = λ s p. let rest = g refl in rest.at s p }
  Ensures-try_error (some e) k f g = record { at = λ s p. f e s p }

-- The order that a loop takes through a map.
pub Ensures-ranged :
    {R : Type 0} {P : State → Type 0} {Q : R → State → Type 0} (env : Env) (m : StringMap)
    → Ensures P Q (λ order s. ((h : History) × (env.range h m ≡ order)) × P s) (ranged env m)
unfolding ranged
Ensures-ranged env m = record { at = λ s p. ((s.history, refl), p) }

-- Less can be said of the result.
pub Ensures-result :
    {R : Type 0} {P : State → Type 0} {Q Q' : R → State → Type 0} (m : Body R R)
    → ((r : R) (s : State) → Q r s → Q' r s)
    → Ensures P Q Q m
    → Ensures P Q' Q' m
Ensures-result {R = R} {Q = Q} {Q' = Q'} m f k = record { at = λ s p. less (m s) (k.at s p) }
  where
    less : (x : Flow R R × State) → After Q Q x → After Q' Q' x
    less (next a, s) q = f a s q
    less (exit r, s) q = f r s q
