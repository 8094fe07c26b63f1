-- ===== src/Services/Passes.antt =====
-- A sequence of functions that each do one round, and its repetition as long as it asks for it.
use mariadb_ha_operator.Base.{
  ◌≡◌, ◌≢◌, refl, ◌∙◌, ℕ, zero, suc, ◌<◌, List, [], ◌∷◌, All, length, arith,
}
use mariadb_ha_operator.Api.{MariaDbHa}
use mariadb_ha_operator.World.{
  ObjectKey, Env, State, History, Go, Body, ◌>>=◌, ◌>>◌, return, call, function,
}
use mariadb_ha_operator.World.Outcome.{Outcome, no_requeue, requeue_now, proceed, flow}
use mariadb_ha_operator.Services.Rounds.{Wanted, IsSettled, Round, idle, wrote}

pub record Task : Type 0 where
  pub wanted : Wanted
  pub run : Go Outcome

-- `if result, err := …; err != nil || result.Requeue { return result, err }`, one behind the other
unfoldable pub in_turn : List Task → Body Outcome Outcome
in_turn [] = return no_requeue
in_turn (t ∷ ts) = do o ← call t.run; proceed o; in_turn ts

-- No two keys are the same.
abbrev pub AreApart : List Task → Type 0
AreApart [] = Unit
AreApart (t ∷ ts) = All (λ (u : Task). u.wanted.key ≢ t.wanted.key) ts × AreApart ts

abbrev before : ℕ → ℕ
before zero = zero
before (suc n) = n

before-lt : (n m : ℕ) → before n < m → n < suc m
before-lt zero m h = omega arith
before-lt (suc n) m h = omega arith

module _ (env : Env) where
  abbrev pub FirstSettled : ℕ → List Task → History → Type 0
  FirstSettled zero ts h = Unit
  FirstSettled (suc n) [] h = Unit
  FirstSettled (suc n) (t ∷ ts) h = IsSettled env t.wanted h × FirstSettled n ts h

  abbrev pub AllSettled : List Task → History → Type 0
  AllSettled ts h = All (λ (t : Task). IsSettled env t.wanted h) ts

  -- The Service under any other key is not written.
  abbrev pub Unwritten : List Task → State → State → Type 0
  Unwritten ts s u =
      (k : ObjectKey)
      → All (λ (t : Task). t.wanted.key ≢ k) ts
      → env.get_service u.history k ≡ env.get_service s.history k

  pub data Pass (n : ℕ) (ts : List Task) (s : State) : Outcome × State → Type 0 where
    settled :
        (u : State)
        → AllSettled ts u.history
        → u.ha ≡ s.ha
        → Unwritten ts s u
        → Pass n ts s (no_requeue, u)
    onward :
        (u : State)
        → n < length ts
        → FirstSettled (suc n) ts u.history
        → u.ha ≡ s.ha
        → Unwritten ts s u
        → Pass n ts s (requeue_now, u)

  IsSettled-kept :
      (w : Wanted) (g h : History)
      → env.get_service h w.key ≡ env.get_service g w.key
      → IsSettled env w g
      → IsSettled env w h
  IsSettled-kept w g h same s = record { found = s.found; read = same ∙ s.read; suits = s.suits }

  FirstSettled-kept :
      (n : ℕ) (ts : List Task) (g h : History)
      → ((k : ObjectKey) → env.get_service h k ≡ env.get_service g k)
      → FirstSettled n ts g
      → FirstSettled n ts h
  FirstSettled-kept zero ts g h same f = tt
  FirstSettled-kept (suc n) [] g h same f = tt
  FirstSettled-kept (suc n) (t ∷ ts) g h same (s, f) =
      (IsSettled-kept t.wanted g h (same t.wanted.key) s, FirstSettled-kept n ts g h same f)

  FirstSettled-tail :
      (n : ℕ) (t : Task) (ts : List Task) (h : History)
      → FirstSettled n (t ∷ ts) h
      → FirstSettled (before n) ts h
  FirstSettled-tail zero t ts h f = tt
  FirstSettled-tail (suc n) t ts h (s, f) = f

  FirstSettled-cons :
      (n : ℕ) (t : Task) (ts : List Task) (h : History)
      → IsSettled env t.wanted h
      → FirstSettled (suc (before n)) ts h
      → FirstSettled (suc n) (t ∷ ts) h
  FirstSettled-cons zero t ts h s f = (s, tt)
  FirstSettled-cons (suc n) t ts h s f = (s, f)

  -- The first Service is in order, so that the sequence goes on.
  idle-Pass :
      (n : ℕ) (t : Task) (ts : List Task) (s u : State) (r : Outcome × State)
      → All (λ (v : Task). v.wanted.key ≢ t.wanted.key) ts
      → IsSettled env t.wanted s.history
      → u.ha ≡ s.ha
      → ((k : ObjectKey) → env.get_service u.history k ≡ env.get_service s.history k)
      → Pass (before n) ts u r
      → Pass n (t ∷ ts) s r
  idle-Pass n t ts s u r apart now ha same (settled v all ha' unwritten) =
      let kept = unwritten t.wanted.key apart ∙ same t.wanted.key in
      settled v (IsSettled-kept t.wanted s.history v.history kept now, all) (ha' ∙ ha)
        (λ k others. unwritten k others.1 ∙ same k)
  idle-Pass n t ts s u r apart now ha same (onward v less first ha' unwritten) =
      let kept = unwritten t.wanted.key apart ∙ same t.wanted.key in
      onward v (before-lt n (length ts) less)
        (FirstSettled-cons n t ts v.history (IsSettled-kept t.wanted s.history v.history kept now)
          first)
        (ha' ∙ ha) (λ k others. unwritten k others.1 ∙ same k)

  module _ (t : Task) (ts : List Task) (s u : State) where
    in_turn_idle :
        t.run s ≡ (no_requeue, u) → function (in_turn (t ∷ ts)) s ≡ function (in_turn ts) u
    unfolding in_turn flow
    in_turn_idle e = rw e refl

    in_turn_wrote : t.run s ≡ (requeue_now, u) → function (in_turn (t ∷ ts)) s ≡ (requeue_now, u)
    unfolding in_turn flow
    in_turn_wrote e = rw e refl

  -- The function does one round in each state with this object.
  abbrev pub DoesRound : MariaDbHa → Task → Type 0
  DoesRound ha t = (s : State) → s.ha ≡ ha → Round env t.wanted s (t.run s)

  module _ (ha : MariaDbHa) where
    pub in_turn-Pass :
        (ts : List Task)
        → All (DoesRound ha) ts
        → AreApart ts
        → (n : ℕ) (s : State) → s.ha ≡ ha
        → FirstSettled n ts s.history
        → Pass n ts s (function (in_turn ts) s)
    unfolding in_turn flow
    in_turn-Pass [] rounds apart n s e first = settled s tt refl (λ k others. refl)
    in_turn-Pass (t ∷ ts) (round, rounds) (fresh, apart) n s e first =
        go (λ m u e' f. in_turn-Pass ts rounds apart m u e' f) (t.run s) (round s e) refl
      where
        written :
            (u : State) (n : ℕ)
            → (¬ IsSettled env t.wanted s.history)
            → IsSettled env t.wanted u.history
            → u.ha ≡ s.ha
            → ((k : ObjectKey)
                → t.wanted.key ≢ k
                → env.get_service u.history k ≡ env.get_service s.history k)
            → FirstSettled n (t ∷ ts) s.history
            → Pass n (t ∷ ts) s (requeue_now, u)
        written u zero unsettled now same_ha others f =
            onward u (omega arith) (now, tt) same_ha (λ k apart. others k apart.0)
        written u (suc n) unsettled now same_ha others f = absurd (unsettled f.0)

        go :
            ((m : ℕ) (u : State)
              → u.ha ≡ ha
              → FirstSettled m ts u.history
              → Pass m ts u (function (in_turn ts) u))
            → (r : Outcome × State) → Round env t.wanted s r
            → t.run s ≡ r
            → Pass n (t ∷ ts) s (function (in_turn (t ∷ ts)) s)
        go rest r (idle u now same_ha same) ran = rw (in_turn_idle t ts s u ran) (
            idle-Pass n t ts s u _ fresh now same_ha same (
              rest (before n) u (same_ha ∙ e) (
                FirstSettled-kept (before n) ts s.history u.history same
                  (FirstSettled-tail n t ts s.history first))))
        go rest r (wrote u unsettled now same_ha others) ran =
            rw (in_turn_wrote t ts s u ran) (written u n unsettled now same_ha others first)
