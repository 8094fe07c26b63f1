-- ===== src/Manager/Hardened.antt =====
-- What the endpoints of the manager offer, when the command line does not ask for less.
use mariadb_ha_operator.Base.{
  ◌≡◌, ◌≢◌, refl, subst, String, Bool, true, false, Option, none, some, List, [], ◌∷◌, All, ◌==◌,
  string_eq, eq_iff, ◌||◌, if◌then◌else◌,
}
use mariadb_ha_operator.Manager.CommandLine.{
  Flags, default_flags, parsed, stopped, bool_var, parse_bool, set_flag, parse_from, parse_flags,
}
use mariadb_ha_operator.Manager.{
  TlsConfig, ManagerOptions, tls_opts, metrics_server_options, manager_options,
}

-- A server applies the functions to its configuration, in order.
abbrev pub configured : List (TlsConfig → TlsConfig) → TlsConfig → TlsConfig
configured [] c = c
configured (f ∷ fs) c = configured fs (f c)

-- HTTP/2 is not offered by either server, and the metrics are served over HTTPS to authorized clients.
pub record IsHardened (o : ManagerOptions) : Type 0 where
  pub webhook : (c : TlsConfig) → (configured o.webhook_tls_opts c).next_protos ≡ "http/1.1" ∷ []
  pub metrics : (c : TlsConfig) → (configured o.metrics.tls_opts c).next_protos ≡ "http/1.1" ∷ []
  pub https : o.metrics.secure_serving ≡ true
  pub filtered : o.metrics.filter ≡ true

abbrev IsSafe : Flags → Type 0
IsSafe flags = (flags.enable_http2 ≡ false) × (flags.secure_metrics ≡ true)

IsSafe-IsHardened : (flags : Flags) → IsSafe flags → IsHardened (manager_options flags)
unfolding manager_options metrics_server_options tls_opts
IsSafe-IsHardened flags (http2, secure) = record {
  webhook = λ c. rw http2 refl;
  metrics = λ c. rw (http2, secure) refl;
  https = rw secure refl;
  filtered = rw secure refl;
}

-- Neither of the two flags that open the endpoints is named.
abbrev pub AsksNothing : List (String × String) → Type 0
AsksNothing = All (λ (a : String × String). (a.0 ≢ "enable-http2") × (a.0 ≢ "metrics-secure"))

-- The flags, if there are any, are safe.
record StaysSafe (o : Option Flags) : Type 0 where
  at : (flags : Flags) → o ≡ some flags → IsSafe flags

StaysSafe-none : StaysSafe none
StaysSafe-none = record { at = λ flags e. cc }

-- A change that leaves both fields.
StaysSafe-change :
    (flags changed : Flags)
    → IsSafe flags
    → changed.enable_http2 ≡ flags.enable_http2
    → changed.secure_metrics ≡ flags.secure_metrics
    → StaysSafe (some changed)
StaysSafe-change flags changed (w, w') e e' = record {
  at = λ f y. let same : changed ≡ f = cc in subst IsSafe same (cc, cc);
}

StaysSafe-if :
    (b : Bool) (x y : Option Flags)
    → (b ≡ true → StaysSafe x)
    → (b ≡ false → StaysSafe y)
    → StaysSafe (if b then x else y)
StaysSafe-if true x y f g = f refl
StaysSafe-if false x y f g = g refl

-- A chain of tests of which the fourth and the fifth fail.
StaysSafe-chain :
    (a b c d e : Bool) (p q r s t u : Option Flags)
    → StaysSafe p
    → StaysSafe q
    → StaysSafe r
    → ¬ (d ≡ true)
    → ¬ (e ≡ true)
    → StaysSafe u
    → StaysSafe
        (if a then p else if b then q else if c then r else if d then s else if e then t else u)
StaysSafe-chain a b c d e p q r s t u w w' w'' n n' v =
    StaysSafe-if a _ _ (λ _. w)
      (λ _.
        StaysSafe-if b _ _ (λ _. w')
          (λ _.
            StaysSafe-if c _ _ (λ _. w'')
              (λ _.
                StaysSafe-if d _ _ (λ y. absurd (n y))
                  (λ _. StaysSafe-if e _ _ (λ y. absurd (n' y)) (λ _. v)))))

StaysSafe-some :
    {A : Type 0} (o : Option A) (f : A → Option Flags)
    → ((a : A) → StaysSafe (f a))
    → StaysSafe (elim o [ none ↦ none | some a ↦ f a ])
StaysSafe-some none f w = StaysSafe-none
StaysSafe-some (some a) f w = w a

bool_var-StaysSafe :
    (value : String) (f : Bool → Flags)
    → ((b : Bool) → StaysSafe (some (f b)))
    → StaysSafe (bool_var value f)
unfolding bool_var
bool_var-StaysSafe value f w = StaysSafe-some (parse_bool value) _ w

module _ (others : String → Option (String → Bool)) where
  set_flag-StaysSafe :
      (name value : String) (flags : Flags)
      → name ≢ "enable-http2"
      → name ≢ "metrics-secure"
      → IsSafe flags
      → StaysSafe (set_flag others name value flags)
  unfolding set_flag
  set_flag-StaysSafe name value flags n n' w =
      StaysSafe-chain _ _ _ _ _ _ _ _ _ _ _
        (StaysSafe-change flags (record flags { metrics_addr = value }) w refl refl)
        (StaysSafe-change flags (record flags { probe_addr = value }) w refl refl)
        (bool_var-StaysSafe value (λ b. record flags { enable_leader_election = b })
          (λ b. StaysSafe-change flags (record flags { enable_leader_election = b }) w refl refl))
        (λ e. n' ((eq_iff name "metrics-secure").0 e)) (λ e. n ((eq_iff name "enable-http2").0 e))
        (StaysSafe-some (others name) (λ takes. if takes value then some flags else none)
          (λ takes.
            StaysSafe-if (takes value) (some flags) none
              (λ _. StaysSafe-change flags flags w refl refl) (λ _. StaysSafe-none)))

  parse_from-IsSafe :
      (arguments : List (String × String)) (start flags : Flags)
      → AsksNothing arguments
      → IsSafe start
      → parse_from others start arguments ≡ parsed flags
      → IsSafe flags
  unfolding parse_from
  parse_from-IsSafe [] start flags a w e = let same : start ≡ flags = cc in subst IsSafe same w
  parse_from-IsSafe ((name, value) ∷ rest) start flags ((n, n'), a) w e =
      goes_on (set_flag others name value start) (set_flag-StaysSafe name value start n n' w)
        (λ changed. parse_from-IsSafe rest changed flags a) e
    where
      goes_on :
          (o : Option Flags)
          → StaysSafe o
          → ((changed : Flags)
              → IsSafe changed
              → parse_from others changed rest ≡ parsed flags
              → IsSafe flags)
          → elim o [
            | none ↦ stopped (if name == "help" || name == "h" then 0 else 2)
            | some changed ↦ parse_from others changed rest
          ]
            ≡ parsed flags
          → IsSafe flags
      goes_on none s f y = cc
      goes_on (some changed) s f y = f changed (s.at changed refl) y

-- A command line that names neither enable-http2 nor metrics-secure, and is not refused, starts the
-- manager with a webhook server and a metrics server that offer HTTP/1.1 alone, and with metrics that
-- are served over HTTPS to authorized clients. This is so whatever its other flags are, those that
-- other packages define included.
pub manager_options-IsHardened :
    (others : String → Option (String → Bool)) (arguments : List (String × String)) (flags : Flags)
    → AsksNothing arguments
    → parse_flags others arguments ≡ parsed flags
    → IsHardened (manager_options flags)
manager_options-IsHardened others arguments flags a e =
    IsSafe-IsHardened flags
      (parse_from-IsSafe others arguments default_flags flags a (refl, refl) e)
