-- ===== src/Config/Parse/Valid.antt =====
-- What holds of every configuration that `ParseCliArgs` returns without an error.
use mathlib.Core.Path.{subst}
use aws_node_termination_han.Common.{
  ◌≡◌, ◌⊎◌, inl, inr, refl, Bool, true, false, not, if◌then◌else◌, str_eq, Bool-cases, arith,
}
use aws_node_termination_han.Common.Int.{ℤ, ◌≤ℤ◌}
use aws_node_termination_han.Config.{Config}
use aws_node_termination_han.Kube.{Error, Result, ok, err}
use aws_node_termination_han.Config.Parse.{
  Environment, is_unset, is_log_level, with_log_format, checked_heartbeat, with_heartbeat,
  validated, with_deprecated, read_arguments, parse_cli_args, ◌>>=◌,
}

-- The heartbeat is off, or on in the mode that reads a queue, with settings in their ranges.
abbrev pub HasHeartbeat : Config → Type 0
HasHeartbeat c =
    ((is_unset c.heartbeat_interval ≡ true) × (is_unset c.heartbeat_until ≡ true))
    ⊎ ((c.enable_sqs_termination_draining ≡ true)
        × (ℤ.pos 30 ≤ℤ c.heartbeat_interval)
        × (c.heartbeat_interval ≤ℤ ℤ.pos 3600)
        × (c.heartbeat_interval ≤ℤ c.heartbeat_until)
        × (c.heartbeat_until ≤ℤ ℤ.pos 172800))

pub record IsValid (environment : Environment) (c : Config) : Type 0 where
  pub named : str_eq c.node_name "" ≡ false
  pub level : is_log_level environment c.log_level ≡ true
  pub least_format : ℤ.pos 1 ≤ℤ c.log_format_version
  pub greatest_format : c.log_format_version ≤ℤ ℤ.pos 2
  pub heartbeat : HasHeartbeat c

ok-injective : {A : Type 0} {a b : A} → ok a ≡ ok b → a ≡ b
ok-injective e = cc e

module _ (environment : Environment) where
  with_log_format_bounds :
      (c : Config)
      → (ℤ.pos 1 ≤ℤ (with_log_format environment c).log_format_version)
        × ((with_log_format environment c).log_format_version ≤ℤ ℤ.pos 2)
  unfolding with_log_format
  with_log_format_bounds c = ground arith

  checked_heartbeat_lem :
      (sqs : Bool) (interval until until' : ℤ)
      → checked_heartbeat environment sqs interval until ≡ ok until'
      → ((is_unset interval ≡ true) × (is_unset until' ≡ true))
        ⊎ ((sqs ≡ true)
            × (ℤ.pos 30 ≤ℤ interval)
            × (interval ≤ℤ ℤ.pos 3600)
            × (interval ≤ℤ until')
            × (until' ≤ℤ ℤ.pos 172800))
  unfolding checked_heartbeat
  checked_heartbeat_lem sqs interval until until' run = elim (Bool-cases (is_unset interval)) [
    | inl off ↦ inl (off, ground (arith, off, run))
    | inr on ↦ inr (ground (arith, on, run))
  ]

  bind-ok :
      {A B : Type 0} (r : Result A) (f : A → Result B) (b : B)
      → (r >>= f) ≡ ok b
      → (a : A) × (r ≡ ok a) × (f a ≡ ok b)
  bind-ok (ok a) f b e = (a, refl, e)
  bind-ok (err x) f b e = cc e

  -- From the two tests of `validated`, in their order.
  passed :
      {A : Type 0} (level unnamed : Bool) (e f : Error) (r : Result A) (a : A)
      → (if not level then err e else if unnamed then err f else r) ≡ ok a
      → (level ≡ true) × (unnamed ≡ false) × (r ≡ ok a)
  passed true false e f r a run = (refl, refl, run)
  passed true true e f r a run = cc run
  passed false unnamed e f r a run = cc run

  heartbeat-IsValid :
      (c c' : Config)
      → is_log_level environment c.log_level ≡ true
      → str_eq c.node_name "" ≡ false
      → with_heartbeat environment (with_log_format environment c) ≡ ok c'
      → IsValid environment c'
  unfolding with_heartbeat with_log_format
  heartbeat-IsValid c c' level named run =
      let formatted = with_log_format environment c in
      let (until, checked, e) =
        bind-ok
          (checked_heartbeat environment formatted.enable_sqs_termination_draining
            formatted.heartbeat_interval formatted.heartbeat_until)
          (λ until. ok (record formatted { heartbeat_until = until })) c' run in
      let beats =
        checked_heartbeat_lem formatted.enable_sqs_termination_draining formatted.heartbeat_interval
          formatted.heartbeat_until until checked in
      let (least, greatest) = with_log_format_bounds c in
      subst (IsValid environment) (ok-injective e) (record {
        named = named;
        level = level;
        least_format = least;
        greatest_format = greatest;
        heartbeat = beats;
      })

-- Every configuration that is parsed has a node name and a log level and a log format that are known,
-- and its heartbeat is off, or on in the mode that reads a queue and with settings in their ranges:
-- an interval of half a minute to an hour, and an end that is not before the interval and at most two
-- days.
pub parse_cli_args-IsValid :
    (environment : Environment) (c : Config)
    → parse_cli_args environment ≡ ok c
    → IsValid environment c
unfolding parse_cli_args validated with_deprecated
parse_cli_args-IsValid environment c run =
    let (a, _, e) =
      bind-ok environment (read_arguments environment)
        (λ a. validated environment (with_deprecated environment a)) c run in
    let settings = with_deprecated environment a in
    let (level, named, rest) =
      passed environment (is_log_level environment settings.log_level)
        (str_eq settings.node_name "") _ _
        (with_heartbeat environment (with_log_format environment settings)) c e in
    heartbeat-IsValid environment settings c level named rest
