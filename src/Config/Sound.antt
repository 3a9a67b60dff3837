-- ===== src/Config/Sound.antt =====
-- Which configurations validateConfig of internal/config/config.go accepts.
use container_provisioner_k.Base.{
  eq_iff, ◌==◌, ◌<◌, ◌≤◌, String, Bool, true, false, not, ◌&&◌, List, [], ◌∷◌, ◌++◌, ◌≡◌, ◌≢◌, refl,
  ◌↔◌, arith, All, inl, inr, Bool-cases, string_eq, none, some, Option,
}
use container_provisioner_k.Base.Int.{ℤ, pos_part}
use container_provisioner_k.Base.Text.{trim_space}
use container_provisioner_k.Config.{
  Config, LeaderElectionConfig, Float64, finite, plus_infinity, minus_infinity, nan,
}
use container_provisioner_k.Config.Reading.{IsRead, read_config-IsRead, IsRead-read_config}
use container_provisioner_k.Config.Load.{
  at_most_zero, complaints, first_checks, leader_checks, last_checks, validate_config, loaded,
  loaded_unless, load, read_config, ParseLibrary, Env,
}

-- A positive integer.
abbrev pub IsPositive : ℤ → Type 0
IsPositive z = 0 < pos_part z

-- A positive number or infinity; NaN, which no comparison holds of, passes too.
abbrev pub IsQps : Float64 → Type 0
IsQps (finite z) = IsPositive z
IsQps plus_infinity = Unit
IsQps minus_infinity = ⊥
IsQps nan = Unit

pub record LeaderIsSound (l : LeaderElectionConfig) : Type 0 where
  pub namespace : l.namespace ≢ ""
  pub lease_name : l.lease_name ≢ ""
  pub retry : IsPositive l.retry_period
  pub retry_renew : pos_part l.retry_period < pos_part l.renew_deadline
  pub renew_lease : pos_part l.renew_deadline < pos_part l.lease_duration

pub record IsSound (cfg : Config) : Type 0 where
  pub http_addr : cfg.http_addr ≢ ""
  pub grpc_addr : cfg.grpc_enabled ≡ true → cfg.grpc_addr ≢ ""
  pub log_dir : cfg.logging.dir ≢ ""
  pub log_prefix : cfg.logging.file_prefix ≢ ""
  pub log_body : IsPositive cfg.logging.max_body_bytes
  pub api_key : cfg.api_key.enabled ≡ true → trim_space cfg.api_key.value ≢ ""
  pub namespace : cfg.stack.namespace ≢ ""
  pub ttl : IsPositive cfg.stack.stack_ttl
  pub interval : IsPositive cfg.stack.scheduler_interval
  pub port_min : IsPositive cfg.stack.node_port_min
  pub port_range : pos_part cfg.stack.node_port_min ≤ pos_part cfg.stack.node_port_max
  pub port_max : pos_part cfg.stack.node_port_max ≤ 65535
  pub lock_ttl : IsPositive cfg.stack.port_lock_ttl
  pub leader : cfg.stack.leader_election.enabled ≡ true → LeaderIsSound cfg.stack.leader_election
  pub qps : IsQps cfg.stack.k8s_qps
  pub burst : IsPositive cfg.stack.k8s_burst
  pub scheduling : IsPositive cfg.stack.scheduling_timeout
  pub node_role : cfg.stack.stack_node_role ≢ ""
  pub table : cfg.stack.use_mock_repository ≡ false → cfg.stack.dynamo_table_name ≢ ""
  pub region : cfg.stack.use_mock_repository ≡ false → cfg.stack.aws_region ≢ ""

abbrev Passes : Bool × String → Type 0
Passes check = check.0 ≡ false

complaints-Passes : (checks : List (Bool × String)) → (complaints checks ≡ []) ↔ All Passes checks
unfolding complaints
complaints-Passes [] = ((λ h. tt), (λ h. refl))
complaints-Passes ((test, message) ∷ checks) = elim (Bool-cases test) [
  | inl e ↦ (λ h. absurd (ground arith), λ h. absurd (ground arith))
  | inr e ↦ (
    λ h. (e, (complaints-Passes checks).0 (rw e at h)),
    λ h. rw e ((complaints-Passes checks).1 h.1),
  )
]

append-nil_parts {ℓ} : {A : Type ℓ} (xs ys : List A) → xs ++ ys ≡ [] → (xs ≡ []) × (ys ≡ [])
append-nil_parts [] ys h = (refl, h)
append-nil_parts (x ∷ xs) ys h = cc

nonempty_test : (t : String) → ((t == "") ≡ false) ↔ (t ≢ "")
nonempty_test t = ground (arith, eq_iff t "")

leader_checks-LeaderIsSound :
    (l : LeaderElectionConfig) → All Passes (leader_checks l) ↔ LeaderIsSound l
leader_checks-LeaderIsSound l = (
  λ (a, (b, (c, (d, (e, (f, (g, _))))))). record {
    namespace = (nonempty_test l.namespace).0 a;
    lease_name = (nonempty_test l.lease_name).0 b;
    retry = ground arith;
    retry_renew = ground arith;
    renew_lease = ground arith;
  },
  λ v. (
    (nonempty_test l.namespace).1 v.namespace,
    (
      (nonempty_test l.lease_name).1 v.lease_name,
      (ground arith, (ground arith, (ground arith, (ground arith, (ground arith, tt))))),
    ),
  ),
)

-- A text that is asked for under a condition.
conditional_test : (b : Bool) (t : String) → ((b && t == "") ≡ false) ↔ (b ≡ true → t ≢ "")
conditional_test true t = (λ h _. (nonempty_test t).0 h, λ h. (nonempty_test t).1 (h refl))
conditional_test false t = (λ h e. absurd (ground arith), λ h. refl)

unless_test : (b : Bool) (t : String) → ((not b && t == "") ≡ false) ↔ (b ≡ false → t ≢ "")
unless_test true t = (λ h e. absurd (ground arith), λ h. refl)
unless_test false t = (λ h _. (nonempty_test t).0 h, λ h. (nonempty_test t).1 (h refl))

at_most_zero-IsQps : (f : Float64) → (at_most_zero f ≡ false) ↔ IsQps f
at_most_zero-IsQps (finite z) = (λ h. ground arith, λ h. ground arith)
at_most_zero-IsQps plus_infinity = (λ h. tt, λ h. refl)
at_most_zero-IsQps minus_infinity = (λ h. absurd (ground arith), λ h. absurd h)
at_most_zero-IsQps nan = (λ h. tt, λ h. refl)

checked-IsSound :
    (cfg : Config)
    → All Passes (first_checks cfg)
    → (cfg.stack.leader_election.enabled ≡ true → LeaderIsSound cfg.stack.leader_election)
    → All Passes (last_checks cfg.stack)
    → IsSound cfg
checked-IsSound cfg
      (http, (grpc, (dir, (prefix, (body, (key, (ns, (ttl, (interval, (ports, (lock, _)))))))))))
      leader (qps, (burst, (scheduling, (np, (role, (table, (region, _))))))) =
    record {
      http_addr = (nonempty_test _).0 http;
      grpc_addr = (conditional_test _ _).0 grpc;
      log_dir = (nonempty_test _).0 dir;
      log_prefix = (nonempty_test _).0 prefix;
      log_body = ground arith;
      api_key = (conditional_test _ _).0 key;
      namespace = (nonempty_test _).0 ns;
      ttl = ground arith;
      interval = ground arith;
      port_min = ground arith;
      port_range = ground arith;
      port_max = ground arith;
      lock_ttl = ground arith;
      leader = leader;
      qps = (at_most_zero-IsQps _).0 qps;
      burst = ground arith;
      scheduling = ground arith;
      node_role = (nonempty_test _).0 role;
      table = (unless_test _ _).0 table;
      region = (unless_test _ _).0 region;
    }

IsSound-first : (cfg : Config) → IsSound cfg → All Passes (first_checks cfg)
IsSound-first cfg v = (
  (nonempty_test _).1 v.http_addr,
  (
    (conditional_test _ _).1 v.grpc_addr,
    (
      (nonempty_test _).1 v.log_dir,
      (
        (nonempty_test _).1 v.log_prefix,
        (
          ground arith,
          (
            (conditional_test _ _).1 v.api_key,
            (
              (nonempty_test _).1 v.namespace,
              (ground arith, (ground arith, (ground arith, (ground arith, tt)))),
            ),
          ),
        ),
      ),
    ),
  ),
)

IsSound-last : (cfg : Config) → IsSound cfg → All Passes (last_checks cfg.stack)
IsSound-last cfg v = (
  (at_most_zero-IsQps _).1 v.qps,
  (
    ground arith,
    (
      ground arith,
      (
        ground (arith, (nonempty_test cfg.stack.namespace).1 v.namespace),
        (
          (nonempty_test _).1 v.node_role,
          ((unless_test _ _).1 v.table, ((unless_test _ _).1 v.region, tt)),
        ),
      ),
    ),
  ),
)

validate_config_iff : (cfg : Config) → (validate_config cfg ≡ []) ↔ IsSound cfg
unfolding validate_config
validate_config_iff cfg = elim (Bool-cases cfg.stack.leader_election.enabled) [
  | inl e ↦ (
    λ h.
        let (a, rest) = append-nil_parts (complaints (first_checks cfg)) _ h in
        let (b, c) =
          append-nil_parts (complaints (leader_checks cfg.stack.leader_election)) _
            (rw e at rest) in
        checked-IsSound cfg ((complaints-Passes (first_checks cfg)).0 a)
          (λ _.
            (leader_checks-LeaderIsSound cfg.stack.leader_election).0
              ((complaints-Passes (leader_checks cfg.stack.leader_election)).0 b))
          ((complaints-Passes (last_checks cfg.stack)).0 c),
    λ v.
        rw
          (
            e,
            (complaints-Passes (first_checks cfg)).1 (IsSound-first cfg v),
            (complaints-Passes (leader_checks cfg.stack.leader_election)).1
                ((leader_checks-LeaderIsSound cfg.stack.leader_election).1 (v.leader e)),
            (complaints-Passes (last_checks cfg.stack)).1 (IsSound-last cfg v),
          )
          refl,
  )
  | inr e ↦ (
    λ h.
        let (a, rest) = append-nil_parts (complaints (first_checks cfg)) _ h in
        checked-IsSound cfg ((complaints-Passes (first_checks cfg)).0 a)
          (λ on. absurd (ground (arith, on, e)))
          ((complaints-Passes (last_checks cfg.stack)).0 (rw e at rest)),
    λ v.
        rw
          (
            e,
            (complaints-Passes (first_checks cfg)).1 (IsSound-first cfg v),
            (complaints-Passes (last_checks cfg.stack)).1 (IsSound-last cfg v),
          )
          refl,
  )
]

loaded_unless_iff :
    (messages : List String) (cfg cfg' : Config)
    → (loaded_unless messages cfg ≡ loaded cfg') ↔ ((messages ≡ []) × (cfg ≡ cfg'))
loaded_unless_iff [] cfg cfg' = (λ h. (refl, cc), λ (_, e). rw e refl)
loaded_unless_iff (m ∷ ms) cfg cfg' = (λ h. absurd (cc), λ (h, _). absurd (cc))

-- Load returns a configuration exactly if the .env file can be read or is missing, each field is the
-- default of its variable where that is not set and what the variable parses to where it is, and the
-- values satisfy every condition of IsSound, which admits a client rate of NaN.
pub load-IsSound :
    (lib : ParseLibrary) (dotenv : Option String) (env : Env) (cfg : Config)
    → (load lib dotenv env ≡ loaded cfg) ↔ ((dotenv ≡ none) × IsRead lib env cfg × IsSound cfg)
unfolding load
load-IsSound lib (some e) env cfg = (λ h. absurd (cc), λ (h, _, _). absurd (cc))
load-IsSound lib none env cfg =
    let (read, messages) = read_config lib env in
    (
      λ h.
          let (none_wrong, same) =
            (loaded_unless_iff (messages ++ validate_config read) read cfg).0 h in
          let (parsed, sound) = append-nil_parts messages (validate_config read) none_wrong in
          (
            refl,
            rw same at (read_config-IsRead lib env parsed),
            rw same at ((validate_config_iff read).0 sound),
          ),
      λ (_, v, sound).
          rw (IsRead-read_config lib env cfg v, (validate_config_iff cfg).1 sound) refl,
    )
