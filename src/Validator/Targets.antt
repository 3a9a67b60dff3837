-- ===== src/Validator/Targets.antt =====
-- The target ports of an accepted pod spec.
use Prim.Native.String.{count}
use container_provisioner_k.Base.Dict.{beq_refl}
use container_provisioner_k.Base.{
  ◌≢◌, sym, ap, Bool-cases, All-map, ℕ, suc, ◌≤◌, String, true, false, some, List, [], ◌∷◌, ◌≡◌,
  ◌⊎◌, inl, inr, refl, arith, length, ◌==◌, string_eq, eq_iff, All,
}
use container_provisioner_k.Base.Int.{ℤ, pos, negsuc, pos_part, neg_part}
use container_provisioner_k.Errors.{ok}
use container_provisioner_k.Op.{Result-cases}
use container_provisioner_k.Models.{PortSpec}
use container_provisioner_k.Pod.{Pod, Container, ContainerPort, KubeLibrary}
use container_provisioner_k.Validator.{
  ValidationResult, Totals, next_totals, out_of_range, no_totals, normalize_protocol,
  normalize_targets, has_key, port_key, collect_ports, exposed_key, validate_containers,
  targets_exposed, validate_container_port, validate_pod_spec, normalize_and_validate_resources,
}
use container_provisioner_k.Validator.Keys.{IsProtocol, port_key_inj}
use container_provisioner_k.Validator.Inversion.{validate_pod_spec-Accepted}

pub normalize_protocol-upper :
    (p q : String) → normalize_protocol p ≡ ok q → (q ≡ "TCP") ⊎ (q ≡ "UDP")
unfolding normalize_protocol
normalize_protocol-upper p q h = ground (arith, eq_iff q "TCP", eq_iff q "UDP")

-- A target port as the service stores it: in range, with a protocol in upper case.
pub record IsTarget (tp : PortSpec) : Type 0 where
  pub low : 1 ≤ pos_part tp.container_port
  pub nonneg : neg_part tp.container_port ≡ 0
  pub high : pos_part tp.container_port ≤ 65535
  pub upper : (tp.protocol ≡ "TCP") ⊎ (tp.protocol ≡ "UDP")

abbrev pub key_of : PortSpec → String
key_of tp = port_key tp.container_port tp.protocol

-- No two entries have one key, and none has a key of the list.
abbrev pub Fresh : List String → List PortSpec → Type 0
Fresh seen [] = Unit
Fresh seen (tp ∷ tps) = (has_key (key_of tp) seen ≡ false) × Fresh (key_of tp ∷ seen) tps

in_range :
    (port : ℤ)
    → out_of_range port ≡ false
    → (1 ≤ pos_part port) × (neg_part port ≡ 0) × (pos_part port ≤ 65535)
in_range (pos n) h = ground arith
in_range (negsuc n) h = ground arith

-- No two entries have the same port and protocol.
abbrev pub Distinct : List PortSpec → Type 0
Distinct [] = Unit
Distinct (tp ∷ tps) = All (λ other. other ≢ tp) tps × Distinct tps

Fresh-absent :
    (key : String) (seen : List String) (tps : List PortSpec)
    → has_key key seen ≡ true
    → Fresh seen tps
    → All (λ other. key_of other ≢ key) tps
unfolding has_key
Fresh-absent key seen [] known h = tt
Fresh-absent key seen (tp ∷ tps) known h = (
  λ e. absurd (ground (arith, rw e at h.0)),
  Fresh-absent key (key_of tp ∷ seen) tps (ground arith) h.1,
)

Fresh-Distinct : (seen : List String) (tps : List PortSpec) → Fresh seen tps → Distinct tps
unfolding has_key
Fresh-Distinct seen [] h = tt
Fresh-Distinct seen (tp ∷ tps) h = (
  All-map (λ other ne e. ne (ap key_of e)) tps
      (Fresh-absent (key_of tp) (key_of tp ∷ seen) tps (rw (beq_refl (key_of tp)) refl) h.1),
  Fresh-Distinct (key_of tp ∷ seen) tps h.1,
)

-- One round of the loop: the entry that it adds, and the rounds that follow.
normalize_targets-cons :
    (seen : List String) (tp o : PortSpec) (tps os : List PortSpec)
    → normalize_targets seen (tp ∷ tps) ≡ ok (o ∷ os)
    → IsTarget o
      × (has_key (key_of o) seen ≡ false)
      × (normalize_targets (key_of o ∷ seen) tps ≡ ok os)
unfolding normalize_targets
normalize_targets-cons seen tp o tps os h = elim (Result-cases (normalize_protocol tp.protocol)) [
  | inr (x, e) ↦ absurd (ground arith)
  | inl (q, e) ↦
      let rest : normalize_targets (port_key tp.container_port q ∷ seen) tps ≡ ok os =
        ground arith in
      let same : o ≡ record { container_port = tp.container_port; protocol = q } = ground arith in
      let (low, nonneg, high) = in_range tp.container_port (ground arith) in
      rw same (
        record {
          low = low;
          nonneg = nonneg;
          high = high;
          upper = normalize_protocol-upper tp.protocol q e;
        },
        ground arith,
        rest,
      )
]

normalize_targets_sound :
    (seen : List String) (tps out : List PortSpec)
    → normalize_targets seen tps ≡ ok out
    → All IsTarget out × Fresh seen out × (length out ≡ length tps)
normalize_targets_sound seen [] [] h = (tt, tt, refl)
normalize_targets_sound seen [] (o ∷ os) h = absurd (unfold normalize_targets in ground arith)
normalize_targets_sound seen (tp ∷ tps) [] h = absurd (unfold normalize_targets in ground arith)
normalize_targets_sound seen (tp ∷ tps) (o ∷ os) h =
    let (t, new, rest) = normalize_targets-cons seen tp o tps os h in
    let (ts, fresh, same) = normalize_targets_sound (key_of o ∷ seen) tps os rest in
    ((t, ts), (new, fresh), omega arith)

-- A container port has the number of the target and its protocol, which is TCP where it names none.
abbrev pub ExposedBy : PortSpec → ContainerPort → Type 0
ExposedBy tp p =
    (p.container_port ≡ tp.container_port)
    × ((p.protocol ≡ tp.protocol) ⊎ ((p.protocol ≡ "") × (tp.protocol ≡ "TCP")))

abbrev pub InPorts : PortSpec → List ContainerPort → Type 0
InPorts tp [] = ⊥
InPorts tp (p ∷ ps) = ExposedBy tp p ⊎ InPorts tp ps

-- A container of the pod exposes the target.
abbrev pub Exposed : {Q : Type 0} → PortSpec → List (Container Q) → Type 0
Exposed tp [] = ⊥
Exposed tp (c ∷ cs) = InPorts tp c.ports ⊎ Exposed tp cs

exposed_key-ExposedBy :
    (tp : PortSpec) (p : ContainerPort)
    → IsTarget tp
    → validate_container_port p ≡ ok tt
    → exposed_key p ≡ key_of tp
    → ExposedBy tp p
unfolding validate_container_port
exposed_key-ExposedBy tp p t valid h = elim (Bool-cases (p.protocol == "")) [
  | inl e ↦
      let (port, protocol) =
        port_key_inj p.container_port tp.container_port "TCP" tp.protocol (ground arith) t.nonneg
          (inl refl) t.upper (rw e at h) in
      (port, inr ((eq_iff p.protocol "").0 e, sym protocol))
  | inr e ↦
      let named : IsProtocol p.protocol =
        ground (arith, eq_iff p.protocol "TCP", eq_iff p.protocol "UDP") in
      let (port, protocol) =
        port_key_inj p.container_port tp.container_port p.protocol tp.protocol (ground arith)
          t.nonneg named t.upper (rw e at h) in
      (port, inl protocol)
]

collect_ports-InPorts :
    (tp : PortSpec) (n : ℕ) (keys : List String) (ps : List ContainerPort) (out : ℕ × List String)
    → IsTarget tp
    → collect_ports n keys ps ≡ ok out
    → has_key (key_of tp) out.1 ≡ true
    → InPorts tp ps ⊎ (has_key (key_of tp) keys ≡ true)
unfolding collect_ports has_key
collect_ports-InPorts tp n keys [] out t h has =
    let same : out.1 ≡ keys = ground arith in inr (rw same at has)
collect_ports-InPorts tp n keys (p ∷ ps) out t h has =
    elim (Result-cases (validate_container_port p)) [
      | inr (x, e) ↦ absurd (ground arith)
      | inl (tt, e) ↦
          elim (collect_ports-InPorts tp (suc n) (exposed_key p ∷ keys) ps out t (rw e at h) has) [
            | inl later ↦ inl (inr later)
            | inr known ↦ elim (Bool-cases (exposed_key p == key_of tp)) [
              | inl same ↦ inl (
                  inl
                    (exposed_key-ExposedBy tp p t e ((eq_iff (exposed_key p) (key_of tp)).0 same)))
              | inr other ↦ inr (rw other at known)
            ]
          ]
    ]

module _ {Q : Type 0} (lib : KubeLibrary Q) where
  validate_containers-Exposed :
      (tp : PortSpec) (t : Totals) (cs : List (Container Q)) (out : List (Container Q) × Totals)
      → IsTarget tp
      → validate_containers lib t cs ≡ ok out
      → has_key (key_of tp) out.1.pod_port_set ≡ true
      → Exposed tp cs ⊎ (has_key (key_of tp) t.pod_port_set ≡ true)
  unfolding validate_containers
  validate_containers-Exposed tp t [] out v h has =
      let same : out.1 ≡ t = ground arith in inr (rw same at has)
  validate_containers-Exposed tp t (c ∷ cs) out v h has =
      elim (Result-cases (normalize_and_validate_resources lib c.resources)) [
        | inr (x, e) ↦ absurd (ground arith)
        | inl (amount, a) ↦
            elim (Result-cases (collect_ports t.port_count t.pod_port_set c.ports)) [
              | inr (x, e) ↦ absurd (ground arith)
              | inl (exposed, e) ↦
                  let t' = next_totals t amount exposed in
                  elim (Result-cases (validate_containers lib t' cs)) [
                    | inr (x, f) ↦ absurd (ground arith)
                    | inl (rest, f) ↦
                        let same : out.1 ≡ rest.1 = ground arith in
                        elim (validate_containers-Exposed tp t' cs rest v f (rw same at has)) [
                          | inl later ↦ inl (inr later)
                          | inr known ↦
                              elim (collect_ports-InPorts tp t.port_count t.pod_port_set c.ports
                                exposed v e known) [
                                  | inl here ↦ inl (inl here)
                                  | inr before ↦ inr before
                                ]
                        ]
                  ]
            ]
      ]

targets_exposed_sound :
    (keys : List String) (tps : List PortSpec)
    → targets_exposed keys tps ≡ ok tt
    → All (λ tp. has_key (key_of tp) keys ≡ true) tps
unfolding targets_exposed
targets_exposed_sound keys [] h = tt
targets_exposed_sound keys (tp ∷ tps) h =
    (ground arith, targets_exposed_sound keys tps (ground arith))

-- The target ports of a successful validation.
pub record TargetsOk {Q : Type 0} (pod : Pod Q) (tps out : List PortSpec) : Type 0 where
  pub some_target : 1 ≤ length out
  pub at_most : length out ≤ 24
  pub as_many : length out ≡ length tps
  pub in_form : All IsTarget out
  pub distinct : Distinct out
  pub exposed : All (λ tp. Exposed tp pod.containers) out

all-Exposed :
    {Q : Type 0} (lib : KubeLibrary Q) (cs : List (Container Q)) (out : List (Container Q) × Totals)
    (tps : List PortSpec)
    → validate_containers lib no_totals cs ≡ ok out
    → All IsTarget tps
    → All (λ tp. has_key (key_of tp) out.1.pod_port_set ≡ true) tps
    → All (λ tp. Exposed tp cs) tps
unfolding has_key
all-Exposed lib cs out [] e forms keys = tt
all-Exposed lib cs out (tp ∷ tps) e forms keys = (
  elim (validate_containers-Exposed lib tp no_totals cs out forms.0 e keys.0) [
    | inl h ↦ h
    | inr h ↦ absurd (ground arith)
  ],
  all-Exposed lib cs out tps e forms.1 keys.1,
)

-- If a pod spec is accepted, it parses to a pod and the returned target ports are: as many as
-- requested and between 1 and 24, each between 1 and 65535 with protocol TCP or UDP, no two with the
-- same port and protocol, and each the port and protocol (TCP where none is named) of a container
-- port of the pod.
pub validate_pod_spec-TargetsOk :
    {Q : Type 0} (lib : KubeLibrary Q) (raw : String) (tps : List PortSpec) (v : ValidationResult)
    → validate_pod_spec lib raw tps ≡ ok v
    → (pod : Pod Q) × (lib.unmarshal raw ≡ some pod) × TargetsOk pod tps v.target_ports
validate_pod_spec-TargetsOk lib raw tps v h =
    let a = validate_pod_spec-Accepted lib raw tps v h in
    let (forms, fresh, count) = normalize_targets_sound [] tps v.target_ports a.targets in
    (
      a.pod,
      a.parsed,
      record {
        some_target = ground (arith, count, a.some_targets);
        at_most = ground (arith, count, a.few_targets);
        as_many = count;
        in_form = forms;
        distinct = Fresh-Distinct [] v.target_ports fresh;
        exposed =
            all-Exposed lib a.pod.containers a.mains v.target_ports a.containers forms
              (targets_exposed_sound a.mains.1.pod_port_set v.target_ports a.exposed);
      },
    )
