-- ===== src/Validator/Accounting.antt =====
-- What an accepted pod is accounted for, and how input is refused.
use Prim.Native.Nat.{max}
use container_provisioner_k.Base.{
  ℕ, ◌+◌, ◌<◌, ◌^◌, String, true, some, List, [], ◌∷◌, ◌≡◌, inl, inr, refl, arith,
}
use container_provisioner_k.Base.Int.{ℤ, pos, negsuc, pos_part, ltb_ℤ, add64_fits}
use container_provisioner_k.Errors.{ok}
use container_provisioner_k.Op.{Result-cases}
use container_provisioner_k.Models.{PortSpec}
use container_provisioner_k.Pod.{Pod, Container, KubeLibrary}
use container_provisioner_k.Validator.{
  ValidationResult, Totals, no_totals, next_totals, max64, get_milli, get_bytes, collect_ports,
  validate_containers, validate_init_containers, validate_pod_spec,
  normalize_and_validate_resources,
}
use container_provisioner_k.Validator.Inversion.{validate_pod_spec-Accepted}

module _ {Q : Type 0} (lib : KubeLibrary Q) where
  -- What a container asks for: the larger of its request and its limit.
  unfoldable pub cpu_of : Container Q → ℕ
  cpu_of c =
      pos_part
        (max64 (get_milli lib c.resources.requests "cpu") (get_milli lib c.resources.limits "cpu"))

  unfoldable pub memory_of : Container Q → ℕ
  memory_of c = pos_part (
      max64 (get_bytes lib c.resources.requests "memory")
        (get_bytes lib c.resources.limits "memory"))

abbrev pub sum_by : {A : Type 0} → (A → ℕ) → List A → ℕ
sum_by f [] = 0
sum_by f (x ∷ xs) = f x + sum_by f xs

abbrev pub max_by : {A : Type 0} → (A → ℕ) → List A → ℕ
max_by f [] = 0
max_by f (x ∷ xs) = max (f x) (max_by f xs)

module _ {Q : Type 0} (lib : KubeLibrary Q) where
  amount-eq :
      (c : Container Q) (amount : ℤ × ℤ)
      → normalize_and_validate_resources lib c.resources ≡ ok amount
      → (amount.0 ≡ pos (cpu_of lib c)) × (amount.1 ≡ pos (memory_of lib c))
  unfolding normalize_and_validate_resources cpu_of memory_of
  amount-eq c amount h = ground arith

  max64-pos : (m n : ℕ) → max64 (pos m) (pos n) ≡ pos (max m n)
  max64-pos m n = ground arith

  inits-max :
      (m b : ℕ) (cs : List (Container Q)) (out : List (Container Q) × ℤ × ℤ)
      → validate_init_containers lib (pos m) (pos b) cs ≡ ok out
      → (out.1 ≡ pos (max (max_by (cpu_of lib) cs) m))
        × (out.2 ≡ pos (max (max_by (memory_of lib) cs) b))
  unfolding validate_init_containers
  inits-max m b [] out h = ground arith
  inits-max m b (c ∷ cs) out h =
      elim (Result-cases (normalize_and_validate_resources lib c.resources)) [
        | inr (x, e) ↦ absurd (ground arith)
        | inl (amount, a) ↦
            let (cpu, mem) = amount-eq c amount a in
            let m' = max (cpu_of lib c) m in
            let b' = max (memory_of lib c) b in
            let cpus : max64 amount.0 (pos m) ≡ pos m' = rw cpu (max64-pos (cpu_of lib c) m) in
            let mems : max64 amount.1 (pos b) ≡ pos b' = rw mem (max64-pos (memory_of lib c) b) in
            elim (Result-cases (validate_init_containers lib (pos m') (pos b') cs)) [
              | inr (x, e) ↦ absurd (ground arith)
              | inl (rest, e) ↦ ground (arith, inits-max m' b' cs rest e)
            ]
      ]

  -- The sums of the loop, as long as they fit in an int64.
  mains-sum :
      (t : Totals) (m b : ℕ) (cs : List (Container Q)) (out : List (Container Q) × Totals)
      → validate_containers lib t cs ≡ ok out
      → t.sum_milli ≡ pos m
      → t.sum_bytes ≡ pos b
      → m + sum_by (cpu_of lib) cs < 2 ^ 63
      → b + sum_by (memory_of lib) cs < 2 ^ 63
      → (out.1.sum_milli ≡ pos (m + sum_by (cpu_of lib) cs))
        × (out.1.sum_bytes ≡ pos (b + sum_by (memory_of lib) cs))
  unfolding validate_containers
  mains-sum t m b [] out h p q k l = ground arith
  mains-sum t m b (c ∷ cs) out h p q k l =
      elim (Result-cases (normalize_and_validate_resources lib c.resources)) [
        | inr (x, e) ↦ absurd (ground arith)
        | inl (amount, a) ↦
            elim (Result-cases (collect_ports t.port_count t.pod_port_set c.ports)) [
              | inr (x, e) ↦ absurd (ground arith)
              | inl (exposed, e) ↦
                  let t' = next_totals t amount exposed in
                  let (cpu, mem) = amount-eq c amount a in
                  let m' = m + cpu_of lib c in
                  let b' = b + memory_of lib c in
                  let p' : t'.sum_milli ≡ pos m' =
                    rw (p, cpu) (add64_fits m (cpu_of lib c) (omega arith)) in
                  let q' : t'.sum_bytes ≡ pos b' =
                    rw (q, mem) (add64_fits b (memory_of lib c) (omega arith)) in
                  elim (Result-cases (validate_containers lib t' cs)) [
                    | inr (x, f) ↦ absurd (ground arith)
                    | inl (rest, f) ↦
                        ground
                          (arith, mains-sum t' m' b' cs rest f p' q' (omega arith) (omega arith))
                  ]
            ]
      ]

positive_part : (z : ℤ) → ltb_ℤ (pos 0) z ≡ true → 0 < pos_part z
positive_part (pos n) h = ground arith
positive_part (negsuc n) h = absurd (ground arith)

-- If a pod spec that parses to a pod is accepted, and the containers' requests of cpu and of memory
-- add up to less than 2 ^ 63 each, the requested cpu and memory are the larger of the sum over the
-- containers and the maximum over the init containers, where a container asks for the larger of its
-- request and its limit; and both are positive.
pub validate_pod_spec-accounting :
    {Q : Type 0} (lib : KubeLibrary Q) (raw : String) (tps : List PortSpec) (v : ValidationResult)
    (pod : Pod Q)
    → validate_pod_spec lib raw tps ≡ ok v
    → lib.unmarshal raw ≡ some pod
    → sum_by (cpu_of lib) pod.containers < 2 ^ 63
    → sum_by (memory_of lib) pod.containers < 2 ^ 63
    → (v.requested_milli
        ≡ pos (max (sum_by (cpu_of lib) pod.containers) (max_by (cpu_of lib) pod.init_containers)))
      × (v.requested_bytes
          ≡ pos (
              max
                (sum_by (memory_of lib) pod.containers)
                (max_by (memory_of lib) pod.init_containers)))
      × (0 < pos_part v.requested_milli)
      × (0 < pos_part v.requested_bytes)
validate_pod_spec-accounting lib raw tps v pod h parsed k l =
    let a = validate_pod_spec-Accepted lib raw tps v h in
    let same : a.pod ≡ pod = cc (a.parsed, parsed) in
    let is : validate_init_containers lib (pos 0) (pos 0) pod.init_containers ≡ ok a.inits =
      rw (← same) a.init_containers in
    let ms : validate_containers lib no_totals pod.containers ≡ ok a.mains =
      rw (← same) a.containers in
    let (init_cpu, init_mem) = inits-max lib 0 0 pod.init_containers a.inits is in
    let (cpu, mem) =
      mains-sum lib no_totals 0 0 pod.containers a.mains ms refl refl (omega arith) (omega arith) in
    (
      ground (arith, a.milli, init_cpu, cpu),
      ground (arith, a.bytes, init_mem, mem),
      positive_part v.requested_milli a.milli_positive,
      positive_part v.requested_bytes a.bytes_positive,
    )
