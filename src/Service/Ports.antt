-- ===== src/Service/Ports.antt =====
-- Service.Create leaks no node port: the laws that it needs of its repository and cluster, and the
-- proof through reservePorts, releasePorts and both attempts.
use container_provisioner_k.Base.{
  ℕ, zero, suc, ◌+◌, String, Bool, true, false, ◌&&◌, ◌||◌, Option, none, some, List, [], ◌∷◌, ◌++◌,
  ◌≡◌, ◌⊎◌, inl, inr, refl, arith, if◌then◌else◌, ◌==◌, nat_eq, nat_beq_iff, Bool-cases,
  Option-cases, ◌∙◌, sym, ap,
}
use container_provisioner_k.Errors.{Error, Result, ok, err}
use container_provisioner_k.Op.{Op, raise, ◌>>◌, Outcome-cases, Result-cases}
use container_provisioner_k.Models.{Time, PortSpec, PortMapping, Stack, CreateInput}
use container_provisioner_k.Kubernetes.{ProvisionRequest, ProvisionResult}
use container_provisioner_k.Repository.{is_reserved}
use container_provisioner_k.Repository.Ports.{has_port}
use container_provisioner_k.Validator.{ValidationResult, validate_pod_spec}
use container_provisioner_k.Service.{Service, new_id, new_stack_id}
use container_provisioner_k.Service.Provision.{
  port_bound, release_ports, reserve_ports, record_stack, create_rounds, create, new_stack,
  with_result, request, value_or_nil, is_node_port_allocated_error,
}

-- What a repository promises of node ports. The owner of a port is none while it is free, and the
-- empty id while it is reserved; nothing but the repository changes owners.
pub record PortLaws {W Q : Type 0} (s : Service W Q) : Type 0 where
  pub owner : W → ℕ → Option String
  pub reserve_ok :
      (min max port : ℕ) (w w' : W)
      → s.repo.reserve_node_port min max w ≡ (ok port, w')
      → (owner w port ≡ none) × ((n : ℕ) → owner w' n ≡ (if port == n then some "" else owner w n))
  pub reserve_err :
      (min max : ℕ) (e : Error) (w w' : W)
      → s.repo.reserve_node_port min max w ≡ (err e, w')
      → (n : ℕ) → owner w' n ≡ owner w n
  pub release :
      (port : ℕ) (w : W) (n : ℕ)
      → owner (s.repo.release_node_port port w).1 n
        ≡ (if port == n && is_reserved (owner w port) then none else owner w n)
  pub create_ok :
      (st : Stack) (w w' : W)
      → s.repo.create st w ≡ (ok tt, w')
      → (n : ℕ) → owner w' n ≡ (if has_port n st.ports then some st.stack_id else owner w n)
  pub create_err :
      (st : Stack) (e : Error) (w w' : W)
      → s.repo.create st w ≡ (err e, w')
      → (n : ℕ) → owner w' n ≡ owner w n
  pub k8s_create :
      (r : ProvisionRequest) (w : W) (n : ℕ)
      → owner (s.k8s.create_pod_and_service r w).1 n ≡ owner w n
  pub k8s_delete :
      (ns pod svc : String) (w : W) (n : ℕ)
      → owner (s.k8s.delete_pod_and_service ns pod svc w).1 n ≡ owner w n
  pub k8s_ip :
      (node : String) (w : W) (n : ℕ) → owner (s.k8s.get_node_public_ip node w).1 n ≡ owner w n
  pub clock : (w : W) (n : ℕ) → owner (s.now w).1 n ≡ owner w n
  pub nano : (w : W) (n : ℕ) → owner (s.unix_nano w).1 n ≡ owner w n
  pub entropy : (w : W) (n : ℕ) → owner (s.random_bytes w).1 n ≡ owner w n

-- Whether `n` is among the ports.
abbrev pub mem : ℕ → List ℕ → Bool
mem n [] = false
mem n (p ∷ ps) = p == n || mem n ps

module _ {W Q : Type 0} (s : Service W Q) (l : PortLaws s) where
  open l use {owner}

  -- The ports of the list were free in `w0` and are reserved or free again; all others are as they
  -- were.
  record Holds (w0 w : W) (reserved : List ℕ) : Type 0 where
    kept : (n : ℕ) → mem n reserved ≡ false → owner w n ≡ owner w0 n
    held :
        (n : ℕ)
        → mem n reserved ≡ true
        → (owner w0 n ≡ none) × ((owner w n ≡ some "") ⊎ (owner w n ≡ none))

  -- A step that changes no owner.
  Holds-step :
      (w0 w w' : W) (rs : List ℕ)
      → ((n : ℕ) → owner w' n ≡ owner w n)
      → Holds w0 w rs
      → Holds w0 w' rs
  Holds-step w0 w w' rs same h = record {
    kept = λ n m. same n ∙ h.kept n m;
    held = λ n m. ground (arith, same n, h.held n m);
  }

  released :
      (w0 w : W) (rs : List ℕ)
      → Holds w0 w rs
      → (n : ℕ) → owner (release_ports s rs w).1 n ≡ owner w0 n
  unfolding release_ports
  released w0 w [] h n = h.kept n refl
  released w0 w (p ∷ ps) h n =
      released w0 (s.repo.release_node_port p w).1 ps
        (record {
          kept = λ k m. ground (arith, l.release p w k, h.kept k, h.held k, nat_beq_iff p k);
          held = λ k m. ground (arith, l.release p w k, h.held k);
        })
        n

-- Releasing cannot fail: the errors are only logged.
pub release_ports-then :
    {W Q A : Type 0} (s : Service W Q) (rs : List ℕ) (k : Op W A) (w : W)
    → (release_ports s rs >> k) w ≡ k (release_ports s rs w).1
unfolding release_ports
release_ports-then s [] k w = refl
release_ports-then s (p ∷ ps) k w = release_ports-then s ps k (s.repo.release_node_port p w).1

mem-append : (n : ℕ) (xs : List ℕ) (p : ℕ) → mem n (xs ++ p ∷ []) ≡ (p == n || mem n xs)
mem-append n [] p = ground arith
mem-append n (x ∷ xs) p = ground (arith, mem-append n xs p)

has_port-append :
    (n : ℕ) (xs : List PortMapping) (p : PortMapping)
    → has_port n (xs ++ p ∷ []) ≡ (p.node_port == n || has_port n xs)
has_port-append n [] p = ground arith
has_port-append n (x ∷ xs) p = ground (arith, has_port-append n xs p)

module _ {W Q : Type 0} (s : Service W Q) (l : PortLaws s) where
  open l use {owner}

  -- One more port has been reserved.
  Holds-reserve :
      (w0 w w' : W) (rs : List ℕ) (port : ℕ)
      → s.repo.reserve_node_port (port_bound s.cfg.node_port_min) (port_bound s.cfg.node_port_max) w
        ≡ (ok port, w')
      → Holds s l w0 w rs
      → Holds s l w0 w' (rs ++ port ∷ [])
  Holds-reserve w0 w w' rs port e h =
      let (free, own) =
        l.reserve_ok (port_bound s.cfg.node_port_min) (port_bound s.cfg.node_port_max) port w w'
          e in
      record {
        kept = λ n m. ground (arith, mem-append n rs port, own n, h.kept n);
        held = λ n m.
            ground
              (arith, mem-append n rs port, own n, free, h.kept n, h.held n, nat_beq_iff port n);
      }

  abbrev Reservation : W → Result (List PortMapping × List ℕ) × W → Type 0
  Reservation w0 (ok (ports, reserved), w) =
      Holds s l w0 w reserved × ((n : ℕ) → has_port n ports ≡ mem n reserved)
  Reservation w0 (err e, w) = (n : ℕ) → owner w n ≡ owner w0 n

  -- reservePorts holds exactly the ports that it returns, or none if it fails.
  reserve_ports-Reservation :
      (w0 w : W) (targets : List PortSpec) (ports : List PortMapping) (rs : List ℕ)
      → Holds s l w0 w rs
      → ((n : ℕ) → has_port n ports ≡ mem n rs)
      → Reservation w0 (reserve_ports s targets ports rs w)
  unfolding reserve_ports
  reserve_ports-Reservation w0 w [] ports rs h same = (h, same)
  reserve_ports-Reservation w0 w (t ∷ ts) ports rs h same =
      elim (Outcome-cases (
        s.repo.reserve_node_port (port_bound s.cfg.node_port_min) (port_bound s.cfg.node_port_max)
          w)) [
            | inl (port, w', e) ↦ rw e (
                reserve_ports-Reservation w0 w' ts
                  (ports
                    ++ record {
                      container_port = t.container_port;
                      protocol = t.protocol;
                      node_port = port;
                    }
                      ∷ [])
                  (rs ++ port ∷ []) (Holds-reserve w0 w w' rs port e h)
                  (λ n. rw (has_port-append, mem-append) (ap (λ b. port == n || b) (same n))))
            | inr (x, w', e) ↦
                let back = released s l w0 w' rs (
                  Holds-step s l w0 w w' rs
                    (l.reserve_err (port_bound s.cfg.node_port_min) (port_bound s.cfg.node_port_max)
                      x w w' e)
                    h) in
                rw (e, release_ports-then {A = List PortMapping × List ℕ} s rs (raise x) w') back
          ]

  -- The outcome of Create from a world with the owners of `w0`: a stored stack owns its ports, which
  -- were free, and every other port has the owner that it had; an error leaves all owners as before.
  abbrev pub PortsSettled : W → Result Stack × W → Type 0
  PortsSettled w0 (ok st, w) =
      (n : ℕ)
      → (has_port n st.ports ≡ true) × (owner w0 n ≡ none) × (owner w n ≡ some st.stack_id)
        ⊎ (has_port n st.ports ≡ false) × (owner w n ≡ owner w0 n)
  PortsSettled w0 (err e, w) = (n : ℕ) → owner w n ≡ owner w0 n

  -- Releasing everything, and what follows.
  after_release :
      (w0 w : W) (rs : List ℕ) (k : Op W Stack)
      → Holds s l w0 w rs
      → ((w' : W) → ((n : ℕ) → owner w' n ≡ owner w0 n) → PortsSettled w0 (k w'))
      → PortsSettled w0 ((release_ports s rs >> k) w)
  after_release w0 w rs k h next =
      rw (release_ports-then {A = Stack} s rs k w)
        (next (release_ports s rs w).1 (released s l w0 w rs h))

  record_stack-PortsSettled :
      (w0 w : W) (st : Stack) (rs : List ℕ) (result : ProvisionResult)
      → Holds s l w0 w rs
      → ((n : ℕ) → has_port n st.ports ≡ mem n rs)
      → PortsSettled w0 (record_stack s st rs result w)
  unfolding record_stack
  record_stack-PortsSettled w0 w st rs result h same =
      let (ip, w1) = s.k8s.get_node_public_ip result.node_id w in
      let h1 = Holds-step s l w0 w w1 rs (l.k8s_ip result.node_id w) h in
      let st' = with_result s st result (value_or_nil s ip) in
      elim (Outcome-cases (s.repo.create st' w1)) [
        | inl (_, w2, e) ↦ rw e (λ n.
            let own = l.create_ok st' w1 w2 e n in
            elim (Bool-cases (has_port n st.ports)) [
              | inl b ↦ inl (b, (h1.held n (sym (same n) ∙ b)).0, ground (arith, own))
              | inr b ↦ inr (b, ground (arith, own, h1.kept n (sym (same n) ∙ b)))
            ])
        | inr (x, w2, e) ↦ rw e (
            after_release w0
              (s.k8s.delete_pod_and_service st'.namespace st'.pod_id st'.service_name w2).1 rs
              (raise x)
              (Holds-step s l w0 w1 _ rs
                (λ n.
                  l.k8s_delete st'.namespace st'.pod_id st'.service_name w2 n
                  ∙ l.create_err st' x w1 w2 e n)
                h1)
              (λ w' back. back))
      ]

  -- One attempt, from the reservation on.
  create_rounds-PortsSettled :
      (valid : ValidationResult) (id : String) (now : Time) (rounds round : ℕ) (last : Option Error)
      (w0 w : W)
      → ((n : ℕ) → owner w n ≡ owner w0 n)
      → PortsSettled w0 (create_rounds s valid id now rounds round last w)
  unfolding create_rounds
  create_rounds-PortsSettled valid id now zero round last w0 w same = same
  create_rounds-PortsSettled valid id now (suc rounds) round last w0 w same =
      let none_held : Holds s l w0 w [] = record {
        kept = λ n _. same n;
        held = λ n h. absurd (ground arith);
      } in
      let r = reserve_ports-Reservation w0 w valid.target_ports [] [] none_held (λ n. refl) in
      elim (Outcome-cases (reserve_ports s valid.target_ports [] [] w)) [
        | inr (x, w1, e) ↦ rw e (rw e at r)
        | inl ((ports, rs), w1, e) ↦
            let (h, match) = rw e at r in
            let req = request s valid id round ports in
            elim (Outcome-cases (s.k8s.create_pod_and_service req w1)) [
              | inl (result, w2, f) ↦
                  rw (e, f)
                    (record_stack-PortsSettled w0 w2 (new_stack s valid id now ports) rs result
                      (Holds-step s l w0 w1 w2 rs (rw f at (l.k8s_create req w1)) h) match)
              | inr (x, w2, f) ↦
                  rw (e, f)
                    (after_release w0 w2 rs _
                      (Holds-step s l w0 w1 w2 rs (rw f at (l.k8s_create req w1)) h)
                      (λ w' back. elim (Bool-cases (round == 0 && is_node_port_allocated_error x)) [
                        | inl again ↦ rw again (
                            create_rounds-PortsSettled valid id now rounds (round + 1) (some x) w0
                              w' back)
                        | inr stop ↦ rw stop back
                      ]))
            ]
      ]

  owner-new_id : (prefix : String) (w : W) (n : ℕ) → owner (new_id s prefix w).1 n ≡ owner w n
  unfolding new_id
  owner-new_id prefix w n = elim (Option-cases (s.random_bytes w).0) [
    | inr (bs, e) ↦ rw (e, new_id) (l.entropy w n)
    | inl e ↦ rw (e, new_id) (l.nano (s.random_bytes w).1 n ∙ l.entropy w n)
  ]

  -- For every input, and whatever the cluster answers: if Create returns a stack, the stack's ports
  -- were free and belong to it, and every other port has the owner that it had; if Create fails, in
  -- any of its ways and after either attempt, every port has the owner that it had. This supposes of
  -- the repository and the cluster the port laws.
  pub create-PortsSettled : (input : CreateInput) (w : W) → PortsSettled w (create s input w)
  unfolding create
  create-PortsSettled input w =
      elim (Result-cases (validate_pod_spec s.validator input.pod_spec_yml input.target_ports)) [
        | inr (x, e) ↦ rw e (λ n. refl)
        | inl (valid, e) ↦
            let (id, w1) = new_stack_id s w in
            let (now, w2) = s.now w1 in
            rw e (
              create_rounds-PortsSettled valid id now 2 0 none w w2
                (λ n. l.clock w1 n ∙ owner-new_id "stack-" w n))
      ]
