-- ===== src/Repository/Reserve.antt =====
-- ReserveNodePort: the scan of the range from a random start finds a free port if there is one.
use container_provisioner_k.Base.{
  ℕ, zero, suc, ◌+◌, ◌-◌, ◌%◌, ◌<◌, ◌≤◌, String, none, some, if◌then◌else◌, ◌==◌, nat_eq, ◌≡◌, ◌≢◌,
  refl, arith, dec_lt, ◌⊎◌,
}
use container_provisioner_k.Base.Dict.{Dict, lookup, lookup-insert}
use container_provisioner_k.Errors.{Result, ok, err, sentinel, no_available_node_port}
use container_provisioner_k.Repository
use container_provisioner_k.Repository.{InMemoryRepository, probe}
use container_provisioner_k.Repository.Cases.{reserve_cases}

pub probe-some :
    (min total start : ℕ) (ports : Dict ℕ String) (rounds i port : ℕ)
    → probe min total start ports rounds i ≡ some port
    → (lookup port ports ≡ none) × (0 < total → (min ≤ port) × (port < min + total))
unfolding probe
probe-some min total start ports zero i port e = absurd (cc)
probe-some min total start ports (suc rounds) i port e =
    ground (arith, probe-some min total start ports rounds (i + 1) port)

-- A scan that finds nothing has looked at the ports of all its rounds.
probe-none :
    (min total start : ℕ) (ports : Dict ℕ String) (rounds i k : ℕ)
    → probe min total start ports rounds i ≡ none
    → i ≤ k
    → k < i + rounds
    → lookup (min + (start - min + k) % total) ports ≢ none
unfolding probe
probe-none min total start ports zero i k e h l = absurd (omega arith)
probe-none min total start ports (suc rounds) i k e h l = λ free. elim (dec_lt i k) [
  | yes p ↦
      probe-none min total start ports rounds (i + 1) k (ground arith) (omega arith) (omega arith)
        free
  | no p ↦ let here : i ≡ k = omega arith in ground arith
]

-- The round in which the scan comes to offset `q`.
round_of : ℕ → ℕ → ℕ → ℕ
round_of draw q total = (q + total - draw) % total

offset-round_of :
    (draw q total : ℕ)
    → draw < total
    → q < total
    → ((draw + round_of draw q total) % total ≡ q) × (round_of draw q total < total)
unfolding round_of
offset-round_of draw q total h l = grind arith

-- What a call promises: a free port of the range, which it marks as reserved and nothing else; or
-- the error of an exhausted range, the repository unchanged and no port of the range free.
abbrev pub Reserved : ℕ → ℕ → InMemoryRepository → Result ℕ × InMemoryRepository → Type 0
Reserved min max r (ok port, r') =
    (min ≤ port)
    × (port ≤ max)
    × (lookup port r.ports ≡ none)
    × ((n : ℕ) → lookup n r'.ports ≡ (if port == n then some "" else lookup n r.ports))
    × (r'.stacks ≡ r.stacks)
    × (r'.jobs ≡ r.jobs)
Reserved min max r (err e, r') =
    (e ≡ sentinel no_available_node_port)
    × (r' ≡ r)
    × (¬ ((port : ℕ) × (min ≤ port) × (port ≤ max) × (lookup port r.ports ≡ none)))

exhausted :
    (draw min max : ℕ) (r : InMemoryRepository)
    → draw < max + 1 - min
    → probe min (max + 1 - min) (min + draw) r.ports (max + 1 - min) 0 ≡ none
    → ¬ ((port : ℕ) × (min ≤ port) × (port ≤ max) × (lookup port r.ports ≡ none))
exhausted draw min max r d e (port, h, l, free) =
    let total = max + 1 - min in
    let (at, below) = offset-round_of draw (port - min) total d (omega arith) in
    let here : min + (min + draw - min + round_of draw (port - min) total) % total ≡ port =
      let start : min + draw - min ≡ draw = omega arith in rw (start, at) (omega arith) in
    probe-none min total (min + draw) r.ports total 0 (round_of draw (port - min) total) e
      (omega arith) (omega arith) (rw here free)

-- Whatever number the generator draws below the size of the range, ReserveNodePort returns a port
-- of the range that was free and marks only that port, as reserved; it fails only if no port of the
-- range is free, or the range is empty, and then changes nothing.
pub reserve_node_port-Reserved :
    (draw min max : ℕ) (r : InMemoryRepository)
    → ((max < min) ⊎ (draw < max + 1 - min))
    → Reserved min max r (Repository.reserve_node_port draw min max r)
reserve_node_port-Reserved draw min max r h =
    reserve_cases (Reserved min max r) draw min max r
      (λ empty. (refl, refl, λ (port, a, b, _). absurd (omega arith)))
      (λ range e. (refl, refl, exhausted draw min max r (omega arith) e))
      (λ port range e.
        let (free, within) =
          probe-some min (max + 1 - min) (min + draw) r.ports (max + 1 - min) 0 port e in
        (
          (within (omega arith)).0,
          omega (arith, (within (omega arith)).1),
          free,
          λ n. lookup-insert port n "" r.ports,
          refl,
          refl,
        ))
