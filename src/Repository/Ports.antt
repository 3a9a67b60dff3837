-- ===== src/Repository/Ports.antt =====
-- The port table of the in-memory repository under the loops of Create and Delete.
use container_provisioner_k.Base.{
  ℕ, String, Bool, Option, ap, true, false, ◌||◌, none, some, List, [], ◌∷◌, if◌then◌else◌, ◌==◌,
  nat_eq, string_eq, ◌≡◌, refl, arith, eq_iff, nat_beq_iff,
}
use container_provisioner_k.Base.Dict.{Dict, lookup, insert, erase, lookup-insert, lookup-erase}
use container_provisioner_k.Models.{PortMapping}
use container_provisioner_k.Repository.{all_reserved, is_reserved, claim_ports, drop_ports}

-- Whether a stack with these ports is mapped to node port `n`.
abbrev pub has_port : ℕ → List PortMapping → Bool
has_port n [] = false
has_port n (p ∷ ps) = p.node_port == n || has_port n ps

pub lookup-claim_ports :
    (n : ℕ) (sid : String) (ps : List PortMapping) (m : Dict ℕ String)
    → lookup n (claim_ports sid ps m) ≡ (if has_port n ps then some sid else lookup n m)
unfolding claim_ports
lookup-claim_ports n sid [] m = refl
lookup-claim_ports n sid (p ∷ ps) m = ground (
  arith,
  lookup-claim_ports n sid ps (insert p.node_port sid m),
  lookup-insert p.node_port n sid m,
)

pub lookup-drop_ports :
    (n : ℕ) (ps : List PortMapping) (m : Dict ℕ String)
    → lookup n (drop_ports ps m) ≡ (if has_port n ps then none else lookup n m)
unfolding drop_ports
lookup-drop_ports n [] m = refl
lookup-drop_ports n (p ∷ ps) m =
    ground (arith, lookup-drop_ports n ps (erase p.node_port m), lookup-erase p.node_port n m)

is_reserved-some : (o : Option String) → is_reserved o ≡ true → o ≡ some ""
is_reserved-some none h = cc
is_reserved-some (some owner) h = ap some ((eq_iff owner "").0 h)

pub lookup_of_all_reserved :
    (n : ℕ) (ps : List PortMapping) (m : Dict ℕ String)
    → all_reserved m ps ≡ true
    → has_port n ps ≡ true
    → lookup n m ≡ some ""
unfolding all_reserved
lookup_of_all_reserved n [] m a h = cc
lookup_of_all_reserved n (p ∷ ps) m a h = ground (
  arith,
  lookup_of_all_reserved n ps m,
  is_reserved-some (lookup p.node_port m),
  nat_beq_iff p.node_port n,
)
