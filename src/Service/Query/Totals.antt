-- ===== src/Service/Query/Totals.antt =====
-- The totals that Stats of internal/stack/service.go adds up.
use container_provisioner_k.Base.{
  ℕ, suc, ◌+◌, String, Option, none, some, List, [], ◌∷◌, ◌≡◌, arith, length, ◌==◌, string_eq,
  if◌then◌else◌,
}
use container_provisioner_k.Base.Dict.{Dict, insert, lookup, lookup-insert}
use container_provisioner_k.Models.{Stack, Stats, Status}
use container_provisioner_k.Service.Query.{count_node, add_stack, add_stacks, empty_stats}

-- The number of stacks on all nodes.
abbrev pub sum_counts : Dict String ℕ → ℕ
sum_counts [] = 0
sum_counts ((node, n) ∷ m) = n + sum_counts m

-- How many stacks are on the node.
abbrev pub count_on : String → List Stack → ℕ
count_on node [] = 0
count_on node (st ∷ sts) = if st.node_id == node then suc (count_on node sts) else count_on node sts

-- How many stacks are being created or run.
abbrev pub count_active : List Stack → ℕ
count_active [] = 0
count_active (st ∷ sts) = elim st.status [
  | Status.creating ↦ suc (count_active sts)
  | Status.running ↦ suc (count_active sts)
  | Status.stopped ↦ count_active sts
  | Status.failed ↦ count_active sts
  | Status.node_deleted ↦ count_active sts
  | Status.other text ↦ count_active sts
]

-- The count that a map gives, 0 where it has none.
abbrev pub or_zero : Option ℕ → ℕ
or_zero none = 0
or_zero (some n) = n

sum_counts-insert :
    (k : String) (v : ℕ) (m : Dict String ℕ)
    → sum_counts (insert k v m) + or_zero (lookup k m) ≡ v + sum_counts m
unfolding insert lookup
sum_counts-insert k v [] = ground arith
sum_counts-insert k v ((j, n) ∷ m) = ground (arith, sum_counts-insert k v m)

sum_counts-count_node :
    (k : String) (m : Dict String ℕ) → sum_counts (count_node k m) ≡ suc (sum_counts m)
unfolding count_node
sum_counts-count_node k m = ground (arith, sum_counts-insert k (suc (or_zero (lookup k m))) m)

add_stacks-sums :
    (stats : Stats) (items : List Stack)
    → ((add_stacks stats items).total_stacks ≡ stats.total_stacks + length items)
      × ((add_stacks stats items).active_stacks ≡ stats.active_stacks + count_active items)
      × (sum_counts (add_stacks stats items).node_distribution
          ≡ sum_counts stats.node_distribution + length items)
unfolding add_stacks
add_stacks-sums stats [] = (omega arith, omega arith, omega arith)
add_stacks-sums stats (st ∷ sts) =
    let (a, b, c) = add_stacks-sums (add_stack stats st) sts in
    (
      omega arith,
      ground (arith, b),
      ground (arith, c, sum_counts-count_node st.node_id stats.node_distribution),
    )

add_stacks-on_node :
    (node : String) (stats : Stats) (items : List Stack)
    → or_zero (lookup node (add_stacks stats items).node_distribution)
      ≡ or_zero (lookup node stats.node_distribution) + count_on node items
unfolding add_stacks count_node
add_stacks-on_node node stats [] = omega arith
add_stacks-on_node node stats (st ∷ sts) = ground (
  arith,
  add_stacks-on_node node (add_stack stats st) sts,
  lookup-insert st.node_id node (suc (or_zero (lookup st.node_id stats.node_distribution)))
      stats.node_distribution,
  string_eq.beq_iff st.node_id node,
)

-- The statistics of the listed stacks: their number, the number of those with status creating or
-- running, for each node the
-- number of stacks on it, and the counts of all nodes add up to the number of stacks.
pub add_stacks-totals :
    (used_ports : ℕ) (items : List Stack)
    → ((add_stacks (empty_stats used_ports) items).total_stacks ≡ length items)
      × ((add_stacks (empty_stats used_ports) items).active_stacks ≡ count_active items)
      × ((node : String)
          → or_zero (lookup node (add_stacks (empty_stats used_ports) items).node_distribution)
            ≡ count_on node items)
      × (sum_counts (add_stacks (empty_stats used_ports) items).node_distribution ≡ length items)
unfolding lookup
add_stacks-totals used_ports items =
    let (a, b, c) = add_stacks-sums (empty_stats used_ports) items in
    (
      ground (arith, a),
      ground (arith, b),
      λ node. ground (arith, add_stacks-on_node node (empty_stats used_ports) items),
      ground (arith, c),
    )
