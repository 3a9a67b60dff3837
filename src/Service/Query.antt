-- ===== src/Service/Query.antt =====
-- RefreshStatus, Delete, ListAll, Stats and the readers of internal/stack/service.go.
pub mod Totals
use container_provisioner_k.Base.{
  ℕ, suc, String, Bool, true, false, ◌||◌, Option, none, some, List, [], ◌∷◌, ◌++◌, if◌then◌else◌,
  string_eq, ◌+◌,
}
use container_provisioner_k.Base.Int.{ℤ, pos, add64}
use container_provisioner_k.Base.Dict.{Dict, lookup, insert}
use container_provisioner_k.Errors.{Error, Result, ok, err, sentinel, is_error, not_found}
use container_provisioner_k.Op.{Op, pure, raise, attempt, ◌>>=◌, ◌>>◌}
use container_provisioner_k.Models.{Status, Stack, Stats, StackStatusSummary}
use container_provisioner_k.Service.{Service}
use container_provisioner_k.Service.Provision.{value_or_nil}

module _ {W Q : Type 0} (s : Service W Q) where
  -- The branches of RefreshStatus that give a stack up: errors are only logged.
  unfoldable pub give_up : Stack → Op W (Unit {0})
  give_up st = do
    attempt (s.k8s.delete_pod_and_service st.namespace st.pod_id st.service_name)
    attempt (s.repo.delete st.stack_id)
    raise (sentinel not_found)

  -- What RefreshStatus does with the answer of GetPodStatus.
  unfoldable pub refresh_from : Stack → Result (Status × String) → Op W (Unit {0})
  refresh_from st (err e) =
      if is_error not_found e
      then (do attempt (s.repo.delete st.stack_id); raise (sentinel not_found))
      else raise e
  refresh_from st (ok (Status.node_deleted, node_id)) = give_up st
  refresh_from st (ok (status, node_id)) = do
    attempt (s.repo.update_status st.stack_id status node_id)
    pure tt

  unfoldable pub refresh_stack : Stack → Op W (Unit {0})
  refresh_stack st = do
    node_exists ← s.k8s.node_exists st.node_id
    if node_exists
        then (do
          answer ← attempt (s.k8s.get_pod_status st.namespace st.pod_id)
          refresh_from st answer)
        else give_up st

  -- `st, ok, err := s.repo.Get(...)` with the two checks that follow it.
  unfoldable pub get_or_not_found : String → Op W Stack
  get_or_not_found stack_id = do
    found ← s.repo.get stack_id
    elim found [ none ↦ raise (sentinel not_found) | some st ↦ pure st ]

  unfoldable pub refresh_status : String → Op W (Unit {0})
  unfolding get_or_not_found refresh_stack
  refresh_status stack_id = do st ← get_or_not_found stack_id; refresh_stack st

  unfoldable pub node_public_ip : String → Op W (Option String)
  node_public_ip node_id = do
    ip ← attempt (s.k8s.get_node_public_ip node_id)
    pure (value_or_nil s ip)

  unfoldable pub attach_node_public_ip : Stack → Op W Stack
  unfolding node_public_ip
  attach_node_public_ip st = do
    ip ← node_public_ip st.node_id
    pure (record st { node_public_ip = ip })

  unfoldable pub get_details : String → Op W Stack
  unfolding refresh_status get_or_not_found attach_node_public_ip
  get_details stack_id = do
    refresh_status stack_id
    st ← get_or_not_found stack_id
    attach_node_public_ip st

  unfoldable pub get_status_summary : String → Op W StackStatusSummary
  unfolding refresh_status get_or_not_found node_public_ip
  get_status_summary stack_id = do
    refresh_status stack_id
    st ← get_or_not_found stack_id
    ip ← node_public_ip st.node_id
    pure (record {
      stack_id = st.stack_id;
      status = st.status;
      ttl = st.ttl_expires_at;
      target_ports = st.target_ports;
      ports = st.ports;
      node_public_ip = ip;
    })

  unfoldable pub get_status : String → Op W Status
  unfolding get_status_summary
  get_status stack_id = do summary ← get_status_summary stack_id; pure summary.status

  unfoldable pub delete : String → Op W (Unit {0})
  unfolding get_or_not_found
  delete stack_id = do
    st ← get_or_not_found stack_id
    attempt (s.k8s.delete_pod_and_service st.namespace st.pod_id st.service_name)
    s.repo.delete stack_id
    pure tt

  -- The loop of ListAll over the items of the repository, with the stacks refreshed so far.
  unfoldable pub refresh_items : List Stack → List Stack → Op W (List Stack)
  unfolding refresh_status attach_node_public_ip
  refresh_items refreshed [] = pure refreshed
  refresh_items refreshed (item ∷ items) = do
    r ← attempt (refresh_status item.stack_id)
    elim r [
      | err e ↦ elim (is_error not_found e) [
        | true ↦ refresh_items refreshed items
        | false ↦ raise e
      ]
      | ok _ ↦ (do
        found ← s.repo.get item.stack_id
        elim found [
          | none ↦ refresh_items refreshed items
          | some st ↦ (do
            st' ← attach_node_public_ip st
            refresh_items (refreshed ++ st' ∷ []) items)
        ])
    ]

  unfoldable pub list_all : Op W (List Stack)
  unfolding refresh_items
  list_all = do items ← s.repo.list_all; refresh_items [] items

-- `m[key]++` on a map from strings to counts
unfoldable pub count_node : String → Dict String ℕ → Dict String ℕ
count_node key m = insert key (suc (elim (lookup key m) [ none ↦ 0 | some n ↦ n ])) m

abbrev pub is_active : Status → Bool
is_active Status.running = true
is_active Status.creating = true
is_active _ = false

-- One round of the loop of Stats.
abbrev pub add_stack : Stats → Stack → Stats
add_stack stats st = record stats {
  total_stacks = suc stats.total_stacks;
  active_stacks = if is_active st.status then suc stats.active_stacks else stats.active_stacks;
  node_distribution = count_node st.node_id stats.node_distribution;
  reserved_cpu_milli = add64 stats.reserved_cpu_milli st.requested_milli;
  reserved_memory_bytes = add64 stats.reserved_memory_bytes st.requested_bytes;
}

unfoldable pub add_stacks : Stats → List Stack → Stats
add_stacks stats [] = stats
add_stacks stats (st ∷ sts) = add_stacks (add_stack stats st) sts

abbrev pub empty_stats : ℕ → Stats
empty_stats used_ports = record {
  total_stacks = 0;
  active_stacks = 0;
  node_distribution = [];
  used_node_ports = used_ports;
  reserved_cpu_milli = pos 0;
  reserved_memory_bytes = pos 0;
}

module _ {W Q : Type 0} (s : Service W Q) where
  unfoldable pub stats : Op W Stats
  unfolding list_all add_stacks
  stats = do
    items ← list_all s
    used_ports ← s.repo.used_node_port_count
    pure (add_stacks (empty_stats used_ports) items)
