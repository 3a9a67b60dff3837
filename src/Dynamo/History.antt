-- ===== src/Dynamo/History.antt =====
-- The calls of the repository of internal/stack/dynamodb.go in the order in which they take effect.
use container_provisioner_k.Base.{ℕ, String, Option, List, [], ◌∷◌, some, ◌≡◌, ◌⊎◌, inl, inr, refl}
use container_provisioner_k.Models.{Status, Stack, BatchDeleteJob}
use container_provisioner_k.Dynamo
use container_provisioner_k.Dynamo.{DynamoRepository}
use container_provisioner_k.Dynamo.Keys.{port_sk}
use container_provisioner_k.Dynamo.Ports
use container_provisioner_k.Dynamo.Pages
use container_provisioner_k.Dynamo.Table.{DynamoTable, owner, ClientLaws, ExpressionLaws}
use container_provisioner_k.Dynamo.Owned.{IsOwned}
use container_provisioner_k.Dynamo.Owners
use container_provisioner_k.Dynamo.Locks
use container_provisioner_k.Dynamo.Reads

-- Every call but Delete.
pub data Call : Type 0 where
  create_call : Stack → Call
  get_call : String → Call
  list_call used_count_call : Call
  reserve_call : ℕ → ℕ → Call
  release_call : ℕ → Call
  update_status_call : String → Status → String → Call
  create_job_call update_job_call : BatchDeleteJob → Call
  get_job_call : String → Call

module _ {W : Type 0} (r : DynamoRepository W) where
  -- The world after a call, whatever the call returns.
  unfoldable pub after_call : Call → W → W
  after_call (create_call st) w = (Dynamo.create r st w).1
  after_call (get_call id) w = (Dynamo.get r id w).1
  after_call list_call w = (Pages.list_all r w).1
  after_call used_count_call w = (Pages.used_node_port_count r w).1
  after_call (reserve_call min max) w = (Ports.reserve_node_port r min max w).1
  after_call (release_call port) w = (Ports.release_node_port r port w).1
  after_call (update_status_call id status node) w = (Ports.update_status r id status node w).1
  after_call (create_job_call job) w = (Dynamo.create_batch_delete_job r job w).1
  after_call (update_job_call job) w = (Dynamo.update_batch_delete_job r job w).1
  after_call (get_job_call id) w = (Dynamo.get_batch_delete_job r id w).1

  unfoldable pub after_calls : List Call → W → W
  unfolding after_call
  after_calls [] w = w
  after_calls (call ∷ calls) w = after_calls calls (after_call call w)

-- Every call but Create.
abbrev pub IsQuiet : Call → Type 0
IsQuiet (create_call st) = ⊥
IsQuiet _ = Unit

pub Call-cases : (call : Call) → ((st : Stack) × (call ≡ create_call st)) ⊎ IsQuiet call
Call-cases (create_call st) = inl (st, refl)
Call-cases (get_call id) = inr tt
Call-cases list_call = inr tt
Call-cases used_count_call = inr tt
Call-cases (reserve_call min max) = inr tt
Call-cases (release_call port) = inr tt
Call-cases (update_status_call id status node) = inr tt
Call-cases (create_job_call job) = inr tt
Call-cases (update_job_call job) = inr tt
Call-cases (get_job_call id) = inr tt

module _ {W : Type 0} (r : DynamoRepository W) (t : DynamoTable W) (laws : ClientLaws r t)
    (meaning : ExpressionLaws t) (sk : String) where
  -- A quiet call leaves the owner of a port as it is, be it a stack or none.
  pub quiet-IsOwned :
      (s : Option String) (call : Call)
      → IsQuiet call
      → (w : W) → IsOwned t sk s w
      → IsOwned t sk s (after_call r call w)
  unfolding after_call
  quiet-IsOwned s (create_call st) q = absurd q
  quiet-IsOwned s (get_call id) q = (Owners.get-Keeps r t laws meaning sk s id).after
  quiet-IsOwned s list_call q = (Reads.list_all-Keeps r t laws sk s).after
  quiet-IsOwned s used_count_call q = (Reads.used_count-Keeps r t laws sk s).after
  quiet-IsOwned s (reserve_call min max) q =
      (Locks.reserve-Keeps r t laws meaning sk s min max).after
  quiet-IsOwned s (release_call port) q = (Owners.release-Keeps r t laws meaning sk s port).after
  quiet-IsOwned s (update_status_call id status node) q =
      (Owners.update_status-Keeps r t laws meaning sk s id status node).after
  quiet-IsOwned s (create_job_call job) q =
      (Owners.create_job-Keeps r t laws meaning sk s job).after
  quiet-IsOwned s (update_job_call job) q =
      (Owners.update_job-Keeps r t laws meaning sk s job).after
  quiet-IsOwned s (get_job_call id) q = (Owners.get_job-Keeps r t laws meaning sk s id).after

  pub after_call-IsOwned :
      (s : String) (call : Call) (w : W)
      → IsOwned t sk (some s) w
      → IsOwned t sk (some s) (after_call r call w)
  unfolding after_call
  after_call-IsOwned s call w owned = elim (Call-cases call) [
    | inl (st, e) ↦ rw e ((Owners.create-Keeps r t laws meaning sk s st).after w owned)
    | inr quiet ↦ quiet-IsOwned (some s) call quiet w owned
  ]

  after_calls-IsOwned :
      (s : String) (calls : List Call) (w : W)
      → IsOwned t sk (some s) w
      → IsOwned t sk (some s) (after_calls r calls w)
  unfolding after_calls
  after_calls-IsOwned s [] w owned = owned
  after_calls-IsOwned s (call ∷ calls) w owned =
      after_calls-IsOwned s calls (after_call r call w) (after_call-IsOwned s call w owned)

-- A node port that belongs to a stack in DynamoDB still belongs to it after any sequence of calls of
-- the repository other than Delete, whether they succeed or fail.
pub after_calls-owner :
    {W : Type 0} (r : DynamoRepository W) (t : DynamoTable W)
    → ClientLaws r t
    → ExpressionLaws t
    → (port : ℕ) (stack_id : String) (calls : List Call) (w : W)
    → owner (t.rows w "PORTS" (port_sk port)) ≡ some stack_id
    → owner (t.rows (after_calls r calls w) "PORTS" (port_sk port)) ≡ some stack_id
after_calls-owner r t laws meaning port stack_id calls w owned =
    after_calls-IsOwned r t laws meaning (port_sk port) stack_id calls w owned
