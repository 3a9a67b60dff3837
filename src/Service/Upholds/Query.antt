-- ===== src/Service/Upholds/Query.antt =====
-- Delete, RefreshStatus, ListAll, the readers and the batch jobs keep what their calls keep.
use container_provisioner_k.Base.{
  String, Bool, true, false, Option, List, [], ◌∷◌, ◌++◌ as append, inl, inr, Bool-cases,
  Option-cases, string_eq, nat_eq,
}
use container_provisioner_k.Errors.{Error, Result, ok, err, is_error, not_found, sentinel}
use container_provisioner_k.Op.{Op, pure, raise, attempt, ◌>>=◌, Outcome-cases}
use container_provisioner_k.Models.{Status, Stack, StackStatusSummary}
use container_provisioner_k.Service.{Service}
use container_provisioner_k.Service.Provision.{value_or_nil}
use container_provisioner_k.Service.Upholds.{
  Keeps, bind-Keeps, attempt-Keeps, finish-Keeps, Upholds,
}
use container_provisioner_k.Service.Query.{
  give_up, refresh_from, refresh_stack, get_or_not_found, refresh_status, node_public_ip,
  attach_node_public_ip, get_details, delete, refresh_items, list_all, get_status_summary,
  get_status, stats, add_stacks, empty_stats,
}

module _ {W Q : Type 0} {s : Service W Q} {P : W → Type 0} (u : Upholds s P) where
  give_up-Keeps : (st : Stack) → Keeps P (give_up s st)
  unfolding give_up
  give_up-Keeps st =
      bind-Keeps (attempt-Keeps (u.delete_pod st.namespace st.pod_id st.service_name))
        (λ _. finish-Keeps (attempt-Keeps (u.delete st.stack_id)) (λ _. err (sentinel not_found)))

  get_or_not_found-Keeps : (id : String) → Keeps P (get_or_not_found s id)
  unfolding get_or_not_found
  get_or_not_found-Keeps id = bind-Keeps (u.get id) (λ found. elim (Option-cases found) [
    | inl e ↦ rw e (record { after = λ w h. h })
    | inr (st, e) ↦ rw e (record { after = λ w h. h })
  ])

  update-Keeps :
      (st : Stack) (status : Status) (node : String)
      → Keeps P ((attempt (s.repo.update_status st.stack_id status node)) >>= λ _. pure tt)
  update-Keeps st status node =
      finish-Keeps (attempt-Keeps (u.update_status st.stack_id status node)) (λ _. ok tt)

  refresh_from-Keeps : (st : Stack) (r : Result (Status × String)) → Keeps P (refresh_from s st r)
  unfolding refresh_from
  refresh_from-Keeps st (err e) = elim (Bool-cases (is_error not_found e)) [
    | inl b ↦
        rw b (finish-Keeps (attempt-Keeps (u.delete st.stack_id)) (λ _. err (sentinel not_found)))
    | inr b ↦ rw b (record { after = λ w h. h })
  ]
  refresh_from-Keeps st (ok (Status.node_deleted, node)) = give_up-Keeps st
  refresh_from-Keeps st (ok (Status.creating, node)) = update-Keeps st Status.creating node
  refresh_from-Keeps st (ok (Status.running, node)) = update-Keeps st Status.running node
  refresh_from-Keeps st (ok (Status.stopped, node)) = update-Keeps st Status.stopped node
  refresh_from-Keeps st (ok (Status.failed, node)) = update-Keeps st Status.failed node
  refresh_from-Keeps st (ok (Status.other t, node)) = update-Keeps st (Status.other t) node

  refresh_stack-Keeps : (st : Stack) → Keeps P (refresh_stack s st)
  unfolding refresh_stack
  refresh_stack-Keeps st = bind-Keeps (u.node_exists st.node_id) (λ there. elim (Bool-cases there) [
    | inl b ↦
        rw b
          (bind-Keeps (attempt-Keeps (u.pod_status st.namespace st.pod_id)) (refresh_from-Keeps st))
    | inr b ↦ rw b (give_up-Keeps st)
  ])

  pub refresh_status-Keeps : (id : String) → Keeps P (refresh_status s id)
  unfolding refresh_status
  refresh_status-Keeps id = bind-Keeps (get_or_not_found-Keeps id) refresh_stack-Keeps

  ip-Keeps : (id : String) → Keeps P (node_public_ip s id)
  unfolding node_public_ip
  ip-Keeps id = finish-Keeps (attempt-Keeps (u.public_ip id)) (λ ip. ok (value_or_nil s ip))

  attach-Keeps : (st : Stack) → Keeps P (attach_node_public_ip s st)
  unfolding attach_node_public_ip
  attach-Keeps st =
      finish-Keeps (ip-Keeps st.node_id) (λ ip. ok (record st { node_public_ip = ip }))

  pub get_details-Keeps : (id : String) → Keeps P (get_details s id)
  unfolding get_details
  get_details-Keeps id =
      bind-Keeps (refresh_status-Keeps id)
        (λ _. bind-Keeps (get_or_not_found-Keeps id) attach-Keeps)

  summary : Stack → Option String → StackStatusSummary
  summary st ip = record {
    stack_id = st.stack_id;
    status = st.status;
    ttl = st.ttl_expires_at;
    target_ports = st.target_ports;
    ports = st.ports;
    node_public_ip = ip;
  }

  pub get_status_summary-Keeps : (id : String) → Keeps P (get_status_summary s id)
  unfolding get_status_summary summary
  get_status_summary-Keeps id = bind-Keeps (refresh_status-Keeps id) (λ _.
      bind-Keeps (get_or_not_found-Keeps id)
        (λ st. finish-Keeps (ip-Keeps st.node_id) (λ ip. ok (summary st ip))))

  pub get_status-Keeps : (id : String) → Keeps P (get_status s id)
  unfolding get_status
  get_status-Keeps id = finish-Keeps (get_status_summary-Keeps id) (λ summary. ok summary.status)

  pub delete-Keeps : (id : String) → Keeps P (delete s id)
  unfolding delete
  delete-Keeps id = bind-Keeps (get_or_not_found-Keeps id) (λ st.
      bind-Keeps (attempt-Keeps (u.delete_pod st.namespace st.pod_id st.service_name))
        (λ _. finish-Keeps (u.delete id) (λ _. ok tt)))

  skip-Keeps :
      (b : Bool) (x : Error) {rest : Op W (List Stack)}
      → Keeps P rest
      → Keeps P (elim b as (λ _. Op W (List Stack)) [ true ↦ rest | false ↦ raise x ])
  skip-Keeps true x k = k
  skip-Keeps false x k = record { after = λ w h. h }

  refresh_items-Keeps : (done items : List Stack) → Keeps P (refresh_items s done items)
  unfolding refresh_items
  refresh_items-Keeps done [] = record { after = λ w h. h }
  refresh_items-Keeps done (item ∷ items) = record {
    after = λ w h.
        let k = (refresh_status-Keeps item.stack_id).after w h in
        elim (Outcome-cases (refresh_status s item.stack_id w)) [
          | inr (x, w1, e) ↦ rw e (
              (skip-Keeps (is_error not_found x) x (refresh_items-Keeps done items)).after w1
                (rw e at k))
          | inl (t, w1, e) ↦
              let g = (u.get item.stack_id).after w1 (rw e at k) in
              elim (Outcome-cases (s.repo.get item.stack_id w1)) [
                | inr (x, w2, e') ↦ rw (e, e') (rw e' at g)
                | inl (found, w2, e') ↦ elim (Option-cases found) [
                  | inl p ↦ rw (e, e', p) ((refresh_items-Keeps done items).after w2 (rw e' at g))
                  | inr (st, p) ↦
                      rw (e, e', p)
                        ((bind-Keeps (attach-Keeps st)
                            (λ st'. refresh_items-Keeps (append done (st' ∷ [])) items)).after
                          w2 (rw e' at g))
                ]
              ]
        ];
  }

  pub list_all-Keeps : Keeps P (list_all s)
  unfolding list_all
  list_all-Keeps = bind-Keeps u.list_all (refresh_items-Keeps [])

  pub stats-Keeps : Keeps P (stats s)
  unfolding stats
  stats-Keeps =
      bind-Keeps list_all-Keeps
        (λ items. finish-Keeps u.used_count (λ used. ok (add_stacks (empty_stats used) items)))
