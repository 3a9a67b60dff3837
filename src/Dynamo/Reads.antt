-- ===== src/Dynamo/Reads.antt =====
-- ListAll and UsedNodePortCount of internal/stack/dynamodb.go leave the row of an owned node port alone.
use mathlib.Core.List.{◌++◌ as append}
use container_provisioner_k.Base.{
  Option, ℕ, zero, suc, ◌+◌, String, List, string_eq, nat_eq, inl, inr, Bool-cases,
}
use container_provisioner_k.Errors.{ok}
use container_provisioner_k.Op.{Op, ◌>>=◌, lift}
use container_provisioner_k.Models.{Stack}
use container_provisioner_k.Service.Upholds.{Keeps, bind-Keeps, finish-Keeps}
use container_provisioner_k.Dynamo.{DynamoRepository}
use container_provisioner_k.Dynamo.Items.{Item, no_entry, is_empty}
use container_provisioner_k.Dynamo.Pages
use container_provisioner_k.Repository.{sort_by_creation}
use container_provisioner_k.Dynamo.Table.{DynamoTable, ClientLaws}
use container_provisioner_k.Dynamo.Owned.{IsOwned, same-Keeps}

module _ {W : Type 0} (r : DynamoRepository W) (t : DynamoTable W) (laws : ClientLaws r t)
    (sk : String) (s : Option String) where
  more_stacks-Keeps :
      (more : Op W (List Stack)) (key : Item) (out : List Stack)
      → Keeps (IsOwned t sk s) more
      → Keeps (IsOwned t sk s) (Pages.more_stacks r more key out)
  unfolding Pages.more_stacks
  more_stacks-Keeps more key out kept = elim (Bool-cases (is_empty key)) [
    | inl e ↦ rw e (record { after = λ w owned. owned })
    | inr e ↦ rw e (finish-Keeps kept (λ rest. ok (append out rest)))
  ]

  collect-Keeps : (left : ℕ) (key : Item) → Keeps (IsOwned t sk s) (Pages.collect r left key)
  unfolding Pages.collect
  collect-Keeps zero key = record { after = λ w owned. owned }
  collect-Keeps (suc left) key =
      bind-Keeps
        {f = λ page. lift (Pages.read_page r.times page.items) >>= λ out.
          Pages.more_stacks r (Pages.collect r left page.last_evaluated_key) page.last_evaluated_key
            out}
        (same-Keeps t sk s (r.client.query (Pages.all_query r key))
          (laws.query (Pages.all_query r key)))
        (λ page.
          bind-Keeps {m = lift (Pages.read_page r.times page.items)}
            {f = λ out.
              Pages.more_stacks r (Pages.collect r left page.last_evaluated_key)
                page.last_evaluated_key out}
            (record { after = λ w owned. owned })
            (λ out.
              more_stacks-Keeps (Pages.collect r left page.last_evaluated_key)
                page.last_evaluated_key out (collect-Keeps left page.last_evaluated_key)))

  pub list_all-Keeps : Keeps (IsOwned t sk s) (Pages.list_all r)
  unfolding Pages.list_all
  list_all-Keeps = finish-Keeps (collect-Keeps r.rounds no_entry) (λ out. ok (sort_by_creation out))

  more_count-Keeps :
      (more : Op W ℕ) (key : Item) (total : ℕ)
      → Keeps (IsOwned t sk s) more
      → Keeps (IsOwned t sk s) (Pages.more_count r more key total)
  unfolding Pages.more_count
  more_count-Keeps more key total kept = elim (Bool-cases (is_empty key)) [
    | inl e ↦ rw e (record { after = λ w owned. owned })
    | inr e ↦ rw e kept
  ]

  count_pages-Keeps :
      (left total : ℕ) (key : Item) → Keeps (IsOwned t sk s) (Pages.count_pages r left total key)
  unfolding Pages.count_pages
  count_pages-Keeps zero total key = record { after = λ w owned. owned }
  count_pages-Keeps (suc left) total key =
      bind-Keeps
        {f = λ page.
          Pages.more_count r (Pages.count_pages r left (total + page.count) page.last_evaluated_key)
            page.last_evaluated_key (total + page.count)}
        (same-Keeps t sk s (r.client.query (Pages.port_query r key))
          (laws.query (Pages.port_query r key)))
        (λ page.
          more_count-Keeps (Pages.count_pages r left (total + page.count) page.last_evaluated_key)
            page.last_evaluated_key (total + page.count)
            (count_pages-Keeps left (total + page.count) page.last_evaluated_key))

  pub used_count-Keeps : Keeps (IsOwned t sk s) (Pages.used_node_port_count r)
  unfolding Pages.used_node_port_count
  used_count-Keeps = count_pages-Keeps r.rounds 0 no_entry
