-- ===== src/Controller/Resources/Selectors.antt =====
-- A Plant's selector picks out its own pods (internal/controller/resources.go: LabelsFor, SelectorFor).
use k8s_buddy.Common.{◌≡◌, true, some, arith, ◌↔◌, eq_iff}
use k8s_buddy.Common.Dict.{string_eq, lookup}
use k8s_buddy.Plant.{Plant}
use k8s_buddy.Controller.Merge.{merge_labels}
use k8s_buddy.Controller.Merge.Labels.{IsMap, lookup-merge_labels}
use k8s_buddy.Controller.Mutate.Settled.{labels_for-IsMap}
use k8s_buddy.Controller.Resources.{
  label_instance, label_plant, LabelMap, labels_for, selector_for, matches,
}

lookup-label_instance :
    (q : Plant) (existing : LabelMap)
    → IsMap existing
    → lookup label_instance (merge_labels existing (labels_for q)) ≡ some q.name
unfolding labels_for
lookup-label_instance q existing u =
    lookup-merge_labels label_instance existing (labels_for q) u (labels_for-IsMap q)

lookup-label_plant :
    (q : Plant) (existing : LabelMap)
    → IsMap existing
    → lookup label_plant (merge_labels existing (labels_for q)) ≡ some q.name
unfolding labels_for
lookup-label_plant q existing u =
    lookup-merge_labels label_plant existing (labels_for q) u (labels_for-IsMap q)

-- Whatever other labels a pod template was given, the selector of a Plant matches it, once merged with
-- the labels of a Plant, exactly if the two Plants have one name.
pub matches-merge_labels :
    (p q : Plant) (existing : LabelMap)
    → IsMap existing
    → (matches (selector_for p) (merge_labels existing (labels_for q)) ≡ true) ↔ (p.name ≡ q.name)
unfolding matches selector_for
matches-merge_labels p q existing u =
    let a = lookup-label_instance q existing u in
    let b = lookup-label_plant q existing u in
    (
      (λ h. ground (arith, a, b, eq_iff q.name p.name)),
      (λ h. ground (arith, a, b, eq_iff q.name p.name)),
    )
