-- ===== src/ControlPlane/Sets/Steps.antt =====
-- internal/controlplane/store/memory_sets.go: the writes of the stored sets as one kind of step.
use strategon.Prelude.{String, Bool, inl, inr, Option, none, some, List, [], ◌∷◌}
use strategon.ControlPlane.SetSpec.{SetSpec, SetStatus}
use strategon.ControlPlane.Sets.{
  Clusters, SetRequest, Stored, apply_assignment_set, update_set_status, mark_set_deleting,
  delete_set,
}

pub data SetWrite : Type 0 where
  put_spec : Option String → SetRequest → SetWrite
  put_status : String → SetStatus → SetWrite
  mark_deleting remove : String → SetWrite

abbrev kept_or {ℓ} : {A : Type ℓ} → A → Option A → A
kept_or old none = old
kept_or old (some new) = new

abbrev pub stored_or : Clusters → Stored → Clusters
stored_or old (inl e) = old
stored_or old (inr (changed, new)) = new

-- A write that ends with an error leaves the store as it is.
unfoldable pub write_one :
    (SetSpec → SetSpec → Bool) → (List String → List String) → SetWrite → Clusters → Clusters
write_one equal sort (put_spec uid req) m = stored_or m (apply_assignment_set equal sort uid req m)
write_one equal sort (put_status name status) m = kept_or m (update_set_status name status m)
write_one equal sort (mark_deleting name) m = kept_or m (mark_set_deleting name m)
write_one equal sort (remove name) m = kept_or m (delete_set name m)

unfoldable pub write_each :
    (SetSpec → SetSpec → Bool) → (List String → List String) → List SetWrite → Clusters → Clusters
write_each equal sort [] m = m
write_each equal sort (write ∷ rest) m = write_each equal sort rest (write_one equal sort write m)
