-- ===== src/ControlPlane/Config/Written.antt =====
-- What the orchestrator writes for a member, with the templates filled in.
use strategon.Prelude.{ℕ, ◌≡◌, subst, inl, inr, false, String, some, arith, Map, Sum-cases}
use strategon.Proto.{ArtifactRef, StrategyAssignmentSpec}
use strategon.ControlPlane.SetSpec.{SetMember, MemberTemplate, AssignmentSet, member_at}
use strategon.ControlPlane.Rollout.{Deps, Item, Expanded}
use strategon.ControlPlane.Candidates.{compute_assignment}
use strategon.ControlPlane.Expand.{
  Printing, expand, expand_args, expand_template, expand_set, render_peers, member_values,
}
use strategon.ControlPlane.Expand.Args.{Pairwise, expand_args-each}
use strategon.ControlPlane.Config.{with_templates}

module _ (print : Printing) where
  expand_template-args :
      (tmpl : MemberTemplate) (vals : Map String) (out : Expanded)
      → expand_template print tmpl vals ≡ inr out
      → expand_args print vals tmpl.args ≡ inr out.args
  unfolding expand_template
  expand_template-args tmpl vals out h = elim (Sum-cases (expand_args print vals tmpl.args)) [
    | inl (e, bad) ↦ absurd (ground (arith, bad, h))
    | inr (texts, good) ↦ ground (arith, good, h)
  ]

  as_template :
      (cl : AssignmentSet) (idx : ℕ) (self : SetMember) (peers : String) (out : Expanded)
      → member_at idx cl.spec.members ≡ some self
      → render_peers print cl.spec.template.peers idx cl.spec.members ≡ inr peers
      → expand_set print cl idx ≡ inr out
      → expand_template print cl.spec.template (member_values cl.name self peers) ≡ inr out
  unfolding expand_set
  as_template cl idx self peers out at rendered h = ground (arith, at, rendered, h)

  -- Where the assignment of the item at some index is computed, the member is the one that stands at
  -- that index in the set's spec, with its peers rendered: the assignment is running, its strategy is
  -- that member's name, and its arguments are those of the template, each expanded in its place over
  -- that same member's values.
  pub compute_assignment-args :
      (deps : Deps) (cl : AssignmentSet) (item : Item) (art : ArtifactRef) (self : SetMember)
      (peers : String) (spec : StrategyAssignmentSpec)
      → member_at item.idx cl.spec.members ≡ some self
      → render_peers print cl.spec.template.peers item.idx cl.spec.members ≡ inr peers
      → compute_assignment (with_templates print deps) cl item art ≡ inr spec
      → (spec.strategy ≡ self.name)
        × ((spec.stopped ≡ false)
            × Pairwise
                (λ a b. expand print (member_values cl.name self peers) "args" a ≡ inr b)
                cl.spec.template.args
                spec.args)
  unfolding compute_assignment
  compute_assignment-args deps cl item art self peers spec at rendered h =
      elim (Sum-cases (expand_set print cl item.idx)) [
        | inl (e, bad) ↦ absurd (ground (arith, bad, h))
        | inr (out, good) ↦
            let same : out.args ≡ spec.args = ground (arith, good, h, at) in
            (
              ground (arith, good, h, at),
              (
                ground (arith, good, h, at),
                subst
                    (λ xs.
                      Pairwise
                        (λ a b. expand print (member_values cl.name self peers) "args" a ≡ inr b)
                        cl.spec.template.args xs)
                    same
                    (expand_args-each print (member_values cl.name self peers) cl.spec.template.args
                      out.args
                      (expand_template-args cl.spec.template (member_values cl.name self peers) out
                        (as_template cl item.idx self peers out at rendered good))),
              ),
            )
      ]
