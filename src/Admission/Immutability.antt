-- ===== src/Admission/Immutability.antt =====
-- What the webhook of machines.go lets through, and what it changes.
use mathlib.Core.Path.{subst}
use machine_controller.Base.{
  ◌==◌, if◌then◌else◌, StringMap, drop_key, lookup, find-put, find-drop_key, String, ◌≡◌, refl, sym,
  ap, ◌∙◌, ◌≢◌, ◌⊎◌, true, none, some, List, arith, eq_iff,
}
use machine_controller.Outcome.{Outcome, ok, err, panicked, pure, lift, ◌>>=◌, ◌>>◌, wrap}
use machine_controller.Outcome.Inversion.{>>=-eq-ok, >>-eq-ok, wrap-eq-ok}
use machine_controller.Kube.{Machine}
use machine_controller.Admission.Machines.{
  bypass_annotation, type_revision_annotation, type_revision_current, is_update, Request, Question,
  WebhookSources, without_bypass, with_revision, with_name, mutated, old_spec, has_pending,
  bypasses, check_immutable, validate_created, mutate_machines,
}

pub lift-eq-ok :
    {A : Type 0} (o : Outcome A) (s : List Question) (a : A) → (lift o s).0 ≡ ok a → o ≡ ok a
unfolding ◌>>=◌
lift-eq-ok o s a h = h

pub pure-eq-ok :
    {A : Type 0} (x : A) (s : List Question) (a : A) → (pure x s).0 ≡ ok a → ok x ≡ ok a
unfolding ◌>>=◌
pure-eq-ok x s a h = h

pub ok-pair-eq :
    {A B : Type 0} {a c : A} {b d : B}
    → ◌≡◌ {A = Outcome (A × B)} (ok (a, b)) (ok (c, d))
    → (a ≡ c) × (b ≡ d)
ok-pair-eq h = (cc, cc)

-- A revision that is there is kept.
abbrev pub kept_revision : StringMap → String
kept_revision a = elim (lookup type_revision_annotation a) [
  | none ↦ type_revision_current
  | some v ↦ v
]

revision-lookup :
    (a : StringMap)
    → lookup type_revision_annotation (with_revision (without_bypass a)) ≡ some (kept_revision a)
revision-lookup none = refl
revision-lookup (some a) = ground (
  arith,
  find-drop_key bypass_annotation type_revision_annotation a,
  find-put type_revision_annotation type_revision_annotation type_revision_current
      (drop_key bypass_annotation a),
)

bypass-lookup : (a : StringMap) → lookup bypass_annotation (with_revision (without_bypass a)) ≡ none
bypass-lookup none = refl
bypass-lookup (some a) = ground (
  arith,
  find-drop_key bypass_annotation bypass_annotation a,
  find-put type_revision_annotation bypass_annotation type_revision_current
      (drop_key bypass_annotation a),
)

other-lookup :
    (a : StringMap) (k : String)
    → k ≢ bypass_annotation
    → k ≢ type_revision_annotation
    → lookup k (with_revision (without_bypass a)) ≡ lookup k a
other-lookup none k other_bypass other_revision = ground (arith, eq_iff type_revision_annotation k)
other-lookup (some a) k other_bypass other_revision = ground (
  arith,
  eq_iff type_revision_annotation k,
  eq_iff bypass_annotation k,
  find-drop_key bypass_annotation k a,
  find-put type_revision_annotation k type_revision_current (drop_key bypass_annotation a),
)

-- The old machine has a pending initializer, the new one has the bypass annotation, or the specs
-- are equal, apart from a name that the controller sets.
abbrev pub IsUnchanged : WebhookSources → Request → Machine → Type 0
IsUnchanged r request original =
    (old : Machine) × (r.decode_machine request.old_raw ≡ ok old)
    × ((has_pending old ≡ true)
        ⊎ (bypasses original ≡ true)
        ⊎ (r.equal_specs original.spec (old_spec old original) ≡ true))

check_immutable-IsUnchanged :
    (r : WebhookSources) (request : Request) (original : Machine) (s : List Question)
    → (check_immutable r request original s).0 ≡ ok tt
    → is_update request.operation ≡ true
    → IsUnchanged r request original
unfolding check_immutable ◌>>=◌ wrap
check_immutable-IsUnchanged r request original s passes updates =
    go (r.decode_machine request.old_raw) refl
  where
    go :
        (o : Outcome Machine)
        → r.decode_machine request.old_raw ≡ o
        → IsUnchanged r request original
    go (ok old) e = (old, e, ground (arith, e, updates, passes))
    go (err x) e = absurd (ground (arith, e, updates, passes))
    go panicked e = absurd (ground (arith, e, updates, passes))

-- The machine that came passed all tests.
abbrev pub Passes : WebhookSources → Request → Machine → Type 0
Passes r request original =
    (r.decode_machine request.raw ≡ ok original)
    × (s : List Question) × ((check_immutable r request original s).0 ≡ ok tt)
    × (s' : List Question) × ((validate_created r request original s').0 ≡ ok tt)

module _ (r : WebhookSources) (request : Request) (s : List Question) (original m : Machine)
    (accepted : (mutate_machines r request s).0 ≡ ok (original, m)) where
  pub accepted_parts : (m ≡ mutated original) × Passes r request original
  unfolding mutate_machines
  accepted_parts =
      let (o, decoded, rest) =
        >>=-eq-ok (wrap "failed to unmarshal" (lift (r.decode_machine request.raw)))
          (λ o.
            check_immutable r request o >> (validate_created r request o >> pure (o, mutated o)))
          s (original, m) accepted in
      let (checked, rest) =
        >>-eq-ok (check_immutable r request o) (validate_created r request o >> pure (o, mutated o))
          _ (original, m) rest in
      let (created, rest) =
        >>-eq-ok (validate_created r request o) (pure (o, mutated o)) _ (original, m) rest in
      let (same, changed) = ok-pair-eq (pure-eq-ok _ _ _ rest) in
      let read =
        lift-eq-ok _ s o
          (wrap-eq-ok "failed to unmarshal" (lift (r.decode_machine request.raw)) s o decoded) in
      (sym changed ∙ ap mutated same, subst (Passes r request) same (read, _, checked, _, created))

  -- An update of a machine that the webhook lets through leaves the spec equal, apart from a name
  -- that the controller sets, or the old machine has a pending initializer, or the new one has the
  -- bypass annotation with the value "true".
  pub mutate_machines-immutable :
      is_update request.operation ≡ true → IsUnchanged r request original
  mutate_machines-immutable updates =
      let (_, passed) = accepted_parts in
      let (_, s', checked, _, _) = passed in
      check_immutable-IsUnchanged r request original s' checked updates

  -- A machine that the webhook lets through is the one that came in every field but two: an empty
  -- name in the spec is replaced by that of the machine, with the rest of the spec as it came, so
  -- that defaults of the provider are not in it; and of the annotations the one for the bypass is
  -- gone, the type revision is the one that came or else the current one, and all others are as
  -- they came.
  pub mutate_machines-changes :
      (r.decode_machine request.raw ≡ ok original)
      × (m ≡ record original {
        annotations = m.annotations;
        spec =
            if original.spec.name == ""
            then with_name original.name original.spec
            else original.spec;
      })
      × (lookup bypass_annotation m.annotations ≡ none)
      × (lookup type_revision_annotation m.annotations ≡ some (kept_revision original.annotations))
      × ((k : String)
          → k ≢ bypass_annotation
          → k ≢ type_revision_annotation
          → lookup k m.annotations ≡ lookup k original.annotations)
  mutate_machines-changes =
      let (changed, passed) = accepted_parts in
      rw changed (
        passed.0,
        refl,
        bypass-lookup original.annotations,
        revision-lookup original.annotations,
        other-lookup original.annotations,
      )
