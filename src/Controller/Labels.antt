-- ===== src/Controller/Labels.antt =====
-- ensureNodeLabelsAnnotationsAndTaints of machine.go: what the node has afterwards, and that a
-- second reconciliation finds nothing to do.
use machine_controller.Base.{
  String, ◌≡◌, refl, Bool, true, false, not, ◌&&◌, ◌||◌, Option, none, some, List, [], ◌∷◌, ◌++◌,
  any, all, is_some, Pairs, StringMap, find, put, lookup, find-put, if◌then◌else◌, arith, eq_iff,
  eq_refl, Option-cases, inl, inr,
}
use machine_controller.Outcome.{ok, on_option, pure}
use machine_controller.Kube.{Taint, Machine, Node}
use machine_controller.Kube.Calls.{Call}
use machine_controller.Kube.Cluster.{Cluster, IsLawful}
use machine_controller.Controller.Nodes.{
  add_missing, add_missing_taints, labelled_node, ensure_node_labels_annotations_and_taints,
}

abbrev pub or_else : Option String → Option String → Option String
or_else none o = o
or_else (some v) o = some v

-- The loop over the labels, on a map that is not nil.
abbrev pub merge : Pairs → Pairs → Pairs
merge [] m = m
merge ((j, v) ∷ wanted) m = merge wanted (if is_some (find j m) then m else put j v m)

abbrev is_present : Pairs → Pairs → Bool
is_present [] m = true
is_present ((j, v) ∷ wanted) m = is_some (find j m) && is_present wanted m

add_missing-merge :
    (wanted m : Pairs)
    → add_missing wanted (some m) ≡ some (some (merge wanted m), not (is_present wanted m))
unfolding add_missing
add_missing-merge [] m = refl
add_missing-merge ((j, v) ∷ wanted) m =
    ground (arith, add_missing-merge wanted m, add_missing-merge wanted (put j v m))

find-merge :
    (k : String) (wanted m : Pairs) → find k (merge wanted m) ≡ or_else (find k m) (find k wanted)
find-merge k [] m = ground arith
find-merge k ((j, v) ∷ wanted) m =
    ground
      (arith, find-merge k wanted m, find-merge k wanted (put j v m), find-put j k v m, eq_iff j k)

is_present-intro :
    (wanted m : Pairs)
    → ((k : String) → is_some (find k wanted) ≡ true → is_some (find k m) ≡ true)
    → is_present wanted m ≡ true
is_present-intro [] m h = refl
is_present-intro ((j, v) ∷ wanted) m h =
    ground (arith, h j, eq_refl j, is_present-intro wanted m (λ k found. h k (ground arith)))

is_present-merge : (wanted m : Pairs) → is_present wanted (merge wanted m) ≡ true
is_present-merge wanted m =
    is_present-intro wanted (merge wanted m) (λ k found. ground (arith, find-merge k wanted m))

merge-is_present : (wanted m : Pairs) → is_present wanted m ≡ true → merge wanted m ≡ m
merge-is_present [] m h = refl
merge-is_present ((j, v) ∷ wanted) m h = ground (arith, merge-is_present wanted m)

-- Whether the map is nil or not: what it holds afterwards.
add_missing-lookup :
    (wanted : Pairs) (m m' : StringMap) (b : Bool) (k : String)
    → add_missing wanted m ≡ some (m', b)
    → lookup k m' ≡ or_else (lookup k m) (find k wanted)
add_missing-lookup wanted (some m) m' b k e =
    ground (arith, e, add_missing-merge wanted m, find-merge k wanted m)
add_missing-lookup [] none m' b k e = unfold add_missing in ground (arith, e)
add_missing-lookup ((j, v) ∷ wanted) none m' b k e = unfold add_missing in ground (arith, e)

-- A second run over the same labels changes nothing.
add_missing-fixed :
    (wanted : Pairs) (m m' : StringMap) (b : Bool)
    → add_missing wanted m ≡ some (m', b)
    → add_missing wanted m' ≡ some (m', false)
add_missing-fixed wanted (some m) m' b e = ground (
  arith,
  e,
  add_missing-merge wanted m,
  add_missing-merge wanted (merge wanted m),
  is_present-merge wanted m,
  merge-is_present wanted (merge wanted m),
)
add_missing-fixed [] none m' b e = unfold add_missing in ground (arith, e)
add_missing-fixed ((j, v) ∷ wanted) none m' b e = unfold add_missing in ground (arith, e)

any-append {ℓ} :
    {A : Type ℓ} (p : A → Bool) (xs ys : List A) → any p (xs ++ ys) ≡ (any p xs || any p ys)
any-append p [] ys = refl
any-append p (x ∷ xs) ys = ground (arith, any-append p xs ys)

module _ {c : Cluster} (l : IsLawful c) where
  abbrev pub has_taint : List Taint → Taint → Bool
  has_taint taints t = any (λ u. c.match_taint u t) taints

  has_taint-keep :
      (wanted taints : List Taint) (t : Taint)
      → has_taint taints t ≡ true
      → has_taint (add_missing_taints c wanted taints).0 t ≡ true
  unfolding add_missing_taints
  has_taint-keep [] taints t h = h
  has_taint-keep (w ∷ wanted) taints t h = ground (
    arith,
    has_taint-keep wanted taints t h,
    has_taint-keep wanted (taints ++ w ∷ []) t,
    any-append (λ u. c.match_taint u t) taints (w ∷ []),
  )

  has_taint-added :
      (wanted taints : List Taint)
      → all (has_taint (add_missing_taints c wanted taints).0) wanted ≡ true
  unfolding add_missing_taints
  has_taint-added [] taints = refl
  has_taint-added (w ∷ wanted) taints = ground (
    arith,
    has_taint-added wanted taints,
    has_taint-added wanted (taints ++ w ∷ []),
    has_taint-keep wanted taints w,
    has_taint-keep wanted (taints ++ w ∷ []) w,
    any-append (λ u. c.match_taint u w) taints (w ∷ []),
    l.match_taint_refl w,
  )

  add_missing_taints-all :
      (wanted taints : List Taint)
      → all (has_taint taints) wanted ≡ true
      → add_missing_taints c wanted taints ≡ (taints, false)
  unfolding add_missing_taints
  add_missing_taints-all [] taints h = refl
  add_missing_taints-all (w ∷ wanted) taints h =
      ground (arith, add_missing_taints-all wanted taints)

  -- the results of the three loops
  record IsLabelled (node node' : Node) (m : Machine) (b : Bool) : Type 0 where
    labels_updated : Bool
    annotations_updated : Bool
    labels : add_missing m.spec.labels node.labels ≡ some (node'.labels, labels_updated)
    annotations :
        add_missing m.spec.annotations node.annotations
        ≡ some (node'.annotations, annotations_updated)
    taints : node'.taints ≡ (add_missing_taints c m.spec.taints node.taints).0
    name : node'.name ≡ node.name
    provider_id : node'.provider_id ≡ node.provider_id
    unschedulable : node'.unschedulable ≡ node.unschedulable

  labelled_node-IsLabelled :
      (node node' : Node) (m : Machine) (b : Bool)
      → labelled_node c node m ≡ some (node', b)
      → IsLabelled node node' m b
  unfolding labelled_node
  labelled_node-IsLabelled node node' m b e =
      elim (Option-cases (add_missing m.spec.labels node.labels)) [
        | inl none_yet ↦ absurd (ground arith)
        | inr ((labels, lb), labelled) ↦
            elim (Option-cases (add_missing m.spec.annotations node.annotations)) [
              | inl none_yet ↦ absurd (ground arith)
              | inr ((annots, ab), annotated) ↦ record {
                labels_updated = lb;
                annotations_updated = ab;
                labels = ground arith;
                annotations = ground arith;
                taints = ground arith;
                name = ground arith;
                provider_id = ground arith;
                unschedulable = ground arith;
              }
            ]
      ]

  -- A node that has been given the labels, annotations and taints of its machine needs nothing
  -- more: the next reconciliation finds no difference and makes no call.
  pub ensure_node_labels-converges :
      (node node' : Node) (m : Machine) (b : Bool) (s : List Call)
      → labelled_node c node m ≡ some (node', b)
      → ensure_node_labels_annotations_and_taints c node' m s ≡ (ok tt, s)
  unfolding ensure_node_labels_annotations_and_taints labelled_node on_option pure
  ensure_node_labels-converges node node' m b s e =
      let h = labelled_node-IsLabelled node node' m b e in
      ground (
        arith,
        add_missing-fixed m.spec.labels node.labels node'.labels h.labels_updated h.labels,
        add_missing-fixed m.spec.annotations node.annotations node'.annotations
            h.annotations_updated h.annotations,
        h.taints,
        has_taint-added m.spec.taints node.taints,
        add_missing_taints-all m.spec.taints node'.taints,
      )

  -- What a node has after a reconciliation. A label or annotation that it had keeps its value;
  -- one that it lacked has the value that the machine asks for; each taint that the machine asks
  -- for is matched by one of the node; the fields that tell the node apart are unchanged.
  pub labelled_node-contents :
      (node node' : Node) (m : Machine) (b : Bool) (k : String)
      → labelled_node c node m ≡ some (node', b)
      → (lookup k node'.labels ≡ or_else (lookup k node.labels) (find k m.spec.labels))
        × (lookup k node'.annotations
            ≡ or_else (lookup k node.annotations) (find k m.spec.annotations))
        × (all (has_taint node'.taints) m.spec.taints ≡ true)
        × (node'.name ≡ node.name)
        × (node'.provider_id ≡ node.provider_id)
        × (node'.unschedulable ≡ node.unschedulable)
  labelled_node-contents node node' m b k e =
      let h = labelled_node-IsLabelled node node' m b e in
      (
        add_missing-lookup m.spec.labels node.labels node'.labels h.labels_updated k h.labels,
        add_missing-lookup m.spec.annotations node.annotations node'.annotations
            h.annotations_updated k h.annotations,
        rw (h.taints) (has_taint-added m.spec.taints node.taints),
        h.name,
        h.provider_id,
        h.unschedulable,
      )
