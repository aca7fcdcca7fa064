-- ===== src/Kube/Sets.antt =====
-- Sets of strings, as `sets.String` of apimachinery is used: built from a slice, tested, changed
-- and listed. `List()` sorts; the sort is the parameter `sorted`, which keeps the members.
-- pkg/kubernetes/helper.go.
use machine_controller.Base.{
  String, ◌≡◌, refl, Bool, false, not, ◌||◌, List, [], ◌∷◌, ◌++◌, any, keep, ◌==◌, if◌then◌else◌,
  arith, eq_iff,
}

abbrev pub has : String → List String → Bool
has k xs = any (λ x. x == k) xs

abbrev pub delete : String → List String → List String
delete k xs = keep (λ x. not (x == k)) xs

abbrev pub insert : String → List String → List String
insert k xs = if has k xs then xs else k ∷ xs

-- `List` gives the members, each as often as in the set's order.
abbrev pub KeepsMembers : (List String → List String) → Type 0
KeepsMembers sorted = (k : String) (xs : List String) → has k (sorted xs) ≡ has k xs

unfoldable pub has_finalizer : List String → String → Bool
has_finalizer finalizers name = has name finalizers

unfoldable pub remove_finalizer : (List String → List String) → List String → String → List String
remove_finalizer sorted finalizers to_remove = sorted (delete to_remove finalizers)

pub has-delete :
    (k j : String) (xs : List String) → has j (delete k xs) ≡ (if k == j then false else has j xs)
has-delete k j [] = ground arith
has-delete k j (x ∷ xs) = ground (arith, has-delete k j xs, eq_iff x k, eq_iff x j, eq_iff k j)

pub has-insert : (k j : String) (xs : List String) → has j (insert k xs) ≡ ((k == j) || has j xs)
has-insert k j xs = ground (arith, eq_iff k j, λ (e : k ≡ j). ap_has k j xs e)
  where
    ap_has : (k j : String) (xs : List String) → k ≡ j → has k xs ≡ has j xs
    ap_has k j xs e i = has (e i) xs

pub has-++ : (k : String) (xs ys : List String) → has k (xs ++ ys) ≡ (has k xs || has k ys)
has-++ k [] ys = refl
has-++ k (x ∷ xs) ys = ground (arith, has-++ k xs ys)
