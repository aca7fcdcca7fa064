-- ===== src/Providers/Packet/Tags.antt =====
-- pkg/cloudprovider/provider/packet/provider.go: tags, and lists of names.
use Prim.Native.Char.{code}
use machine_controller.Base.{
  String, ◌≡◌, refl, ap, sym, ◌∙◌, Bool, true, false, not, Bool-cases, inl, inr, ◌||◌, is_some,
  List, [], ◌∷◌, ◌++◌, nat_eq, ◌==◌, keep, keep_all, keep_ext, find, put, find-put, Pairs, arith,
  eq_iff,
}
use machine_controller.Outcome.{new_error, err}
use machine_controller.Kube.Sets.{has}
use machine_controller.Providers.Packet.{
  machine_uid_tag, generate_tag, split, tag_uid_of, get_tag_uid, list_map, items_not_in_list,
  migrated_tags,
}

abbrev has_colon : String → Bool
has_colon String.[] = false
has_colon (String.◌∷◌ c s) = nat_eq (code c) 58 || has_colon s

split-has_colon : (s : String) → has_colon (split s).0 ≡ false
unfolding split
split-has_colon String.[] = refl
split-has_colon (String.◌∷◌ c s) = elim (Bool-cases (nat_eq (code c) 58)) [
  | inl e ↦ rw e refl
  | inr e ↦ rw e (ground (arith, e, split-has_colon s))
]

uid_tag_colon : has_colon machine_uid_tag ≡ true
uid_tag_colon = refl

never_equal : (first : String) → has_colon first ≡ false → (first == machine_uid_tag) ≡ false
never_equal first h = elim (Bool-cases (first == machine_uid_tag)) [
  | inl e ↦
      absurd
        (ground (arith, sym h ∙ ap has_colon ((eq_iff first machine_uid_tag).0 e) ∙ uid_tag_colon))
  | inr e ↦ e
]

never_uid :
    (parts : String × List String)
    → has_colon parts.0 ≡ false
    → tag_uid_of parts ≡ err (new_error "not a machine UID tag")
never_uid (first, []) h = refl
never_uid (first, uid ∷ _) h = rw (never_equal first h) refl

-- No tag is ever taken for a UID tag: the part before the first colon is compared with a text that
-- has a colon itself.
pub get_tag_uid-never : (tag : String) → get_tag_uid tag ≡ err (new_error "not a machine UID tag")
unfolding get_tag_uid
get_tag_uid-never tag = never_uid (split tag) (split-has_colon tag)

-- A migration takes no tag away, also not the one with the old UID, and adds the one with the new
-- UID at the end.
pub migrated_tags-keeps :
    (new : String) (tags : List String) → migrated_tags new tags ≡ tags ++ (generate_tag new ∷ [])
unfolding migrated_tags
migrated_tags-keeps new tags =
    ap (λ kept. kept ++ (generate_tag new ∷ []))
      (keep_all _ tags (λ tag. rw (get_tag_uid-never tag) refl))

find-list_map :
    (item : String) (list : List String) (m : Pairs)
    → is_some (find item (list_map list m)) ≡ (has item list || is_some (find item m))
unfolding list_map
find-list_map item [] m = refl
find-list_map item (x ∷ xs) m =
    ground (arith, find-list_map item xs (put x "true" m), find-put x item "true" m, eq_iff x item)

-- The map is the set of the list's items, so what is missing are the items that are not in the list.
pub items_not_in_list-keep :
    (list items : List String)
    → items_not_in_list list items ≡ keep (λ item. not (has item list)) items
unfolding items_not_in_list
items_not_in_list-keep list items =
    keep_ext _ _ items (λ item. ap not (find-list_map item list [] ∙ ground arith))
