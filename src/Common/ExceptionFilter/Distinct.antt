-- ===== src/Common/ExceptionFilter/Distinct.antt =====
-- The issues of the branches of a union, without repetitions.
use async_long_request_proxy.Prelude.{
  String, ◌≡◌, refl, ap, ◌∙◌, not, List, [], ◌∷◌, ◌++◌, ◌==◌, any, Bool-cases, inl, inr,
  if◌then◌else◌,
}
use async_long_request_proxy.Common.ExceptionFilter.{
  Branches, branches_end, branch, Branch, branch_end, also, issue_key, keep_new, keep_new_all,
  drop_empty, deduplicate,
}

-- The keys of the issues, branch after branch.
unfoldable pub keys_of_branch : Branch → List String
keys_of_branch branch_end = []
keys_of_branch (also i b) = issue_key i ∷ keys_of_branch b

unfoldable pub keys_of : Branches → List String
keys_of branches_end = []
keys_of (branch b bs) = keys_of_branch b ++ keys_of bs

-- The first occurrences of the texts that do not stand in `seen`.
unfoldable pub distinct : List String → List String → List String
distinct seen [] = []
distinct seen (k ∷ ks) =
    let again = distinct seen ks in
    let rest = distinct (k ∷ seen) ks in if any (λ j. k == j) seen then again else k ∷ rest

seen_after : List String → List String → List String
seen_after seen [] = seen
seen_after seen (k ∷ ks) = seen_after (if not (any (λ j. k == j) seen) then k ∷ seen else seen) ks

keep_new-distinct :
    (seen : List String) (b : Branch)
    → (keys_of_branch (keep_new seen b).0 ≡ distinct seen (keys_of_branch b))
      × ((keep_new seen b).1 ≡ seen_after seen (keys_of_branch b))
unfolding keys_of_branch keep_new distinct seen_after
keep_new-distinct seen branch_end = (refl, refl)
keep_new-distinct seen (also i b) = elim (Bool-cases (any (λ k. issue_key i == k) seen)) [
  | inl e ↦ rw (seen_after, e) (keep_new-distinct seen b)
  | inr e ↦
      let (keys, after) = keep_new-distinct (issue_key i ∷ seen) b in
      rw (seen_after, e) (ap (λ ks. issue_key i ∷ ks) keys, after)
]

distinct-append :
    (seen xs ys : List String)
    → distinct seen (xs ++ ys) ≡ distinct seen xs ++ distinct (seen_after seen xs) ys
unfolding distinct seen_after
distinct-append seen [] ys = refl
distinct-append seen (k ∷ xs) ys = elim (Bool-cases (any (λ j. k == j) seen)) [
  | inl e ↦ rw e (distinct-append seen xs ys)
  | inr e ↦ rw e (ap (λ ks. k ∷ ks) (distinct-append (k ∷ seen) xs ys))
]

keep_new_all-distinct :
    (seen : List String) (bs : Branches)
    → keys_of (keep_new_all seen bs) ≡ distinct seen (keys_of bs)
unfolding keys_of keep_new_all
keep_new_all-distinct seen branches_end = unfold distinct in refl
keep_new_all-distinct seen (branch b bs) =
    let (keys, after) = keep_new-distinct seen b in
    rw (distinct-append, keys, after)
      (ap (λ ks. distinct seen (keys_of_branch b) ++ ks)
        (keep_new_all-distinct (seen_after seen (keys_of_branch b)) bs))

drop_empty-keys : (bs : Branches) → keys_of (drop_empty bs) ≡ keys_of bs
unfolding keys_of keys_of_branch drop_empty
drop_empty-keys branches_end = refl
drop_empty-keys (branch branch_end bs) = drop_empty-keys bs
drop_empty-keys (branch (also i b) bs) =
    ap (λ ks. issue_key i ∷ (keys_of_branch b ++ ks)) (drop_empty-keys bs)

abbrev pub NoneEmpty : Branches → Type 0
NoneEmpty branches_end = Unit
NoneEmpty (branch branch_end bs) = ⊥
NoneEmpty (branch (also i b) bs) = NoneEmpty bs

drop_empty-NoneEmpty : (bs : Branches) → NoneEmpty (drop_empty bs)
unfolding drop_empty
drop_empty-NoneEmpty branches_end = tt
drop_empty-NoneEmpty (branch branch_end bs) = drop_empty-NoneEmpty bs
drop_empty-NoneEmpty (branch (also i b) bs) = drop_empty-NoneEmpty bs

-- Across all branches of a union each field, code and message is reported once, at its first
-- occurrence, in order, and no branch is left empty.
pub deduplicate-distinct :
    (bs : Branches)
    → (keys_of (deduplicate bs) ≡ distinct [] (keys_of bs)) × NoneEmpty (deduplicate bs)
unfolding deduplicate
deduplicate-distinct bs = (
  drop_empty-keys (keep_new_all [] bs) ∙ keep_new_all-distinct [] bs,
  drop_empty-NoneEmpty (keep_new_all [] bs),
)
