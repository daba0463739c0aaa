-- ===== src/Agent/Policy/Partition.antt =====
-- What a partition holds, said without the loop: of each endpoint of each entry, whether the policy
-- selects it.
use sexton.Common.{
  ◌≡◌, refl, sym, ap, ◌∙◌, Bool, true, false, not, ◌&&◌, ◌||◌, List, [], ◌∷◌, any, keep, arith,
  Bool-cases, inl, inr, or_assoc,
}
use mathlib.Core.Path.{fun_ext}
use sexton.Common.Sort.{any-sort, IsSorted, sort-IsSorted, IsStrict}
use sexton.Common.Text.{
  Text, has_prefix, elem, less, less_trans, less_irrefl, less-total, same, same_iff,
}
use sexton.Git.Status.{StatusEntry, Status, is_tracked}
use sexton.Agent.Policy.{
  Policy, policy_all, policy_regions, policy_none, Sorting, put, endpoints, mark_regions, is_inside,
  marked_by, visit_path, visit_paths, visit_entries, start, partition_status,
}

elem-put : (t u : Text) (ts : List Text) → elem t (put u ts) ≡ (same u t || elem t ts)
unfolding elem any
elem-put t u ts = elim (Bool-cases (elem u ts)) [
  | inl e ↦ elim (Bool-cases (same u t)) [
    | inl k ↦ rw e (rw k (rw ((same_iff u t).0 k) at e))
    | inr k ↦ rw e (rw k)
  ]
  | inr e ↦ rw e
]

elem-cons : (t r : Text) (rs : List Text) → elem t (r ∷ rs) ≡ (same r t || elem t rs)
unfolding elem any
elem-cons t r rs = refl

-- A text that is a region has the prefixes that the region has.
same-has_prefix :
    (path r t : Text) → (same r t && has_prefix path t) ≡ (same r t && has_prefix path r)
same-has_prefix path r t = elim (Bool-cases (same r t)) [
  | inl e ↦ rw ((same_iff r t).0 e)
  | inr e ↦ rw e
]

elem-mark_regions :
    (t path : Text) (rs marked : List Text)
    → elem t (mark_regions path rs marked) ≡ (elem t marked || (elem t rs && has_prefix path t))
unfolding mark_regions
elem-mark_regions t path [] marked = unfold elem any in ground arith
elem-mark_regions t path (r ∷ rs) marked = elim (Bool-cases (has_prefix path r)) [
  | inl e ↦ rw e (
      elem-mark_regions t path rs (put r marked)
      ∙ ground (arith, elem-put t r marked, elem-cons t r rs, same-has_prefix path r t))
  | inr e ↦ rw e (
      elem-mark_regions t path rs marked
      ∙ ground (arith, elem-cons t r rs, same-has_prefix path r t))
]

-- Whether a path marks a region.
pub marks : Policy → List Text → Text → Text → Bool
marks policy_all regions t path = false
marks policy_regions regions t path = elem t regions && has_prefix path t
marks policy_none regions t path = false

elem-marked_by :
    (policy : Policy) (regions : List Text) (t path : Text) (marked : List Text)
    → elem t (marked_by policy regions path marked) ≡ (elem t marked || marks policy regions t path)
unfolding marked_by marks
elem-marked_by policy_all regions t path marked = ground arith
elem-marked_by policy_regions regions t path marked = elem-mark_regions t path regions marked
elem-marked_by policy_none regions t path marked = ground arith

less-IsStrict : IsStrict less
less-IsStrict = (less-asymm, less-negative)
  where
    less-asymm : (s t : Text) → less s t ≡ true → less t s ≡ false
    less-asymm s t h = elim (Bool-cases (less t s)) [
      | inl e ↦ absurd (cc (less_trans s t s h e, less_irrefl s))
      | inr e ↦ e
    ]

    less-negative : (s t u : Text) → less t s ≡ false → less u t ≡ false → less u s ≡ false
    less-negative s t u h k = elim (Bool-cases (less u s)) [
      | inr e ↦ e
      | inl e ↦ elim (Bool-cases (same u t)) [
        | inl eq ↦ absurd (cc (rw ((same_iff u t).0 eq) at e))
        | inr ne ↦ absurd (cc (less_trans t u s (less-total u t k ne) e))
      ]
    ]

any-false {ℓ} :
    {A : Type ℓ} (p : A → Bool) (xs : List A) → ((x : A) → p x ≡ false) → any p xs ≡ false
unfolding any
any-false p [] h = refl
any-false p (x ∷ xs) h = rw (h x) (any-false p xs h)

module _ (policy : Policy) (regions : List Text) where
  abbrev pub outside : Text → Bool
  outside path = not (is_inside policy regions path)

  selected-visit_paths :
      (tracked : Bool) (s : Sorting) (ps : List Text)
      → (visit_paths policy regions tracked s ps).selected
        ≡ (s.selected || any (is_inside policy regions) ps)
  unfolding visit_paths visit_path any
  selected-visit_paths tracked s [] = ground arith
  selected-visit_paths tracked s (p ∷ ps) =
      selected-visit_paths tracked (visit_path policy regions tracked s p) ps ∙ ground arith

  tracked-visit_paths :
      (tracked : Bool) (s : Sorting) (ps : List Text)
      → (visit_paths policy regions tracked s ps).tracked_unselected
        ≡ (s.tracked_unselected || (tracked && any outside ps))
  unfolding visit_paths visit_path any
  tracked-visit_paths tracked s [] = ground arith
  tracked-visit_paths tracked s (p ∷ ps) =
      tracked-visit_paths tracked (visit_path policy regions tracked s p) ps ∙ ground arith

  unselected-visit_paths :
      (tracked : Bool) (t : Text) (s : Sorting) (ps : List Text)
      → elem t (visit_paths policy regions tracked s ps).unselected
        ≡ (elem t s.unselected || any (λ p. outside p && same p t) ps)
  unfolding visit_paths visit_path any
  unselected-visit_paths tracked t s [] = ground arith
  unselected-visit_paths tracked t s (p ∷ ps) =
      unselected-visit_paths tracked t (visit_path policy regions tracked s p) ps
      ∙ ground (arith, elem-put t p s.unselected)

  regions-visit_paths :
      (tracked : Bool) (t : Text) (s : Sorting) (ps : List Text)
      → elem t (visit_paths policy regions tracked s ps).selected_regions
        ≡ (elem t s.selected_regions || any (marks policy regions t) ps)
  unfolding visit_paths visit_path any
  regions-visit_paths tracked t s [] = ground arith
  regions-visit_paths tracked t s (p ∷ ps) =
      regions-visit_paths tracked t (visit_path policy regions tracked s p) ps
      ∙ ground (arith, elem-marked_by policy regions t p s.selected_regions)

  -- Whether some endpoint of some entry passes a test.
  abbrev pub some_endpoint : (Text → Bool) → List StatusEntry → Bool
  some_endpoint p es = any (λ e. any p (endpoints e)) es

  selected-visit_entries :
      (s : Sorting) (es : List StatusEntry)
      → (visit_entries policy regions s es).selected
        ≡ (s.selected || some_endpoint (is_inside policy regions) es)
  unfolding visit_entries any
  selected-visit_entries s [] = ground arith
  selected-visit_entries s (e ∷ es) =
      selected-visit_entries (visit_paths policy regions (is_tracked e) s (endpoints e)) es
      ∙ ap (λ b. b || some_endpoint (is_inside policy regions) es)
          (selected-visit_paths (is_tracked e) s (endpoints e))
      ∙ sym (or_assoc s.selected _ _)

  tracked-visit_entries :
      (s : Sorting) (es : List StatusEntry)
      → (visit_entries policy regions s es).tracked_unselected
        ≡ (s.tracked_unselected || any (λ e. is_tracked e && any outside (endpoints e)) es)
  unfolding visit_entries any
  tracked-visit_entries s [] = ground arith
  tracked-visit_entries s (e ∷ es) =
      tracked-visit_entries (visit_paths policy regions (is_tracked e) s (endpoints e)) es
      ∙ ap (λ b. b || any (λ d. is_tracked d && any outside (endpoints d)) es)
          (tracked-visit_paths (is_tracked e) s (endpoints e))
      ∙ sym (or_assoc s.tracked_unselected _ _)

  unselected-visit_entries :
      (t : Text) (s : Sorting) (es : List StatusEntry)
      → elem t (visit_entries policy regions s es).unselected
        ≡ (elem t s.unselected || some_endpoint (λ p. outside p && same p t) es)
  unfolding visit_entries any
  unselected-visit_entries t s [] = ground arith
  unselected-visit_entries t s (e ∷ es) =
      unselected-visit_entries t (visit_paths policy regions (is_tracked e) s (endpoints e)) es
      ∙ ap (λ b. b || some_endpoint (λ p. outside p && same p t) es)
          (unselected-visit_paths (is_tracked e) t s (endpoints e))
      ∙ sym (or_assoc (elem t s.unselected) _ _)

  regions-visit_entries :
      (t : Text) (s : Sorting) (es : List StatusEntry)
      → elem t (visit_entries policy regions s es).selected_regions
        ≡ (elem t s.selected_regions || some_endpoint (marks policy regions t) es)
  unfolding visit_entries any
  regions-visit_entries t s [] = ground arith
  regions-visit_entries t s (e ∷ es) =
      regions-visit_entries t (visit_paths policy regions (is_tracked e) s (endpoints e)) es
      ∙ ap (λ b. b || some_endpoint (marks policy regions t) es)
          (regions-visit_paths (is_tracked e) t s (endpoints e))
      ∙ sym (or_assoc (elem t s.selected_regions) _ _)

  pub partition_status-flags :
      (status : Status)
      → ((partition_status policy regions status).has_selected_changes
          ≡ some_endpoint (is_inside policy regions) status.entries)
        × ((partition_status policy regions status).has_tracked_unselected
            ≡ any (λ e. is_tracked e && any outside (endpoints e)) status.entries)
  unfolding partition_status
  partition_status-flags status =
      (selected-visit_entries start status.entries, tracked-visit_entries start status.entries)

  -- A path is listed as unselected exactly if it is an endpoint that the policy does not select.
  elem-unselected_paths :
      (t : Text) (status : Status)
      → elem t (partition_status policy regions status).unselected_paths
        ≡ some_endpoint (λ p. outside p && same p t) status.entries
  unfolding partition_status elem any
  elem-unselected_paths t status =
      any-sort less (λ u. same u t) _ ∙ unselected-visit_entries t start status.entries

  -- The unselected paths stand in the order of their bytes.
  unselected_paths-IsSorted :
      (status : Status) → IsSorted less (partition_status policy regions status).unselected_paths
  unfolding partition_status
  unselected_paths-IsSorted status = sort-IsSorted less less-IsStrict _

  -- The regions are those configured regions, in their order, that hold an endpoint of an entry; a
  -- policy other than `regions` has none.
  pub partition_status-regions :
      (status : Status)
      → (partition_status policy regions status).regions
        ≡ keep (λ r. some_endpoint (marks policy regions r) status.entries) regions
  unfolding partition_status elem any
  partition_status-regions status =
      ap (λ p. keep p regions) (fun_ext (λ r. regions-visit_entries r start status.entries))

  some_endpoint-false :
      (p : Text → Bool) (es : List StatusEntry)
      → ((t : Text) → p t ≡ false)
      → some_endpoint p es ≡ false
  some_endpoint-false p es h =
      any-false (λ e. any p (endpoints e)) es (λ e. any-false p (endpoints e) h)

-- The policy `none` selects nothing, whatever changed and whatever regions are configured.
pub policy_none-selects_nothing :
    (regions : List Text) (status : Status)
    → (partition_status policy_none regions status).has_selected_changes ≡ false
policy_none-selects_nothing regions status =
    (partition_status-flags policy_none regions status).0
    ∙ some_endpoint-false policy_none regions (λ p. false) status.entries (λ t. refl)

-- A status that has no entries has no selected changes.
no_entries-selects_nothing :
    (policy : Policy) (regions : List Text) (status : Status)
    → status.entries ≡ []
    → (partition_status policy regions status).has_selected_changes ≡ false
no_entries-selects_nothing policy regions status e =
    (partition_status-flags policy regions status).0 ∙ rw e (unfold any in refl)
