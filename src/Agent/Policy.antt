-- ===== src/Agent/Policy.antt =====
-- `partitionStatus` of internal/agent/agent.go: which paths of a status the commit policy selects. A
-- Go map that is used as a set is the list of its keys.
pub mod Partition
use sexton.Common.{
  ℕ, Bool, true, false, not, ◌&&◌, ◌||◌, Option, none, some, List, [], ◌∷◌, ◌++◌, if◌then◌else◌,
  any, keep,
}
use sexton.Common.Sort.{sort}
use sexton.Common.Text.{Text, has_prefix, elem, less}
use sexton.Git.Status.{StatusEntry, Status, is_tracked, has_old_path}

-- The three policies of internal/config/model.go; the configuration refuses any other.
pub data Policy : Type 0 where
  policy_all policy_regions policy_none : Policy

pub record PolicyPartition : Type 0 where
  pub has_selected_changes : Bool
  pub regions : List Text
  pub unselected_paths : List Text
  pub has_tracked_unselected : Bool

-- The variables of the loop: `selectedRegions` and `unselectedPaths` are its two maps.
pub record Sorting : Type 0 where
  pub selected : Bool
  pub selected_regions : List Text
  pub unselected : List Text
  pub tracked_unselected : Bool

abbrev pub put : Text → List Text → List Text
put t ts = if elem t ts then ts else t ∷ ts

-- The endpoints of an entry: its path, and the path that it was renamed from.
abbrev pub endpoints : StatusEntry → List Text
endpoints e = if has_old_path e then e.path ∷ e.old_path ∷ [] else e.path ∷ []

-- `selectedRegions[region] = true` for each region that holds the path.
mark_regions : Text → List Text → List Text → List Text
mark_regions path [] marked = marked
mark_regions path (r ∷ rs) marked =
    mark_regions path rs (if has_prefix path r then put r marked else marked)

abbrev pub start : Sorting
start = record {
  selected = false;
  selected_regions = [];
  unselected = [];
  tracked_unselected = false;
}

module _ (policy : Policy) (regions : List Text) where
  abbrev pub is_inside : Text → Bool
  is_inside path = elim policy [
    | policy_all ↦ true
    | policy_regions ↦ any (has_prefix path) regions
    | policy_none ↦ false
  ]

  marked_by : Text → List Text → List Text
  marked_by path marked = elim policy [
    | policy_regions ↦ mark_regions path regions marked
    | _ ↦ marked
  ]

  -- One round of the inner loop, for an endpoint of an entry that is tracked or not.
  visit_path : Bool → Sorting → Text → Sorting
  unfolding marked_by
  visit_path tracked s path =
      let marked = marked_by path s.selected_regions in
      if is_inside path then record s { selected = true; selected_regions = marked } else record s {
        selected_regions = marked;
        unselected = put path s.unselected;
        tracked_unselected = tracked || s.tracked_unselected;
      }

  visit_paths : Bool → Sorting → List Text → Sorting
  visit_paths tracked s [] = s
  visit_paths tracked s (p ∷ ps) = visit_paths tracked (visit_path tracked s p) ps

  visit_entries : Sorting → List StatusEntry → Sorting
  visit_entries s [] = s
  visit_entries s (e ∷ es) = visit_entries (visit_paths (is_tracked e) s (endpoints e)) es

  -- `partitionStatus`.
  unfoldable pub partition_status : Status → PolicyPartition
  unfolding visit_entries visit_paths visit_path mark_regions
  partition_status status =
      let s = visit_entries start status.entries in
      record {
        has_selected_changes = s.selected;
        regions = keep (λ r. elem r s.selected_regions) regions;
        unselected_paths = sort less s.unselected;
        has_tracked_unselected = s.tracked_unselected;
      }
