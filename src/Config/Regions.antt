-- ===== src/Config/Regions.antt =====
-- `resolveCommitRegions` and `normalizeCommitRegion` of internal/config/load.go: the regions of the
-- commit policy, each the path of a directory below the root of the repository, with a slash behind.
use sexton.Common.{
  ℕ, zero, suc, ◌≡◌, refl, sym, ap, ◌∙◌, true, false, ◌||◌, List, [], ◌∷◌, ◌++◌, is_empty,
  if◌then◌else◌, All, arith,
}
use sexton.Common.Result.{Result, ok, err, ◌>>=◌, map_err, map_err-ok, bind-ok, ok_inj}
use mathlib.Core.Path.{subst}
use sexton.Common.Text.{Text, codes, same, join, has_prefix, has_prefix-append}
use sexton.Config.Holdout.{first_layer}
use sexton.Config.Path.{
  is_abs, clean, cleaned, dots, relative_parts, relative_text, IsProper, cleaned-IsProper,
  clean_relative,
}

pub data RegionError : Type 0 where
  empty_region absolute_region whole_repository escaping_region : RegionError

-- The cleaned path of a region.
unfoldable pub checked_region : Text → Result RegionError Text
checked_region path =
    if same path (codes ".")
    then err whole_repository
    else if same path (codes "..") || has_prefix path (codes "../")
    then err escaping_region
    else ok (path ++ codes "/")

-- `normalizeCommitRegion`.
unfoldable pub normalize_commit_region : Text → Result RegionError Text
normalize_commit_region region =
    if is_empty region
    then err empty_region
    else if is_abs region
    then err absolute_region
    else checked_region (clean region)

-- An error, with the entry that it is about.
pub record InvalidRegion : Type 0 where
  pub entry : Text
  pub reason : RegionError

normalize_all : List Text → Result InvalidRegion (List Text)
normalize_all [] = ok []
normalize_all (r ∷ rs) = do
  n ← map_err (λ e. record { entry = r; reason = e }) (normalize_commit_region r)
  ns ← normalize_all rs
  ok (n ∷ ns)

-- `resolveCommitRegions`.
unfoldable pub resolve_commit_regions :
    (local entry defaults : List Text) → Result InvalidRegion (List Text)
unfolding normalize_all
resolve_commit_regions local entry defaults = normalize_all (first_layer local entry defaults)

-- A region: one proper component or more, with a slash behind each.
pub record IsRegion (t : Text) : Type 0 where
  pub first : Text
  pub others : List Text
  pub parts_proper : All IsProper (first ∷ others)
  pub is_path : t ≡ join (first ∷ others) (codes "/") ++ codes "/"

-- The text of a path that starts with "..".
escapes :
    (ps : List Text)
    → (same (relative_text (codes ".." ∷ ps)) (codes "..")
        || has_prefix (relative_text (codes ".." ∷ ps)) (codes "../"))
      ≡ true
unfolding relative_text join same
escapes [] = refl
escapes (p ∷ ps) = has_prefix-append (codes "../") (join (p ∷ ps) (codes "/"))

checked_ok :
    (path t : Text)
    → checked_region path ≡ ok t
    → ((same path (codes "..") || has_prefix path (codes "../")) ≡ false) × (t ≡ path ++ codes "/")
unfolding checked_region
checked_ok path t e = ground arith

IsRegion-of :
    (n : ℕ) (names : List Text) (t : Text)
    → All IsProper names
    → checked_region (relative_text (dots n ++ names)) ≡ ok t
    → IsRegion t
unfolding dots
IsRegion-of zero [] t h e = unfold relative_text checked_region same in cc
IsRegion-of zero (p ∷ ps) t h e = record {
  first = p;
  others = ps;
  parts_proper = h;
  is_path = unfold relative_text in (checked_ok _ t e).1;
}
IsRegion-of (suc n) names t h e = absurd (
    cc (
      escapes (dots n ++ names),
      (checked_ok (relative_text (codes ".." ∷ (dots n ++ names))) t e).0,
    ))

normalized :
    (region t : Text)
    → normalize_commit_region region ≡ ok t
    → (is_abs region ≡ false) × (checked_region (clean region) ≡ ok t)
unfolding normalize_commit_region
normalized region t e = ground arith

-- A region that is accepted names a directory below the root of the repository: it has a component,
-- none of its components is empty, "." or "..", and a slash stands behind each.
pub normalize_commit_region-IsRegion :
    (region t : Text) → normalize_commit_region region ≡ ok t → IsRegion t
unfolding relative_parts
normalize_commit_region-IsRegion region t e =
    let (relative, checked) = normalized region t e in
    let c = cleaned false region in
    IsRegion-of c.ups c.names t (cleaned-IsProper false region)
      (ap checked_region (sym (clean_relative region relative)) ∙ checked)

normalize_all-IsRegion : (rs ts : List Text) → normalize_all rs ≡ ok ts → All IsRegion ts
unfolding normalize_all
normalize_all-IsRegion [] ts e = subst (All IsRegion) (ok_inj e) tt
normalize_all-IsRegion (r ∷ rs) ts e =
    let (n, first, next) =
      bind-ok (map_err (λ e. record { entry = r; reason = e }) (normalize_commit_region r))
        (λ n. normalize_all rs >>= λ ns. ok (n ∷ ns)) ts e in
    let (ns, all, last) = bind-ok (normalize_all rs) (λ ns. ok (n ∷ ns)) ts next in
    subst (All IsRegion) (ok_inj last) (
      normalize_commit_region-IsRegion r n (map_err-ok _ (normalize_commit_region r) n first),
      normalize_all-IsRegion rs ns all,
    )

-- If the regions resolve, each of them is a region.
pub resolve_commit_regions-IsRegion :
    (local entry defaults ts : List Text)
    → resolve_commit_regions local entry defaults ≡ ok ts
    → All IsRegion ts
unfolding resolve_commit_regions
resolve_commit_regions-IsRegion local entry defaults ts e =
    normalize_all-IsRegion (first_layer local entry defaults) ts e
