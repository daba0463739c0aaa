-- ===== src/Agent/Controller/Lookup.antt =====
-- Which agent an identifier finds, in a container whose identifiers have been validated.
use sexton.Common.{
  ◌≡◌, refl, sym, ap, true, false, ◌&&◌, List, [], ◌∷◌, ◌++◌, keep, Bool-cases, inl, inr,
  if◌then◌else◌, is_some, arith,
}
use sexton.Common.Result.{ok, ◌>>=◌, bind-ok}
use sexton.Common.Text.{Text, same, same_iff, same_refl}
use sexton.Config.Repo.{ResolvedRepo}
use sexton.Agent.Controller.{
  match_single, has_path, resolve_agent, find, put_path, put_name, validate_from,
  validate_repo_identifiers,
}

abbrev pub Known : Text → List (Text × Text) → Type 0
Known key m = is_some (find key m) ≡ true

pub Known-cons : (key k v : Text) (m : List (Text × Text)) → Known key m → Known key ((k, v) ∷ m)
unfolding find
Known-cons key k v m h = ground arith

pub Known-head : (key v : Text) (m : List (Text × Text)) → Known key ((key, v) ∷ m)
unfolding find
Known-head key v m = rw (same_refl key) refl

put_path_by :
    (a : ResolvedRepo) (paths paths' : List (Text × Text))
    → put_path a paths ≡ ok paths'
    → (is_some (find a.path paths) ≡ false) × (paths' ≡ (a.path, a.name) ∷ paths)
unfolding put_path
put_path_by a paths paths' h = ground arith

put_name_by :
    (a : ResolvedRepo) (names names' : List (Text × Text))
    → put_name a names ≡ ok names'
    → ((a.explicit_name && is_some (find a.name names)) ≡ false)
      × (names' ≡ (if a.explicit_name then (a.name, a.path) ∷ names else names))
unfolding put_name
put_name_by a names names' h = ground arith

-- What one round of the validation leaves.
pub record Round (paths names : List (Text × Text)) (a : ResolvedRepo) (rest : List ResolvedRepo)
    : Type 0 where
  pub new_path : is_some (find a.path paths) ≡ false
  pub new_name : (a.explicit_name && is_some (find a.name names)) ≡ false
  pub valid :
      validate_from
        ((a.path, a.name) ∷ paths)
        (if a.explicit_name then (a.name, a.path) ∷ names else names)
        rest
      ≡ ok tt

pub round :
    (paths names : List (Text × Text)) (a : ResolvedRepo) (rest : List ResolvedRepo)
    → validate_from paths names (a ∷ rest) ≡ ok tt
    → Round paths names a rest
unfolding validate_from
round paths names a rest h =
    let (paths', e, h') =
      bind-ok (put_path a paths)
        (λ paths'. put_name a names >>= λ names'. validate_from paths' names' rest) tt h in
    let (names', e', h'') =
      bind-ok (put_name a names) (λ names'. validate_from paths' names' rest) tt h' in
    let p = put_path_by a paths paths' e in
    let n = put_name_by a names names' e' in
    record { new_path = p.0; new_name = n.0; valid = rw (sym p.1, sym n.1) h'' }

-- A path that is known already is no later agent's.
no_path :
    (p : Text) (paths names : List (Text × Text)) (bs : List ResolvedRepo)
    → validate_from paths names bs ≡ ok tt
    → Known p paths
    → keep (has_path p) bs ≡ []
unfolding keep
no_path p paths names [] h k = refl
no_path p paths names (b ∷ bs) h k = elim (Bool-cases (same b.path p)) [
  | inl e ↦
      let r = round paths names b bs h in
      let eq = (same_iff b.path p).0 e in
      absurd (cc (r.new_path, ap (λ q. is_some (find q paths)) eq))
  | inr e ↦
      let r = round paths names b bs h in
      rw e (no_path p ((b.path, b.name) ∷ paths) _ bs r.valid (Known-cons p b.path b.name paths k))
]

one_path :
    (a : ResolvedRepo) (paths names : List (Text × Text)) (xs ys : List ResolvedRepo)
    → validate_from paths names (xs ++ a ∷ ys) ≡ ok tt
    → keep (has_path a.path) (xs ++ a ∷ ys) ≡ a ∷ []
unfolding keep
one_path a paths names [] ys h =
    let r = round paths names a ys h in
    let none_later =
      no_path a.path ((a.path, a.name) ∷ paths) _ ys r.valid (Known-head a.path a.name paths) in
    rw (same_refl a.path) (ap (λ t. a ∷ t) none_later)
one_path a paths names (x ∷ xs) ys h = elim (Bool-cases (same x.path a.path)) [
  | inl e ↦
      let r = round paths names x (xs ++ a ∷ ys) h in
      let eq = (same_iff x.path a.path).0 e in
      let later =
        no_path x.path ((x.path, x.name) ∷ paths) _ (xs ++ a ∷ ys) r.valid
          (Known-head x.path x.name paths) in
      let found = one_path a ((x.path, x.name) ∷ paths) _ xs ys r.valid in
      absurd (cc (later, found, ap (λ q. keep (has_path q) (xs ++ a ∷ ys)) eq))
  | inr e ↦
      let r = round paths names x (xs ++ a ∷ ys) h in
      rw e (one_path a ((x.path, x.name) ∷ paths) _ xs ys r.valid)
]

-- In a container whose identifiers are valid, the path of each agent finds that agent, whatever names
-- and paths the others have.
pub resolve_agent-path :
    (a : ResolvedRepo) (xs ys : List ResolvedRepo)
    → validate_repo_identifiers (xs ++ a ∷ ys) ≡ ok tt
    → resolve_agent a.path (xs ++ a ∷ ys) ≡ ok a
unfolding validate_repo_identifiers resolve_agent match_single
resolve_agent-path a xs ys h = rw (one_path a [] [] xs ys h) refl
