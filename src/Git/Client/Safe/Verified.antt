-- ===== src/Git/Client/Safe/Verified.antt =====
-- A commit of internal/git/git.go returns only the id of a commit that it has looked at.
use sexton.Common.{
  ◌≡◌, refl, Bool, true, false, Option, none, some, List, [], ◌∷◌, ◌++◌, if◌then◌else◌, is_empty,
}
use sexton.Common.Result.{Result, ok, err}
use sexton.Common.Space.{trim_space}
use sexton.Common.Text.{Text, codes, same, same_iff}
use sexton.Git.Errors.{Fault}
use sexton.Git.Command.{Host, Shell, G, return, throw, run_or}
use sexton.Git.Client.{literal_pathspecs, is_dirty}
use sexton.Git.Client.Summary.{created_id}
use sexton.Git.Client.Commits.{
  commit_args, message_args, or_wrap, check_message, verify, resolve_created, create, create_if,
  commit, commit_only,
}
use sexton.Git.Client.Safe.{proceed}

-- A bind that returns has a first part that returns.
module _ {W A B : Type 0} where
  proceed-ok :
      (r : Result Fault A × Shell W) (k : A → G W B) (b : B) (t : Shell W)
      → proceed r k ≡ (ok b, t)
      → (a : A) × (u : Shell W) × (r ≡ (ok a, u)) × (k a u ≡ (ok b, t))
  proceed-ok (ok a, u) k b t h = (a, u, refl, h)
  proceed-ok (err e, u) k b t h = cc

module _ {W : Type 0} (host : Host W) (ssh : Text) where
  -- The commit of that id has been shown, as the last command, with that message.
  pub record IsVerified (message sha : Text) (t : Shell W) : Type 0 where
    pub before : Shell W
    pub shown : Text
    pub shows : run_or host ssh (message_args sha) before ≡ (ok shown, t)
    pub fits : trim_space shown ≡ trim_space message

  checked :
      (b : Bool) (sha sha' : Text) (f : Fault) (u t : Shell W)
      → ◌≡◌ {A = Result Fault Text × Shell W} ((if b then return sha else throw f) u) (ok sha', t)
      → (b ≡ true) × (sha ≡ sha') × (u ≡ t)
  checked true sha sha' f u t h = (refl, cc, cc)
  checked false sha sha' f u t h = cc

  check_message-IsVerified :
      (message sha shown sha' : Text) (s u t : Shell W)
      → run_or host ssh (message_args sha) s ≡ (ok shown, u)
      → check_message host ssh message sha shown u ≡ (ok sha', t)
      → IsVerified message sha' t
  unfolding check_message
  check_message-IsVerified message sha shown sha' s u t h k =
      let (e, same_sha, same_shell) =
        checked (same (trim_space shown) (trim_space message)) sha sha' _ u t k in
      record {
        before = s;
        shown = shown;
        shows = cc;
        fits = (same_iff (trim_space shown) (trim_space message)).0 e;
      }

  wrapped-ok :
      {A B : Type 0} (text : Text) (k : A → G W B) (r : Result Fault A × Shell W) (b : B)
      (t : Shell W)
      → proceed (or_wrap host ssh {A = A} text r.0 r.1) k ≡ (ok b, t)
      → (a : A) × (u : Shell W) × (r ≡ (ok a, u)) × (k a u ≡ (ok b, t))
  unfolding or_wrap
  wrapped-ok text k (ok a, u) b t h = (a, u, refl, h)
  wrapped-ok text k (err f, u) b t h = cc

  verify-IsVerified :
      (message sha sha' : Text) (s t : Shell W)
      → verify host ssh message sha s ≡ (ok sha', t)
      → IsVerified message sha' t
  unfolding verify
  verify-IsVerified message sha sha' s t h =
      let (shown, u, e, k) =
        wrapped-ok _ (check_message host ssh message sha) (run_or host ssh (message_args sha) s)
          sha' t h in
      check_message-IsVerified message sha shown sha' s u t e k

  resolve_created-IsVerified :
      (message sha : Text) (id : Option Text) (s t : Shell W)
      → resolve_created host ssh message id s ≡ (ok sha, t)
      → IsVerified message sha t
  unfolding resolve_created
  resolve_created-IsVerified message sha none s t h = cc
  resolve_created-IsVerified message sha (some id) s t h =
      let (full, u, e, k) =
        wrapped-ok _ (λ full. verify host ssh message (trim_space full))
          (run_or host ssh (codes "rev-parse" ∷ codes "--verify" ∷ (id ++ codes "^{commit}") ∷ [])
            s)
          sha t h in
      verify-IsVerified message (trim_space full) sha u t k

  create-IsVerified :
      (message sha : Text) (pathspecs : List Text) (s t : Shell W)
      → create host ssh message pathspecs s ≡ (ok sha, t)
      → IsVerified message sha t
  unfolding create
  create-IsVerified message sha pathspecs s t h =
      let (out, u, e, k) =
        proceed-ok (run_or host ssh (commit_args message pathspecs) s)
          (λ out. resolve_created host ssh message (created_id out)) sha t h in
      resolve_created-IsVerified message sha (created_id out) u t k

  create_if-IsVerified :
      (message sha : Text) (pathspecs : List Text) (dirty : Bool) (s t : Shell W)
      → create_if host ssh message pathspecs dirty s ≡ (ok sha, t)
      → IsVerified message sha t
  unfolding create_if
  create_if-IsVerified message sha pathspecs true s t h =
      create-IsVerified message sha pathspecs s t h
  create_if-IsVerified message sha pathspecs false s t h = cc

  -- If a commit of everything returns an id, the last command has shown the commit of that id, and its
  -- message is the one that was asked for, up to the white space around it.
  pub commit-IsVerified :
      (message sha : Text) (s t : Shell W)
      → commit host ssh message s ≡ (ok sha, t)
      → IsVerified message sha t
  unfolding commit
  commit-IsVerified message sha s t h =
      let (dirty, u, e, k) =
        proceed-ok (is_dirty host ssh s) (create_if host ssh message []) sha t h in
      create_if-IsVerified message sha [] dirty u t k

  -- If a commit of some regions returns an id, there are regions, the last command has shown the
  -- commit of that id, and its message is the one that was asked for, up to the white space around it.
  pub commit_only-IsVerified :
      (message sha : Text) (regions : List Text) (s t : Shell W)
      → commit_only host ssh message regions s ≡ (ok sha, t)
      → (is_empty regions ≡ false) × IsVerified message sha t
  unfolding commit_only
  commit_only-IsVerified message sha [] s t h = cc
  commit_only-IsVerified message sha (r ∷ rs) s t h =
      let (dirty, u, e, k) =
        proceed-ok (is_dirty host ssh s) (create_if host ssh message (literal_pathspecs (r ∷ rs)))
          sha t h in
      (refl, create_if-IsVerified message sha (literal_pathspecs (r ∷ rs)) dirty u t k)
