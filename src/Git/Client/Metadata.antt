-- ===== src/Git/Client/Metadata.antt =====
-- `readCommitMetadata` of internal/git/git.go: what a commit that replaces another takes over.
use sexton.Common.{Option, none, some, List, [], ◌∷◌, ◌++◌, length}
use sexton.Common.Result.{Result, ok, err}
use sexton.Common.Space.{trim_space, fields}
use sexton.Common.Text.{Text, codes, split, decimal}
use sexton.Git.Errors.{Fault, fault_of}
use sexton.Git.Command.{Host, G, ◌>>=◌, or_throw, run_or}

pub record CommitMetadata : Type 0 where
  pub tree : Text
  pub parents : List Text
  pub author_name : Text
  pub author_email : Text
  pub author_date : Text

-- The last of the words, if there is one.
abbrev pub last_of : List Text → Option Text
last_of [] = none
last_of (w ∷ []) = some w
last_of (w ∷ v ∷ ws) = last_of (v ∷ ws)

module _ (quote : Text → Text) (sha : Text) where
  abbrev metadata_fault : Text → Fault
  metadata_fault text =
      fault_of (codes "read commit metadata for " ++ (quote sha ++ (codes ": " ++ text)))

  -- The record, given the time zone of the author if the time holds one.
  abbrev with_zone : (tree parents name email at : Text) → Option Text → Result Fault CommitMetadata
  with_zone tree parents name email at none =
      err (metadata_fault (codes "author timezone is empty"))
  with_zone tree parents name email at (some zone) = ok (record {
    tree = tree;
    parents = fields parents;
    author_name = name;
    author_email = email;
    author_date = codes "@" ++ (at ++ (codes " " ++ zone));
  })

  abbrev wrong_count : List Text → Result Fault CommitMetadata
  wrong_count parts =
      err (metadata_fault (codes "expected 6 fields, got " ++ decimal (length parts)))

  -- The parts of the output, of which there are six.
  unfoldable pub metadata_of : List Text → Result Fault CommitMetadata
  metadata_of (tree ∷ parents ∷ name ∷ email ∷ at ∷ zoned ∷ []) =
      with_zone tree parents name email at (last_of (fields (trim_space zoned)))
  metadata_of parts = wrong_count parts

abbrev pub metadata_args : Text → List Text
metadata_args sha =
    codes "show" ∷ codes "-s" ∷ codes "--format=%T%x00%P%x00%an%x00%ae%x00%at%x00%ai" ∷ sha ∷ []

-- `readCommitMetadata`.
unfoldable pub read_commit_metadata : {W : Type 0} → Host W → Text → Text → G W CommitMetadata
read_commit_metadata host ssh sha = do
  out ← run_or host ssh (metadata_args sha)
  or_throw (metadata_of host.quote sha (split 0 out))
