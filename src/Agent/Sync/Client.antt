-- ===== src/Agent/Sync/Client.antt =====
-- The operations of a sync as the client of internal/git/git.go carries them out, and the commands that
-- the policy `none` leaves to them.
use sexton.Common.{some, List, [], ◌∷◌, ◌++◌}
use sexton.Common.Result.{Result}
use sexton.Common.Text.{Text, codes}
use sexton.Git.Errors.{Fault}
use sexton.Git.Status.{Status}
use sexton.Git.Command.{Host, G, return, ◌>>=◌}
use sexton.Git.Client
use sexton.Git.Client.Commits
use sexton.Git.Client.Safe.{Keeps, Reads}
use sexton.Agent.Sync.World.{
  Op, Answer, ResolvedHook, branch, status, unmerged, stage_all, stage_regions, commit, commit_only,
  show_name_status, show, show_stat, reword_commit, pull, push, rebase_abort, short_head,
  commit_time, run_hook, llm_complete,
}

-- A step of the world that runs no command of the client.
abbrev pub outside : {W A : Type 0} → (W → Result Fault A × W) → G W A
outside f s = let r = f s.world in (r.0, record s { world = r.1 })

-- The methods that `gitClient` names, with the hooks and the language model beside them.
unfoldable pub client :
    {W : Type 0}
    → Host W
    → Text
    → (hook : Text → ResolvedHook → W → Result Fault (Unit {0}) × W)
    → (llm : Text → Text → W → Result Fault Text × W) → (op : Op) → G W (Answer op)
client host ssh hook llm branch = Client.branch host ssh
client host ssh hook llm status = Client.status host ssh >>= λ s. return (some s)
client host ssh hook llm unmerged = Client.unmerged host ssh
client host ssh hook llm stage_all = Client.stage_all host ssh
client host ssh hook llm (stage_regions regions) = Client.stage_regions host ssh regions
client host ssh hook llm (commit message) = Commits.commit host ssh message
client host ssh hook llm (commit_only message regions) =
    Commits.commit_only host ssh message regions
client host ssh hook llm (show_name_status sha) =
    Client.show_name_status host ssh sha >>= λ s. return (some s)
client host ssh hook llm (show sha) = Client.show host ssh sha
client host ssh hook llm (show_stat sha) = Client.show_stat host ssh sha
client host ssh hook llm (reword_commit name sha message) =
    Commits.reword_commit host ssh name sha message
client host ssh hook llm (pull remote name) = Client.pull host ssh remote name
client host ssh hook llm (push remote name) = Client.push host ssh remote name
client host ssh hook llm rebase_abort = Client.rebase_abort host ssh
client host ssh hook llm short_head = Client.short_head host ssh
client host ssh hook llm commit_time = Client.commit_time host ssh
client host ssh hook llm (run_hook phase h) = outside (hook phase h)
client host ssh hook llm (llm_complete prompt diff) = outside (llm prompt diff)

-- The commands that neither stage nor commit, nor move a branch but by a pull: those that read, the
-- pull with a rebase, the abort of one, and the push of the head to the branch.
pub data Exchanges : List Text → Type 0 where
  exchange_reads : (args : List Text) → Reads args → Exchanges args
  exchange_pulls :
      (remote name : Text) → Exchanges (codes "pull" ∷ codes "--rebase" ∷ remote ∷ name ∷ [])
  exchange_pushes :
      (remote name : Text) → Exchanges (codes "push" ∷ remote ∷ (codes "HEAD:" ++ name) ∷ [])
  exchange_aborts : Exchanges (codes "rebase" ∷ codes "--abort" ∷ [])

module _ {W : Type 0} (host : Host W) (ssh : Text) where
  abbrev Stays : {A : Type 0} → G W A → Type 0
  Stays {A = A} m = Keeps host ssh Exchanges {A = A} m
