-- ===== src/Agent/Alerter.antt =====
-- internal/agent/alerter.go: the alerter that logs, and the one that calls several. An alerter is a
-- step of the world that may fail; the lines of the log are what the first one writes.
use sexton.Common.{
  ◌≡◌, refl, Bool, false, ◌||◌, Option, none, some, List, [], ◌∷◌, ◌++◌, any, is_some, is_empty,
  if◌then◌else◌, length, map,
}
use sexton.Common.Text.{Text, codes, same, join, decimal}
use sexton.Git.Errors.{Fault, Cause}
use sexton.Agent.Sync.World.{AlertEvent, AlertFiles}

pub data Level : Type 0 where
  error_level warn_level info_level : Level

abbrev headed : Text → Text → Text
headed repo text = codes "[" ++ (repo ++ (codes "] " ++ text))

abbrev counted : Option AlertFiles → Text
counted none = []
counted (some f) =
    codes " ("
    ++ (decimal (length f.modified)
        ++ (codes " modified, "
            ++ (decimal (length f.added)
                ++ (codes " added, " ++ (decimal (length f.deleted) ++ codes " deleted)")))))

abbrev detailed : Option Fault → Text
detailed none = []
detailed (some f) = codes ": " ++ f.text

-- `LogAlerter.Alert`, of an event of the repository: the lines with their levels.
unfoldable pub log_alert : Text → AlertEvent → List (Level × Text)
log_alert repo e =
    if same e.severity (codes "error")
    then (error_level, headed repo (e.message ++ detailed e.fault)) ∷ []
    else if same e.severity (codes "warning") || same e.severity (codes "attention")
    then (warn_level, headed repo e.message) ∷ []
    else (info_level, headed repo (e.message ++ counted e.files))
      ∷ (if is_empty e.commit_message
          then []
          else (
            info_level,
            headed repo (codes "commit message: '" ++ (e.commit_message ++ codes "'")),
          )
            ∷ [])

abbrev pub Alerter : Type 0 → Type 0
Alerter W = AlertEvent → W → Option Fault × W

-- The errors that were not nil.
abbrev put_error : Option Fault → List Fault → List Fault
put_error none fs = fs
put_error (some f) fs = f ∷ fs

-- The loop of `MultiAlerter.Alert`.
call_all : {W : Type 0} → List (Alerter W) → AlertEvent → W → List Fault × W
call_all [] e w = ([], w)
call_all (a ∷ rest) e w = let r = a e w in let s = call_all rest e r.1 in (put_error r.0 s.0, s.1)

-- `errors.Join`.
abbrev join_errors : List Fault → Option Fault
join_errors [] = none
join_errors (f ∷ fs) = some (record {
  text = join (map (λ g. g.text) (f ∷ fs)) (codes "\n");
  is = λ c. any (λ g. g.is c) (f ∷ fs);
})

-- `MultiAlerter.Alert`.
multi_alert : {W : Type 0} → List (Alerter W) → Alerter W
unfolding call_all
multi_alert alerters e w = let r = call_all alerters e w in (join_errors r.0, r.1)

-- The world behind the calls of all the alerters, in order.
all_called : {W : Type 0} → List (Alerter W) → AlertEvent → W → W
all_called [] e w = w
all_called (a ∷ rest) e w = all_called rest e (a e w).1

abbrev caused : Cause → Option Fault → Bool
caused c none = false
caused c (some f) = f.is c

-- Whether one of those calls fails, and whether one fails over a cause.
some_fails : {W : Type 0} → List (Alerter W) → AlertEvent → W → Bool
some_fails [] e w = false
some_fails (a ∷ rest) e w = is_some (a e w).0 || some_fails rest e (a e w).1

some_fails_over : {W : Type 0} → Cause → List (Alerter W) → AlertEvent → W → Bool
some_fails_over c [] e w = false
some_fails_over c (a ∷ rest) e w = caused c (a e w).0 || some_fails_over c rest e (a e w).1

join-put :
    (o : Option Fault) (fs : List Fault)
    → is_some (join_errors (put_error o fs)) ≡ (is_some o || is_some (join_errors fs))
join-put none fs = refl
join-put (some f) fs = refl

caused-put :
    (c : Cause) (o : Option Fault) (fs : List Fault)
    → caused c (join_errors (put_error o fs)) ≡ (caused c o || caused c (join_errors fs))
unfolding any
caused-put c none fs = refl
caused-put c (some f) [] = refl
caused-put c (some f) (g ∷ fs) = refl

module _ {W : Type 0} where
  call_all-world :
      (xs : List (Alerter W)) (e : AlertEvent) (w : W) → (call_all xs e w).1 ≡ all_called xs e w
  unfolding call_all all_called
  call_all-world [] e w = refl
  call_all-world (a ∷ rest) e w = call_all-world rest e (a e w).1

  call_all-fails :
      (xs : List (Alerter W)) (e : AlertEvent) (w : W)
      → is_some (join_errors (call_all xs e w).0) ≡ some_fails xs e w
  unfolding call_all some_fails
  call_all-fails [] e w = refl
  call_all-fails (a ∷ rest) e w =
      rw (join-put (a e w).0 (call_all rest e (a e w).1).0, call_all-fails rest e (a e w).1) refl

  call_all-over :
      (c : Cause) (xs : List (Alerter W)) (e : AlertEvent) (w : W)
      → caused c (join_errors (call_all xs e w).0) ≡ some_fails_over c xs e w
  unfolding call_all some_fails_over
  call_all-over c [] e w = refl
  call_all-over c (a ∷ rest) e w =
      rw (caused-put c (a e w).0 (call_all rest e (a e w).1).0, call_all-over c rest e (a e w).1)
        refl

  -- An alert to several alerters calls each of them once, in order, whether or not one before it
  -- fails; it fails exactly if one of them does, and it is an error of some cause exactly if one of
  -- theirs is.
  multi_alert-calls :
      (c : Cause) (xs : List (Alerter W)) (e : AlertEvent) (w : W)
      → ((multi_alert xs e w).1 ≡ all_called xs e w)
        × (is_some (multi_alert xs e w).0 ≡ some_fails xs e w)
        × (caused c (multi_alert xs e w).0 ≡ some_fails_over c xs e w)
  unfolding multi_alert
  multi_alert-calls c xs e w =
      (call_all-world xs e w, call_all-fails xs e w, call_all-over c xs e w)
