-- ===== src/Config/Path.antt =====
-- What the program takes from Go's `path/filepath` on Unix: `IsAbs`, `Base`, `Clean` and `Join`, on
-- paths of bytes.
use sexton.Common.{
  ℕ, zero, suc, ◌≡◌, refl, Bool, true, false, not, ◌||◌, List, [], ◌∷◌, ◌++◌, is_empty,
  if◌then◌else◌, All, All-append, Bool-cases, inl, inr, arith,
}
use sexton.Common.Text.{Text, codes, same, split, split-Lacks, join, has_prefix, Lacks}

-- `filepath.IsAbs`.
unfoldable pub is_abs : Text → Bool
is_abs path = has_prefix path (codes "/")

-- The last component that is not empty.
last_component : List Text → Text → Text
last_component [] found = found
last_component (p ∷ ps) found = last_component ps (if is_empty p then found else p)

-- `filepath.Base`.
unfoldable pub base : Text → Text
unfolding last_component
base path = if is_empty path then codes "." else last_component (split b'/' path) (codes "/")

-- A path that is cleaned: steps up, and the names behind them.
pub record Cleaned : Type 0 where
  pub ups : ℕ
  pub names : List Text

abbrev drop_last : List Text → List Text
drop_last [] = []
drop_last (p ∷ []) = []
drop_last (p ∷ q ∷ ps) = p ∷ drop_last (q ∷ ps)

-- A component "..": it takes back a name; where there is none, it is dropped at the root and kept
-- elsewhere.
step_up : Bool → Cleaned → Cleaned
step_up rooted c =
    if not (is_empty c.names)
    then record c { names = drop_last c.names }
    else if rooted
    then c
    else record c { ups = suc c.ups }

step : Bool → Cleaned → Text → Cleaned
unfolding step_up
step rooted c p =
    if is_empty p || same p (codes ".")
    then c
    else if same p (codes "..")
    then step_up rooted c
    else record c { names = c.names ++ p ∷ [] }

steps : Bool → Cleaned → List Text → Cleaned
steps rooted c [] = c
steps rooted c (p ∷ ps) = steps rooted (step rooted c p) ps

unfoldable pub dots : ℕ → List Text
dots zero = []
dots (suc n) = codes ".." ∷ dots n

-- The components of a relative path that is cleaned.
unfoldable pub relative_parts : Cleaned → List Text
unfolding dots
relative_parts c = dots c.ups ++ c.names

pub cleaned : Bool → Text → Cleaned
unfolding steps step
cleaned rooted path = steps rooted (record { ups = 0; names = [] }) (split b'/' path)

unfoldable pub relative_text : List Text → Text
relative_text [] = codes "."
relative_text (p ∷ ps) = join (p ∷ ps) (codes "/")

-- `filepath.Clean`.
unfoldable pub clean : Text → Text
unfolding relative_parts relative_text cleaned
clean path =
    let absolute = codes "/" ++ join (cleaned true path).names (codes "/") in
    let relative = relative_text (relative_parts (cleaned false path)) in
    if is_abs path then absolute else relative

-- `filepath.Join` of two elements.
unfoldable pub join_path : Text → Text → Text
join_path a b =
    if is_empty a then (if is_empty b then [] else clean b) else clean (a ++ (codes "/" ++ b))

-- A component that names something: neither empty nor "." nor "..", and without a slash.
pub record IsProper (p : Text) : Type 0 where
  pub nonempty : is_empty p ≡ false
  pub no_dot : same p (codes ".") ≡ false
  pub no_dots : same p (codes "..") ≡ false
  pub no_slash : Lacks b'/' p

All-drop_last : (ps : List Text) → All IsProper ps → All IsProper (drop_last ps)
All-drop_last [] h = tt
All-drop_last (p ∷ []) h = tt
All-drop_last (p ∷ q ∷ ps) (hp, h) = (hp, All-drop_last (q ∷ ps) h)

step_up-IsProper :
    (rooted : Bool) (c : Cleaned) → All IsProper c.names → All IsProper (step_up rooted c).names
unfolding step_up
step_up-IsProper rooted c h = elim (Bool-cases (is_empty c.names)) [
  | inl e ↦ rw e (elim (Bool-cases rooted) [ inl r ↦ rw r h | inr r ↦ rw r h ])
  | inr e ↦ rw e (All-drop_last c.names h)
]

step-IsProper :
    (rooted : Bool) (c : Cleaned) (p : Text)
    → Lacks b'/' p
    → All IsProper c.names
    → All IsProper (step rooted c p).names
unfolding step
step-IsProper rooted c p l h = elim (Bool-cases (is_empty p || same p (codes "."))) [
  | inl e ↦ rw e h
  | inr e ↦ rw e (elim (Bool-cases (same p (codes ".."))) [
    | inl d ↦ rw d (step_up-IsProper rooted c h)
    | inr d ↦ rw d (
        All-append IsProper c.names (p ∷ []) h (
          record { nonempty = ground arith; no_dot = ground arith; no_dots = d; no_slash = l },
          tt,
        ))
  ])
]

steps-IsProper :
    (rooted : Bool) (c : Cleaned) (ps : List Text)
    → All (Lacks b'/') ps
    → All IsProper c.names
    → All IsProper (steps rooted c ps).names
unfolding steps
steps-IsProper rooted c [] l h = h
steps-IsProper rooted c (p ∷ ps) (lp, l) h =
    steps-IsProper rooted (step rooted c p) ps l (step-IsProper rooted c p lp h)

-- The names of a cleaned path are proper components.
pub cleaned-IsProper : (rooted : Bool) (path : Text) → All IsProper (cleaned rooted path).names
unfolding cleaned
cleaned-IsProper rooted path =
    steps-IsProper rooted (record { ups = 0; names = [] }) (split b'/' path) (split-Lacks b'/' path)
      tt

-- The definition, with its parts shut.
pub clean_relative :
    (path : Text)
    → is_abs path ≡ false
    → clean path ≡ relative_text (relative_parts (cleaned false path))
unfolding clean
clean_relative path h = rw h refl
