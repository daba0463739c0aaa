-- ===== src/Mattermost/Client/Listen/Outsiders.antt =====
-- Users that are not allowed: whatever they write, and however often the connection breaks, no
-- operation of the handler is called.
use sexton.Common.{
  ◌≡◌, refl, sym, Bool, true, false, Option, none, some, List, ◌∷◌, ◌++◌, is_empty, arith, inl, inr,
  Bool-cases,
}
use mathlib.Core.Path.{subst}
use sexton.Common.Result.{Result, ok, err}
use sexton.Common.Text.{Text, codes, same}
use sexton.Mattermost.Commands.{Env, CommandHandler}
use sexton.Mattermost.Client.{Client, Library, api_get}
use sexton.Mattermost.Client.Caches.{cached, resolve_username, resolve_by, named}
use sexton.Mattermost.Client.Listen.{
  State, Reader, PostedData, Post, posted, is_allowed_user, handle_message, handle_posted,
  handle_post, checked,
}

module _ {V W : Type 0} (lib : Library V) (reader : Reader) (env : Env) (handler : CommandHandler W)
    (outside : Text → Bool) where
  -- A client with allowed users that knows no outsider by a name of theirs.
  pub record IsGuarded (c : Client) : Type 0 where
    pub guarded : is_empty c.cfg.allowed_users ≡ false
    pub unknown :
        (id name : Text)
        → outside id ≡ true
        → cached id c.user_cache ≡ some name
        → is_allowed_user reader c.cfg.allowed_users name ≡ false

  -- No answer of the server gives an outsider a name that is allowed.
  abbrev pub NamesOutsiders : List Text → Type 0
  NamesOutsiders allowed =
      (c : Client) (id : Text) (v v' : V) (user : Text → Text)
      → outside id ≡ true
      → api_get lib c (codes "/api/v4/users/" ++ id) v ≡ (ok user, v')
      → is_allowed_user reader allowed (user (codes "username")) ≡ false

  -- A message that, if it is a post, is an outsider's.
  abbrev pub IsOutside : Text → Type 0
  IsOutside raw =
      (d : PostedData) (p : Post) → posted reader raw ≡ some (d, p) → outside p.user_id ≡ true

  module _ (allowed : List Text) (names : NamesOutsiders allowed) where
    -- The invariant of the loop.
    pub record IsSafe (world : W) (s : State V W) : Type 0 where
      pub guard : IsGuarded s.client
      pub same_allowed : s.client.cfg.allowed_users ≡ allowed
      pub untouched : s.world ≡ world

    -- What a lookup of an outsider leaves behind.
    abbrev Refuses : Client → Result Text Text × (Client × V) → Type 0
    Refuses c (err e, (c', v)) = IsGuarded c' × (c'.cfg ≡ c.cfg)
    Refuses c (ok name, (c', v)) =
        IsGuarded c' × (c'.cfg ≡ c.cfg) × (is_allowed_user reader c'.cfg.allowed_users name ≡ false)

    remember :
        (c : Client) (id name : Text)
        → IsGuarded c
        → is_allowed_user reader c.cfg.allowed_users name ≡ false
        → IsGuarded (record c { user_cache = (id, name) ∷ c.user_cache })
    unfolding cached
    remember c id name g h = record {
      guarded = g.guarded;
      unknown = λ other found out e. elim (Bool-cases (same id other)) [
        | inl k ↦ subst (λ n. is_allowed_user reader c.cfg.allowed_users n ≡ false) (cc) h
        | inr k ↦ g.unknown other found out (ground arith)
      ];
    }

    named-Refuses :
        (c : Client) (id : Text) (r : Result Text (Text → Text) × V)
        → IsGuarded c
        → ((user : Text → Text) (v' : V)
            → r ≡ (ok user, v')
            → is_allowed_user reader c.cfg.allowed_users (user (codes "username")) ≡ false)
        → Refuses c (named lib c id r)
    unfolding named
    named-Refuses c id (err e, v) g h = (g, refl)
    named-Refuses c id (ok user, v) g h = elim (Bool-cases (is_empty (user (codes "username")))) [
      | inl k ↦ rw k (g, refl)
      | inr k ↦
          rw k (remember c id (user (codes "username")) g (h user v refl), refl, h user v refl)
    ]

    resolve-Refuses :
        (o : Option Text) (c : Client) (id : Text) (v : V)
        → o ≡ cached id c.user_cache
        → IsGuarded c
        → c.cfg.allowed_users ≡ allowed
        → outside id ≡ true
        → Refuses c (resolve_by lib o c id v)
    unfolding resolve_by
    resolve-Refuses (some name) c id v e g a out = (g, refl, g.unknown id name out (sym e))
    resolve-Refuses none c id v e g a out =
        named-Refuses c id (api_get lib c (codes "/api/v4/users/" ++ id) v) g
          (λ user v' r. rw a (names c id v v' user out r))

    -- The handler's world as it was, and no panic.
    abbrev pub Survives : W → Option (State V W) → Type 0
    Survives world none = false ≡ true
    Survives world (some s) = IsSafe world s

    checked-Survives :
        (d : PostedData) (p : Post) (r : Result Text Text × (Client × V)) (s : State V W)
        (world : W)
        → IsSafe world s
        → Refuses s.client r
        → Survives world (checked lib reader env handler d p r s)
    unfolding checked
    checked-Survives d p (err e, (c, v)) s world safe (g, same_cfg) = record {
      guard = g;
      same_allowed = cc (safe.same_allowed);
      untouched = safe.untouched;
    }
    checked-Survives d p (ok name, (c, v)) s world safe (g, same_cfg, no_match) =
        rw no_match
          (record { guard = g; same_allowed = cc (safe.same_allowed); untouched = safe.untouched })

    post-Survives :
        (d : PostedData) (p : Post) (s : State V W) (world : W)
        → outside p.user_id ≡ true
        → IsSafe world s
        → Survives world (handle_post lib reader env handler d p s)
    unfolding handle_post
    post-Survives d p s world out safe = elim (Bool-cases (same p.user_id s.client.bot_user_id)) [
      | inl k ↦ rw k safe
      | inr k ↦
          rw (k, safe.guard.guarded)
            (checked-Survives d p (resolve_username lib s.client p.user_id s.net) s world safe (
              unfold resolve_username in
              resolve-Refuses (cached p.user_id s.client.user_cache) s.client p.user_id s.net refl
                safe.guard safe.same_allowed out))
    ]

    posted-Survives :
        (o : Option (PostedData × Post)) (s : State V W) (world : W)
        → ((d : PostedData) (p : Post) → o ≡ some (d, p) → outside p.user_id ≡ true)
        → IsSafe world s
        → Survives world (handle_posted lib reader env handler o s)
    unfolding handle_posted
    posted-Survives none s world out safe = safe
    posted-Survives (some (d, p)) s world out safe = post-Survives d p s world (out d p refl) safe

    pub message-Survives :
        (raw : Text) (s : State V W) (world : W)
        → IsOutside raw
        → IsSafe world s
        → Survives world (handle_message lib reader env handler raw s)
    unfolding handle_message
    message-Survives raw s world out safe = posted-Survives (posted reader raw) s world out safe
