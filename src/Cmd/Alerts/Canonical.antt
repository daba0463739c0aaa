-- ===== src/Cmd/Alerts/Canonical.antt =====
-- The signature by which entries of the configuration share a client: it does not see the order of
-- users and trigger words.
use sexton.Common.{
  ◌≡◌, refl, Bool, true, false, List, ◌∷◌, if◌then◌else◌, is_empty, arith, inl, inr, Bool-cases,
}
use mathlib.Core.List.Permᴰ
use mathlib.Core.List.{Permᴰ}
use mathlib.Core.Path.{subst}
use sexton.Common.Sort.{sort-Perm, IsLinear}
use sexton.Common.Text.{Text, same, same_iff, less, less_irrefl, less_trans, less-total}
use sexton.Common.Space.{trim_space}
use sexton.Config.Alerts.{MattermostConfig}
use sexton.Cmd.Alerts.{normalized, canonical_list, effective_trigger_words, ingress_signature}

less_asym : (s t : Text) → less s t ≡ true → less t s ≡ false
less_asym s t h = elim (Bool-cases (less t s)) [
  | inl e ↦ absurd (ground (arith, less_trans s t s, less_irrefl s))
  | inr e ↦ e
]

less_connected : (s t : Text) → less s t ≡ false → less t s ≡ false → s ≡ t
less_connected s t h k = elim (Bool-cases (same s t)) [
  | inl e ↦ (same_iff s t).0 e
  | inr e ↦ absurd (ground (arith, less-total s t))
]

less-IsLinear : IsLinear less
less-IsLinear = record { asym = less_asym; transitive = less_trans; connected = less_connected }

put_Perm :
    (b : Bool) (v : Text) (l m : List Text)
    → Permᴰ l m
    → Permᴰ (if b then l else v ∷ l) (if b then m else v ∷ m)
put_Perm true v l m p = p
put_Perm false v l m p = Permᴰ.cons refl p

put_swap :
    (b c : Bool) (v w : Text) (l : List Text)
    → Permᴰ
        (if b then (if c then l else w ∷ l) else v ∷ (if c then l else w ∷ l))
        (if c then (if b then l else v ∷ l) else w ∷ (if b then l else v ∷ l))
put_swap true true v w l = Permᴰ.refl l
put_swap true false v w l = Permᴰ.refl (w ∷ l)
put_swap false true v w l = Permᴰ.refl (v ∷ l)
put_swap false false v w l = Permᴰ.swap refl refl

module _ (lower : Text → Text) where
  normalized-Perm :
      (xs ys : List Text) → Permᴰ xs ys → Permᴰ (normalized lower xs) (normalized lower ys)
  unfolding normalized
  normalized-Perm _ _ Permᴰ.nil = Permᴰ.nil
  normalized-Perm _ _ (Permᴰ.cons {a} {b} {l₁} {l₂} e p) =
      subst (λ u. Permᴰ (normalized lower (a ∷ l₁)) (normalized lower (u ∷ l₂))) e
        (put_Perm (is_empty (lower (trim_space a))) (lower (trim_space a)) (normalized lower l₁)
          (normalized lower l₂) (normalized-Perm l₁ l₂ p))
  normalized-Perm _ _ (Permᴰ.swap {a} {b} {a'} {b'} {l} e f) =
      subst (λ u. Permᴰ (normalized lower (a ∷ b ∷ l)) (normalized lower (u ∷ b' ∷ l))) f
        (subst (λ u. Permᴰ (normalized lower (a ∷ b ∷ l)) (normalized lower (b ∷ u ∷ l))) e
          (put_swap (is_empty (lower (trim_space a))) (is_empty (lower (trim_space b)))
            (lower (trim_space a)) (lower (trim_space b)) (normalized lower l)))
  normalized-Perm xs ys (Permᴰ.trans {l₁} {l₂} {l₃} p q) =
      Permᴰ.trans (normalized-Perm l₁ l₂ p) (normalized-Perm l₂ l₃ q)

  canonical_list-Perm :
      (xs ys : List Text) → Permᴰ xs ys → canonical_list lower xs ≡ canonical_list lower ys
  unfolding canonical_list
  canonical_list-Perm xs ys p =
      rw
        (sort-Perm less less-IsLinear (normalized lower xs) (normalized lower ys)
          (normalized-Perm xs ys p))
        refl

  -- Two configurations of the chat have the same signature if their allowed users and their trigger
  -- words are the same up to order; so it does not matter in which order they are written.
  pub ingress_signature-Perm :
      (cfg other : MattermostConfig)
      → Permᴰ cfg.allowed_users other.allowed_users
      → Permᴰ (effective_trigger_words cfg) (effective_trigger_words other)
      → ingress_signature lower cfg ≡ ingress_signature lower other
  unfolding ingress_signature
  ingress_signature-Perm cfg other p q =
      rw
        (
          canonical_list-Perm cfg.allowed_users other.allowed_users p,
          canonical_list-Perm (effective_trigger_words cfg) (effective_trigger_words other) q,
        )
        refl
