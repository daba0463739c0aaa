-- ===== src/Common/Sort.antt =====
-- Sorting by a strict order, as the program uses Go's `sort`. Where two elements that the order does
-- not separate are equal, every sorting algorithm returns the list that this one does.
use mathlib.Core.Path.{◌≡◌, refl, sym, ◌∙◌}
use mathlib.Core.Bool.{Bool, true, false, ◌||◌}
use mathlib.Core.List.{List, [], ◌∷◌, Permᴰ}
use native.Mathlib.Omega.{arith}
use mathlib.Core.Logic.{inl, inr}
use sexton.Common.Tests.{if◌then◌else◌, Bool-cases}
use sexton.Common.Lists.{any, All}

module _ {ℓ} {A : Type ℓ} (before : A → A → Bool) where
  insert : A → List A → List A
  insert a [] = a ∷ []
  insert a (x ∷ xs) = if before x a then x ∷ insert a xs else a ∷ x ∷ xs

  unfoldable pub sort : List A → List A
  unfolding insert
  sort [] = []
  sort (x ∷ xs) = insert x (sort xs)

  any-insert : (p : A → Bool) (a : A) (xs : List A) → any p (insert a xs) ≡ (p a || any p xs)
  unfolding any insert
  any-insert p a [] = refl
  any-insert p a (x ∷ xs) = ground (arith, any-insert p a xs)

  -- A sorted list has the elements of the list.
  pub any-sort : (p : A → Bool) (xs : List A) → any p (sort xs) ≡ any p xs
  unfolding any sort
  any-sort p [] = refl
  any-sort p (x ∷ xs) = ground (arith, any-sort p xs, any-insert p x (sort xs))

-- No element is before one that stands above it.
module _ {ℓ} {A : Type ℓ} (before : A → A → Bool) where
  abbrev pub IsSorted : List A → Type 0
  IsSorted [] = Unit
  IsSorted (x ∷ xs) = All (λ y. before y x ≡ false) xs × IsSorted xs

  abbrev pub IsStrict : Type ℓ
  IsStrict =
      ((a b : A) → before a b ≡ true → before b a ≡ false)
      × ((a b c : A) → before b a ≡ false → before c b ≡ false → before c a ≡ false)

module _ {ℓ} {A : Type ℓ} (before : A → A → Bool) where
  All-insert : (P : A → Type 0) (a : A) (xs : List A) → P a → All P xs → All P (insert before a xs)
  unfolding insert
  All-insert P a [] pa h = (pa, tt)
  All-insert P a (x ∷ xs) pa (px, pxs) = ground (arith, All-insert P a xs pa pxs)

  pub All-sort : (P : A → Type 0) (xs : List A) → All P xs → All P (sort before xs)
  unfolding sort
  All-sort P [] h = tt
  All-sort P (x ∷ xs) (px, pxs) = All-insert P x (sort before xs) px (All-sort P xs pxs)

module _ {ℓ} {A : Type ℓ} (before : A → A → Bool) (order : IsStrict before) where
  All-before :
      (a x : A) (xs : List A)
      → before x a ≡ false
      → All (λ y. before y x ≡ false) xs
      → All (λ y. before y a ≡ false) xs
  All-before a x [] h all = tt
  All-before a x (y ∷ ys) h (hy, hys) = (order.1 a x y h hy, All-before a x ys h hys)

  insert-IsSorted :
      (a : A) (xs : List A) → IsSorted before xs → IsSorted before (insert before a xs)
  unfolding insert
  insert-IsSorted a [] h = (tt, tt)
  insert-IsSorted a (x ∷ xs) (hx, hs) = elim (Bool-cases (before x a)) [
    | inl e ↦ rw e (
      All-insert before (λ y. before y x ≡ false) a xs (order.0 x a e) hx,
      insert-IsSorted a xs hs,
    )
    | inr e ↦ rw e ((e, All-before a x xs e hx), (hx, hs))
  ]

  -- The sorted list is sorted.
  pub sort-IsSorted : (xs : List A) → IsSorted before (sort before xs)
  unfolding sort
  sort-IsSorted [] = tt
  sort-IsSorted (x ∷ xs) = insert-IsSorted x (sort before xs) (sort-IsSorted xs)

-- A strict order in which two elements that it does not separate are equal.
module _ {ℓ} {A : Type ℓ} (before : A → A → Bool) where
  pub record IsLinear : Type ℓ where
    pub asym : (a b : A) → before a b ≡ true → before b a ≡ false
    pub transitive : (a b c : A) → before a b ≡ true → before b c ≡ true → before a c ≡ true
    pub connected : (a b : A) → before a b ≡ false → before b a ≡ false → a ≡ b

module _ {ℓ} {A : Type ℓ} (before : A → A → Bool) (order : IsLinear before) where
  before-left : (x a b : A) → before x b ≡ false → before x a ≡ true → before b a ≡ true
  before-left x a b h k = elim (Bool-cases (before b a)) [
    | inl e ↦ e
    | inr e ↦ elim (Bool-cases (before a b)) [
      | inl f ↦ let g = order.transitive x a b k f in cc
      | inr f ↦ let g = order.connected a b f e in cc
    ]
  ]

  insert_two :
      (a b : A) (xs : List A)
      → (if before b a then b ∷ a ∷ xs else a ∷ b ∷ xs)
        ≡ (if before a b then a ∷ b ∷ xs else b ∷ a ∷ xs)
  insert_two a b xs = elim (Bool-cases (before b a)) [
    | inl e ↦ rw (e, order.asym b a e) refl
    | inr e ↦ elim (Bool-cases (before a b)) [
      | inl f ↦ rw (e, f) refl
      | inr f ↦ rw (e, f) (let g = order.connected a b f e in cc)
    ]
  ]

  insert_past :
      (a x : A) (xs : List A)
      → before x a ≡ true
      → insert before a (x ∷ xs) ≡ x ∷ insert before a xs
  unfolding insert
  insert_past a x xs e = rw e refl

  insert_here : (a x : A) (xs : List A) → before x a ≡ false → insert before a (x ∷ xs) ≡ a ∷ x ∷ xs
  unfolding insert
  insert_here a x xs e = rw e refl

  insert_both :
      (a b x : A) (xs : List A)
      → before x a ≡ true
      → before x b ≡ false
      → insert before a (insert before b (x ∷ xs)) ≡ insert before b (insert before a (x ∷ xs))
  insert_both a b x xs e f = cc (
    insert_past a x xs e,
    insert_here b x xs f,
    insert_past a b (x ∷ xs) (before-left x a b f e),
    insert_here b x (insert before a xs) f,
  )

  insert_rest :
      (a b x : A) (xs : List A)
      → before x a ≡ false
      → before x b ≡ false
      → insert before a (insert before b (x ∷ xs)) ≡ insert before b (insert before a (x ∷ xs))
  insert_rest a b x xs e f =
      let at_a = insert_here a x xs e in
      let at_b = insert_here b x xs f in
      elim (Bool-cases (before b a)) [
        | inl k ↦
            cc (at_a, at_b, insert_past a b (x ∷ xs) k, insert_here b a (x ∷ xs) (order.asym b a k))
        | inr k ↦ elim (Bool-cases (before a b)) [
          | inl m ↦ cc (at_a, at_b, insert_here a b (x ∷ xs) k, insert_past b a (x ∷ xs) m)
          | inr m ↦ cc (order.connected a b m k)
        ]
      ]

  insert_comm :
      (a b : A) (xs : List A)
      → insert before a (insert before b xs) ≡ insert before b (insert before a xs)
  insert_comm a b [] = unfold insert in insert_two a b []
  insert_comm a b (x ∷ xs) = elim (Bool-cases (before x a)) [
    | inl e ↦ elim (Bool-cases (before x b)) [
      | inl f ↦ cc (
        insert_past a x xs e,
        insert_past b x xs f,
        insert_past a x (insert before b xs) e,
        insert_past b x (insert before a xs) f,
        insert_comm a b xs,
      )
      | inr f ↦ insert_both a b x xs e f
    ]
    | inr e ↦ elim (Bool-cases (before x b)) [
      | inl f ↦ sym (insert_both b a x xs f e)
      | inr f ↦ insert_rest a b x xs e f
    ]
  ]

  -- Lists with the same elements are sorted to the same list.
  pub sort-Perm : (xs ys : List A) → Permᴰ xs ys → sort before xs ≡ sort before ys
  unfolding sort
  sort-Perm _ _ Permᴰ.nil = refl
  sort-Perm _ _ (Permᴰ.cons {a} {b} {l₁} {l₂} e p) = cc (e, sort-Perm l₁ l₂ p)
  sort-Perm _ _ (Permᴰ.swap {a} {b} {a'} {b'} {l} e f) = cc (e, f, insert_comm a b (sort before l))
  sort-Perm xs ys (Permᴰ.trans {l₁} {l₂} {l₃} p q) = sort-Perm l₁ l₂ p ∙ sort-Perm l₂ l₃ q
