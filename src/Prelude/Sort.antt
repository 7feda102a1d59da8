-- ===== src/Prelude/Sort.antt =====
-- A stable insertion sort: `ge x y` says that `x` may stand before `y`.
use mathlib.Core.Path.{◌≡◌, refl, ◌∙◌}
use mathlib.Core.Logic.{inl, inr}
use mathlib.Core.Bool.{Bool, true, false}
use mathlib.Core.List.{List, [], ◌∷◌, Memᴰ}
use native.Mathlib.Omega.{arith}
use action_cloud.Prelude.Tests.{if◌then◌else◌, Bool-cases}
use action_cloud.Prelude.Lists.{All, All-imp, Pairwise, count}

module _ {ℓ} {A : Type ℓ} (ge : A → A → Bool) where
  unfoldable pub insert : A → List A → List A
  insert x [] = x ∷ []
  insert x (y ∷ ys) = if ge x y then x ∷ y ∷ ys else y ∷ insert x ys

  unfoldable pub sort : List A → List A
  unfolding insert
  sort [] = []
  sort (x ∷ xs) = insert x (sort xs)

  count-insert : (p : A → Bool) (x : A) (ys : List A) → count p (insert x ys) ≡ count p (x ∷ ys)
  unfolding insert
  count-insert p x [] = refl
  count-insert p x (y ∷ ys) = ground (arith, count-insert p x ys)

  -- The same elements, as often.
  pub count-sort : (p : A → Bool) (xs : List A) → count p (sort xs) ≡ count p xs
  unfolding sort
  count-sort p [] = refl
  count-sort p (x ∷ xs) = count-insert p x (sort xs) ∙ ground (arith, count-sort p xs)

  insert-Memᴰ : (a x : A) (ys : List A) → Memᴰ a (x ∷ ys) → Memᴰ a (insert x ys)
  unfolding insert
  insert-Memᴰ a x [] there = there
  insert-Memᴰ a x (y ∷ ys) there = elim (Bool-cases (ge x y)) [
    | inl e ↦ rw e there
    | inr e ↦ rw e (elim there [
      | Memᴰ.head same ↦ Memᴰ.tail (insert-Memᴰ a x ys (Memᴰ.head same))
      | Memᴰ.tail later ↦ elim later [
        | Memᴰ.head same ↦ Memᴰ.head same
        | Memᴰ.tail rest ↦ Memᴰ.tail (insert-Memᴰ a x ys (Memᴰ.tail rest))
      ]
    ])
  ]

  pub sort-Memᴰ : (a : A) (xs : List A) → Memᴰ a xs → Memᴰ a (sort xs)
  unfolding sort
  sort-Memᴰ a [] there = there
  sort-Memᴰ a (x ∷ xs) (Memᴰ.head same) = insert-Memᴰ a x (sort xs) (Memᴰ.head same)
  sort-Memᴰ a (x ∷ xs) (Memᴰ.tail later) =
      insert-Memᴰ a x (sort xs) (Memᴰ.tail (sort-Memᴰ a xs later))

  module _ {κ} (P : A → Type κ) where
    All-insert : (x : A) (ys : List A) → P x → All P ys → All P (insert x ys)
    unfolding insert
    All-insert x [] px h = (px, tt)
    All-insert x (y ∷ ys) px h = elim (Bool-cases (ge x y)) [
      | inl e ↦ rw e (px, h)
      | inr e ↦ rw e (h.0, All-insert x ys px h.1)
    ]

    pub All-sort : (xs : List A) → All P xs → All P (sort xs)
    unfolding sort
    All-sort [] h = tt
    All-sort (x ∷ xs) h = All-insert x (sort xs) h.0 (All-sort xs h.1)

  abbrev pub IsSorted : List A → Type 0
  IsSorted = Pairwise (λ x y. ge x y ≡ true)

  module _ (total : (x y : A) → ge x y ≡ false → ge y x ≡ true)
      (trans : (x y z : A) → ge x y ≡ true → ge y z ≡ true → ge x z ≡ true) where
    insert-IsSorted : (x : A) (ys : List A) → IsSorted ys → IsSorted (insert x ys)
    unfolding insert
    insert-IsSorted x [] h = (tt, tt)
    insert-IsSorted x (y ∷ ys) h = elim (Bool-cases (ge x y)) [
      | inl e ↦ rw e ((e, All-imp ys (λ z. trans x y z e) h.0), h)
      | inr e ↦
          rw e (All-insert (λ z. ge y z ≡ true) x ys (total x y e) h.0, insert-IsSorted x ys h.1)
    ]

    pub sort-IsSorted : (xs : List A) → IsSorted (sort xs)
    unfolding sort
    sort-IsSorted [] = tt
    sort-IsSorted (x ∷ xs) = insert-IsSorted x (sort xs) (sort-IsSorted xs)
