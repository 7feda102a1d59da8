-- ===== src/Embeddings/Hashing/Dimension.antt =====
-- src/actioncloud/embeddings.py: the number of components of an embedding.
use action_cloud.Prelude.{
  ℕ, zero, suc, ◌≡◌, refl, ap, ◌∙◌, String, Bool, List, [], ◌∷◌, map, length, if_either,
}
use action_cloud.Floats.{Floats}
use action_cloud.Store.{Vector}
use action_cloud.Embeddings.Hashing.{
  Arithmetic, Features, zeros, add_at, unit, add_features, features, embed,
}

length-map : {A B : Type 0} (f : A → B) (xs : List A) → length (map f xs) ≡ length xs
length-map f [] = refl
length-map f (x ∷ xs) = ap suc (length-map f xs)

module _ (F : Floats) (A : Arithmetic F) where
  length-zeros : (n : ℕ) → length (zeros F n) ≡ n
  length-zeros zero = refl
  length-zeros (suc n) = ap suc (length-zeros n)

  length-add_at :
      (i : ℕ) (x : F.Float) (vec : List F.Float) → length (add_at F i x vec) ≡ length vec
  unfolding add_at
  length-add_at i x [] = refl
  length-add_at zero x (y ∷ ys) = refl
  length-add_at (suc i) x (y ∷ ys) = ap suc (length-add_at i x ys)

  length-add_features :
      (digest : String → ℕ × Bool) (dim : ℕ) (feats : Features F) (vec : List F.Float)
      → length (add_features F A digest dim feats vec) ≡ length vec
  unfolding add_features
  length-add_features digest dim [] vec = refl
  length-add_features digest dim ((key, weight) ∷ rest) vec =
      length-add_features digest dim rest _ ∙ length-add_at _ _ vec

  length-unit : (vec : List F.Float) → length (unit F A vec) ≡ length vec
  unfolding unit
  length-unit vec =
      if_either (λ (v : List F.Float). length v ≡ length vec) _ refl (length-map _ vec)

  -- Whatever the text and whatever the arithmetic, an embedding has as many components as its dimension.
  pub length-embed :
      (lower : String → String) (blank : String → Bool) (digest : String → ℕ × Bool) (dim : ℕ)
      (text : String)
      → length (embed F A lower blank digest dim text) ≡ dim
  unfolding embed
  length-embed lower blank digest dim text =
      if_either (λ (v : Vector). length v ≡ dim) (blank text)
        (length-map _ (zeros F dim) ∙ length-zeros dim)
        (length-map _ _
          ∙ length-unit _
          ∙ length-add_features digest dim (features F lower text) (zeros F dim)
          ∙ length-zeros dim)
