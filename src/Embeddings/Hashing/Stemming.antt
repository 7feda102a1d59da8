-- ===== src/Embeddings/Hashing/Stemming.antt =====
-- What the stemmer may cut off, and what the tokens of a text are.
use Prim.Native.String.{◌++◌ as str_append, count as char_count}
use text.Mathlib.TextLemmas.{length-append, length-cons, cons-append, nil-append}
use action_cloud.Prelude.{
  ◌+◌, ◌-◌, ◌≤◌, ◌<◌, ◌≡◌, refl, sym, subst, ap, ◌∙◌, ◌⊎◌, inl, inr, String, string_eq, nat_eq,
  true, ◌&&◌, List, [], ◌∷◌, ◌==◌, ltb, arith, Bool-cases,
}
use mathlib.Core.List.{Memᴰ}
use action_cloud.Text.{first_chars}
use action_cloud.Embeddings.Hashing.{ends_with, suffixes, strip_first, stem}

first_chars-append : (u t : String) → first_chars (char_count u) (str_append u t) ≡ u
unfolding first_chars
first_chars-append String.[] t = refl
first_chars-append (String.◌∷◌ c u) t =
    rw (length-cons c u, cons-append c u t) (ap (String.◌∷◌ c) (first_chars-append u t))

ends_with-append : (s t : String) → ends_with s t ≡ true → (u : String) × (str_append u t ≡ s)
unfolding ends_with
ends_with-append String.[] t h =
    let same : t ≡ "" = ground (arith, string_eq.same_iff t "") in ("", rw same refl)
ends_with-append (String.◌∷◌ c s) t h = elim (Bool-cases (String.◌∷◌ c s == t)) [
  | inl e ↦
      let same : String.◌∷◌ c s ≡ t = ground (arith, string_eq.same_iff (String.◌∷◌ c s) t) in
      ("", nil-append t ∙ sym same)
  | inr e ↦
      let (u, same) = ends_with-append s t (ground (arith, e)) in
      (String.◌∷◌ c u, cons-append c u t ∙ ap (String.◌∷◌ c) same)
]

-- `stemmed` is the word without one of these suffixes, and still of four letters or more; or it is the word.
abbrev pub Stemmed : List String → String → String → Type 0
Stemmed sufs tok stemmed =
    (stemmed ≡ tok)
    ⊎ ((suf : String) × Memᴰ suf sufs × (str_append stemmed suf ≡ tok) × (4 ≤ char_count stemmed))

cut_suffix :
    (suf tok : String)
    → ends_with tok suf ≡ true
    → char_count suf + 3 < char_count tok
    → let cut = first_chars (char_count tok - char_count suf) tok in
      (str_append cut suf ≡ tok) × (4 ≤ char_count cut)
cut_suffix suf tok ends long =
    let (u, same) = ends_with-append tok suf ends in
    let size = length-append u suf in
    let total : char_count tok ≡ char_count u + char_count suf =
      subst (λ (w : String). char_count w ≡ char_count u + char_count suf) same size in
    let rest : char_count tok - char_count suf ≡ char_count u = omega (arith, total) in
    let cut : first_chars (char_count tok - char_count suf) tok ≡ u =
      ap (λ n. first_chars n tok) rest
      ∙ ap (first_chars (char_count u)) (sym same)
      ∙ first_chars-append u suf in
    subst (λ (c : String). (str_append c suf ≡ tok) × (4 ≤ char_count c)) (sym cut)
      (same, omega (arith, total, long))

strip_first-Stemmed : (sufs : List String) (tok : String) → Stemmed sufs tok (strip_first sufs tok)
unfolding strip_first
strip_first-Stemmed [] tok = inl refl
strip_first-Stemmed (suf ∷ more) tok =
    elim (Bool-cases (ltb (char_count suf + 3) (char_count tok) && ends_with tok suf)) [
      | inl e ↦
          let (whole, long) = cut_suffix suf tok (ground (arith, e)) (ground (arith, e)) in
          rw e (inr (suf, Memᴰ.head refl, whole, long))
      | inr e ↦ rw e (elim (strip_first-Stemmed more tok) [
        | inl same ↦ inl same
        | inr (s, there, whole, long) ↦ inr (s, Memᴰ.tail there, whole, long)
      ])
    ]

-- The stemmer is safe: it gives the word back, or the word without one suffix of its list, and then at
-- least four letters are left.
pub stem-Stemmed : (tok : String) → Stemmed suffixes tok (stem tok)
unfolding stem
stem-Stemmed tok = strip_first-Stemmed suffixes tok
