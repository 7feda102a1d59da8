-- ===== src/Embeddings/Hashing.antt =====
-- HashingEmbeddingProvider of src/actioncloud/embeddings.py, with _stem and tokenize, and the choice of
-- a provider. `lower` is str.lower, `digest` BLAKE2b of a key: the number of its first four bytes and
-- the lowest bit of its fifth. The vector's arithmetic is an interface; a component of the result is
-- counted in millionths, to which it is rounded.
pub mod Stemming
pub mod Dimension
use Prim.Native.Char.{Char, code}
use Prim.Native.String.{◌++◌ as str_append, count as char_count}
use action_cloud.Prelude.{
  ℕ, zero, suc, ◌+◌, ◌-◌, ◌%◌, String, string_eq, nat_eq, Bool, true, false, not, ◌&&◌, ◌||◌,
  Option, none, some, List, [], ◌∷◌, ◌++◌, ◌==◌, if◌then◌else◌, leb, ltb, map, filter, contains,
}
use action_cloud.Prelude.Int.{ℤ, pos}
use action_cloud.Floats.{Floats}
use action_cloud.Schema.{truthy}
use action_cloud.Store.{Vector}
use action_cloud.Text.{first_chars}

abbrev stopwords : List String
stopwords =
    "a" ∷ "an" ∷ "and" ∷ "are" ∷ "as" ∷ "at" ∷ "be" ∷ "by" ∷ "for" ∷ "from" ∷ "has" ∷ "have" ∷ "in"
    ∷ "into" ∷ "is" ∷ "it" ∷ "its" ∷ "of" ∷ "on" ∷ "or" ∷ "that" ∷ "the" ∷ "this" ∷ "to" ∷ "was"
    ∷ "were" ∷ "will" ∷ "with" ∷ "using" ∷ "use" ∷ "via" ∷ "when" ∷ "which" ∷ "while" ∷ "your"
    ∷ "our" ∷ "their" ∷ "than" ∷ "then" ∷ "there" ∷ "these" ∷ "those" ∷ []

-- s.endswith(t)
unfoldable pub ends_with : String → String → Bool
ends_with String.[] t = t == ""
ends_with (String.◌∷◌ c s) t = String.◌∷◌ c s == t || ends_with s t

abbrev pub suffixes : List String
suffixes = "ation" ∷ "ing" ∷ "ers" ∷ "ies" ∷ "ed" ∷ "es" ∷ "er" ∷ "s" ∷ []

-- The loop of _stem.
unfoldable pub strip_first : List String → String → String
unfolding first_chars ends_with
strip_first [] tok = tok
strip_first (suf ∷ more) tok =
    let rest = strip_first more tok in
    if ltb (char_count suf + 3) (char_count tok) && ends_with tok suf
    then first_chars (char_count tok - char_count suf) tok
    else rest

-- _stem
unfoldable pub stem : String → String
unfolding strip_first
stem tok = strip_first suffixes tok

-- [a-z0-9]
abbrev pub is_word_char : Char → Bool
is_word_char c = leb 97 (code c) && leb (code c) 122 || (leb 48 (code c) && leb (code c) 57)

abbrev pub flush : String → List String → List String
flush word rest = if truthy word then word ∷ rest else rest

-- The words after `word`, the one that is being read.
unfoldable pub words_from : String → String → List String
words_from word String.[] = flush word []
words_from word (String.◌∷◌ c s) =
    let inside = words_from (str_append word (String.◌∷◌ c "")) s in
    let outside = words_from "" s in if is_word_char c then inside else flush word outside

-- _TOKEN_RE.findall
unfoldable pub words : String → List String
unfolding words_from
words text = words_from "" text

unfoldable pub tokenize : (String → String) → String → List String
unfolding stem words
tokenize lower text = map stem (filter (λ t. not (contains stopwords t)) (words (lower text)))

-- padded[i : i + 4] for i in range(len(padded) - 3)
unfoldable pub four_grams : String → List String
unfolding first_chars
four_grams String.[] = []
four_grams (String.◌∷◌ c s) =
    let rest = four_grams s in
    if ltb (char_count s) 3 then [] else first_chars 4 (String.◌∷◌ c s) ∷ rest

-- The operations of a vector's components beside those of `Floats`.
pub record Arithmetic (F : Floats) : Type 0 where
  pub neg : F.Float → F.Float
  pub div : F.Float → F.Float → F.Float
  pub log : F.Float → F.Float
  pub sqrt : F.Float → F.Float
  -- round(x, 6), in millionths
  pub round6 : F.Float → ℤ

module _ (F : Floats) where
  -- The dict of features, in the order of insertion.
  abbrev pub Features : Type 0
  Features = List (String × F.Float)

  -- feats[key] = feats.get(key, 0.0) + w
  unfoldable pub add_feature : String → F.Float → Features → Features
  add_feature key w [] = (key, F.add F.zero_float w) ∷ []
  add_feature key w ((k, v) ∷ rest) =
      if k == key then (k, F.add v w) ∷ rest else (k, v) ∷ add_feature key w rest

  unfoldable pub add_grams : List String → Features → Features
  unfolding add_feature
  add_grams [] feats = feats
  add_grams (g ∷ gs) feats =
      add_grams gs (add_feature (str_append "c:" g) (F.of_ten_thousandths 2500) feats)

  unfoldable pub add_unigrams : List String → Features → Features
  unfolding add_feature add_grams four_grams
  add_unigrams [] feats = feats
  add_unigrams (t ∷ ts) feats =
      let one = add_feature (str_append "u:" t) (F.of_ten_thousandths 10000) feats in
      let grams = add_grams (four_grams (str_append "#" (str_append t "#"))) one in
      add_unigrams ts (if leb 5 (char_count t) then grams else one)

  unfoldable pub add_bigrams : List String → Features → Features
  unfolding add_feature
  add_bigrams [] feats = feats
  add_bigrams (a ∷ []) feats = feats
  add_bigrams (a ∷ b ∷ rest) feats = add_bigrams (b ∷ rest) (
      add_feature (str_append "b:" (str_append a (str_append "_" b))) (F.of_ten_thousandths 6000)
        feats)

  -- _features
  unfoldable pub features : (String → String) → String → Features
  unfolding add_unigrams add_bigrams tokenize
  features lower text = let toks = tokenize lower text in add_bigrams toks (add_unigrams toks [])

  abbrev pub zeros : ℕ → List F.Float
  zeros zero = []
  zeros (suc n) = F.zero_float ∷ zeros n

  -- vec[idx] += x
  unfoldable pub add_at : ℕ → F.Float → List F.Float → List F.Float
  add_at i x [] = []
  add_at zero x (y ∷ ys) = F.add y x ∷ ys
  add_at (suc i) x (y ∷ ys) = y ∷ add_at i x ys

  module _ (A : Arithmetic F) where
    abbrev sum_squares : List F.Float → F.Float → F.Float
    sum_squares [] acc = acc
    sum_squares (x ∷ xs) acc = sum_squares xs (F.add acc (F.mul x x))

    abbrev is_zero : F.Float → Bool
    is_zero x = F.le x F.zero_float && F.le F.zero_float x

    -- _unit
    unfoldable pub unit : List F.Float → List F.Float
    unit vec =
        let norm = A.sqrt (sum_squares vec F.zero_float) in
        if is_zero norm then vec else map (λ x. A.div x norm) vec

    -- What a feature of this weight adds: its logarithm damps a repeated word.
    unfoldable pub contribution : Bool → F.Float → F.Float
    contribution positive weight =
        let one = F.of_ten_thousandths 10000 in
        let x = if F.le weight one then weight else F.add one (A.log weight) in
        if positive then x else A.neg x

    unfoldable pub add_features : (String → ℕ × Bool) → ℕ → Features → List F.Float → List F.Float
    unfolding add_at contribution
    add_features digest dim [] vec = vec
    add_features digest dim ((key, weight) ∷ rest) vec =
        let (n, positive) = digest key in
        add_features digest dim rest (add_at (n % dim) (contribution positive weight) vec)

    -- `blank` is `not text.strip()`, and `dim` is not 0.
    unfoldable pub embed :
        (String → String) → (String → Bool) → (String → ℕ × Bool) → ℕ → String → Vector
    unfolding features add_features unit
    embed lower blank digest dim text =
        if blank text
        then map (λ x. A.round6 x) (zeros dim)
        else map (λ x. A.round6 x)
            (unit (add_features digest dim (features lower text) (zeros dim)))

-- cosine
module _ (F : Floats) where
  unfoldable pub products : List F.Float → List F.Float → F.Float → F.Float
  products [] ys acc = acc
  products (x ∷ xs) [] acc = acc
  products (x ∷ xs) (y ∷ ys) acc = products xs ys (F.add acc (F.mul x y))

  unfoldable pub cosine : List F.Float → List F.Float → F.Float
  unfolding products
  cosine a b = products a b F.zero_float

-- The providers, each with its dimension.
pub data Provider : Type 0 where
  hashing gemini openai : ℕ → Provider

-- _provider; `none` is the ValueError.
unfoldable pub provider : String → ℕ → Option Provider
provider name dim =
    if contains ("hashing" ∷ "mock" ∷ "local" ∷ []) name
    then some (hashing dim)
    else if contains ("gemini" ∷ "google" ∷ []) name
    then some (gemini dim)
    else if name == "openai"
    then some (openai dim)
    else none

-- get_embedding_provider, from the value of EMBEDDING_PROVIDER and the dimension of the settings.
unfoldable pub get_embedding_provider : (String → String) → Option String → ℕ → Option Provider
unfolding provider
get_embedding_provider lower variable dim =
    provider (lower (elim variable [ none ↦ "hashing" | some name ↦ name ])) dim
