-- ===== src/Text.antt =====
-- What the program does with texts by character: `kw in text`, `text[:n]`, and the two together.
use Prim.Native.String.{String, count as char_count}
use text.Mathlib.Text.{starts_with}
use action_cloud.Prelude.{
  ℕ, zero, suc, Bool, true, ◌||◌, ◌≡◌, refl, Option, none, some, List, [], ◌∷◌, if◌then◌else◌,
}

-- `t in s`
unfoldable pub has_text : String → String → Bool
has_text String.[] t = starts_with "" t
has_text (String.◌∷◌ c s) t = starts_with (String.◌∷◌ c s) t || has_text s t

-- s[:n]
unfoldable pub first_chars : ℕ → String → String
first_chars zero s = ""
first_chars (suc n) String.[] = ""
first_chars (suc n) (String.◌∷◌ c s) = String.◌∷◌ c (first_chars n s)

-- s[n:]
unfoldable pub drop_chars : ℕ → String → String
drop_chars zero s = s
drop_chars (suc n) String.[] = ""
drop_chars (suc n) (String.◌∷◌ c s) = drop_chars n s

-- The characters of a text, over which Python iterates.
unfoldable pub chars_from : ℕ → String → List String
unfolding first_chars drop_chars
chars_from zero t = []
chars_from (suc n) t = first_chars 1 t ∷ chars_from n (drop_chars 1 t)

unfoldable pub chars : String → List String
unfolding chars_from
chars t = chars_from (char_count t) t

-- s.split(t, 1) where t is in s, and is not empty
unfoldable pub split_first : String → String → Option (String × String)
unfolding drop_chars
split_first String.[] t = none
split_first (String.◌∷◌ c s) t =
    let later = split_first s t in
    if starts_with (String.◌∷◌ c s) t
    then some ("", drop_chars (char_count t) (String.◌∷◌ c s))
    else elim later [ none ↦ none | some (before, after) ↦ some (String.◌∷◌ c before, after) ]

split_first_test : split_first "ab--cd--" "--" ≡ some ("ab", "cd--")
unfolding split_first
split_first_test = refl

has_text_test : has_text "use jwt.decode here" "jwt" ≡ true
unfolding has_text
has_text_test = refl

first_chars_test : first_chars 3 "abcdef" ≡ "abc"
unfolding first_chars
first_chars_test = refl
