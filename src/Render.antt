-- ===== src/Render.antt =====
-- The text of a memory in a prompt: count_tokens and CompactContextBuilder.format_single_memory of
-- src/actioncloud/builder.py. A memory is the row of the search as the builder reads it.
use Prim.Native.Nat.{max}
use Prim.Native.String.{◌++◌ as str_append, count as char_count}
use action_cloud.Prelude.{
  ℕ, zero, suc, ◌/◌, ◌%◌, String, string_eq, nat_eq, Bool, true, false, Option, none, some, List,
  [], ◌∷◌, ◌++◌, ◌==◌, if◌then◌else◌, ltb, ◌<◌, ◌≡◌, refl, ◌⊎◌, inl, inr, Bool-cases, arith,
}
use action_cloud.Schema.{
  MemoryTier, private, agent, shared, validated, organizational, Item, text_item, other_item, Part,
  items, scalar, has_items, Workflow, truthy?,
}

-- max(1, len(text) // 4), and 0 for the empty text.
unfoldable pub count_tokens : String → ℕ
count_tokens text = if text == "" then 0 else max 1 (char_count text / 4)

-- separator.join(parts)
unfoldable pub join : String → List String → String
join separator [] = ""
join separator (s ∷ []) = s
join separator (s ∷ t ∷ ts) = str_append s (str_append separator (join separator (t ∷ ts)))

digit : ℕ → String
digit zero = "0"
digit (suc zero) = "1"
digit (suc (suc zero)) = "2"
digit (suc (suc (suc zero))) = "3"
digit (suc (suc (suc (suc zero)))) = "4"
digit (suc (suc (suc (suc (suc zero))))) = "5"
digit (suc (suc (suc (suc (suc (suc zero)))))) = "6"
digit (suc (suc (suc (suc (suc (suc (suc zero))))))) = "7"
digit (suc (suc (suc (suc (suc (suc (suc (suc zero)))))))) = "8"
digit _ = "9"

-- A number in decimal, with fuel for its digits: as many as its value always suffice.
decimal_from : ℕ → ℕ → String → String
unfolding digit
decimal_from zero n rest = rest
decimal_from (suc fuel) n rest =
    let more = decimal_from fuel (n / 10) (str_append (digit (n % 10)) rest) in
    if ltb n 10 then str_append (digit n) rest else more

unfoldable pub decimal : ℕ → String
unfolding decimal_from
decimal n = decimal_from (suc n) n ""

-- Fuel above the number is enough: more of it gives the same text.
decimal_from-fuel :
    (fuel n : ℕ) (rest : String)
    → n < fuel
    → decimal_from (suc fuel) n rest ≡ decimal_from fuel n rest
unfolding decimal_from
decimal_from-fuel zero n rest h = absurd (omega arith)
decimal_from-fuel (suc fuel) n rest h = elim (Bool-cases (ltb n 10)) [
  | inl small ↦ rw small refl
  | inr big ↦ rw big (decimal_from-fuel fuel (n / 10) _ (grind arith))
]

pub record Memory : Type 0 where
  pub id : ℕ
  pub task : String
  pub task_key : Option String
  pub problem : Option String
  pub solution : Option String
  pub result : Option String
  pub success : Bool
  pub tier : MemoryTier
  pub workflow : Option Workflow

-- str(tier).upper()
unfoldable pub tier_upper : MemoryTier → String
tier_upper private = "PRIVATE"
tier_upper agent = "AGENT"
tier_upper shared = "SHARED"
tier_upper validated = "VALIDATED"
tier_upper organizational = "ORGANIZATIONAL"

infixr 65 ◌⧺◌
abbrev pub ◌⧺◌ : String → String → String
a ⧺ b = str_append a b

unfoldable pub marker : Bool → String
marker true = "WORKED"
marker false = "FAILED — avoid this approach"

str_of : Item → String
str_of (text_item t) = t
str_of (other_item t) = t

numbered_steps : ℕ → List Item → List String
unfolding decimal str_of
numbered_steps i [] = []
numbered_steps i (st ∷ sts) = ("  " ⧺ decimal i ⧺ ". " ⧺ str_of st) ∷ numbered_steps (suc i) sts

-- The items, where each is a text; `none` is the TypeError of str.join, and of the iteration over a
-- value without items.
texts_of : List Item → Option (List String)
texts_of [] = some []
texts_of (i ∷ is) =
    let more = texts_of is in
    elim i [
      | text_item t ↦ elim more [ none ↦ none | some ts ↦ some (t ∷ ts) ]
      | other_item t ↦ none
    ]

unfoldable pub part_texts : Part → Option (List String)
unfolding texts_of
part_texts (items is) = texts_of is
part_texts (scalar b) = none

-- One line if the part is true, and the exception of `separator.join(part)`.
labelled : String → String → Part → Option (List String)
unfolding part_texts join
labelled label separator part =
    if has_items part
    then (elim (part_texts part) [
      | none ↦ none
      | some ts ↦ some ((label ⧺ join separator ts) ∷ [])
    ])
    else some []

-- enumerate(steps, 1)
unfoldable pub step_items : Part → Option (List Item)
step_items (items is) = some is
step_items (scalar b) = none

abbrev or_empty : Option String → String
or_empty none = ""
or_empty (some s) = s

plain_lines : Memory → List String
plain_lines m =
    (if truthy? m.problem then ("- Problem: " ⧺ or_empty m.problem) ∷ [] else [])
    ++ (if truthy? m.solution
        then ("- Solution: " ⧺ or_empty m.solution) ∷ []
        else if truthy? m.result
        then ("- Outcome: " ⧺ or_empty m.result) ∷ []
        else [])

step_lines : Workflow → Option (List String)
unfolding numbered_steps labelled step_items
step_lines wf = elim (labelled "- Prerequisites: " ", " wf.prerequisites) [
  | none ↦ none
  | some before ↦ elim (step_items wf.steps) [
    | none ↦ none
    | some steps ↦ elim (labelled "- Pitfalls: " "; " wf.pitfalls) [
      | none ↦ none
      | some after ↦ some (before ++ ("- Procedure:" ∷ (numbered_steps 1 steps ++ after)))
    ]
  ]
]

-- The extracted steps, or the plain fields where there are none.
body_lines : Memory → Option (List String)
unfolding plain_lines step_lines
body_lines m = elim m.workflow [
  | none ↦ some (plain_lines m)
  | some wf ↦ if has_items wf.steps then step_lines wf else some (plain_lines m)
]

-- `none` is the TypeError of a workflow that does not render.
unfoldable pub format_single_memory : ℕ → Memory → Option String
unfolding join decimal tier_upper marker body_lines
format_single_memory idx m = elim (body_lines m) [
  | none ↦ none
  | some lines ↦ some (
      join "\n" (
        ("### "
          ⧺ decimal idx
          ⧺ ". ["
          ⧺ marker m.success
          ⧺ "] ["
          ⧺ tier_upper m.tier
          ⧺ "] "
          ⧺ m.task)
        ∷ lines))
]

-- The workflow of a memory renders: its parts are lists of texts, and its steps a list.
abbrev pub Joins : Part → Type 0
Joins part = (has_items part ≡ false) ⊎ ((ts : List String) × (part_texts part ≡ some ts))

abbrev pub Renders : Option Workflow → Type 0
Renders none = Unit
Renders (some wf) =
    (has_items wf.steps ≡ false)
    ⊎ (Joins wf.prerequisites
        × Joins wf.pitfalls
        × ((steps : List Item) × (step_items wf.steps ≡ some steps)))

labelled_total :
    (label separator : String) (part : Part)
    → Joins part
    → (lines : List String) × (labelled label separator part ≡ some lines)
unfolding labelled
labelled_total label separator part (inl e) = ([], ground (arith, e))
labelled_total label separator part (inr (ts, e)) = elim (Bool-cases (has_items part)) [
  | inr off ↦ ([], ground (arith, off))
  | inl on ↦ ((label ⧺ join separator ts) ∷ [], ground (arith, on, e))
]

step_lines_total :
    (wf : Workflow)
    → Joins wf.prerequisites
    → Joins wf.pitfalls
    → ((steps : List Item) × (step_items wf.steps ≡ some steps))
    → (lines : List String) × (step_lines wf ≡ some lines)
unfolding step_lines
step_lines_total wf pre pit (steps, st) =
    let (before, e1) = labelled_total "- Prerequisites: " ", " wf.prerequisites pre in
    let (after, e2) = labelled_total "- Pitfalls: " "; " wf.pitfalls pit in
    (before ++ ("- Procedure:" ∷ (numbered_steps 1 steps ++ after)), ground (arith, e1, st, e2))

body_lines_total :
    (m : Memory) → Renders m.workflow → (lines : List String) × (body_lines m ≡ some lines)
unfolding body_lines
body_lines_total m h = go m.workflow refl h
  where
    go :
        (w : Option Workflow)
        → m.workflow ≡ w
        → Renders w
        → (lines : List String) × (body_lines m ≡ some lines)
    go none e k = (plain_lines m, ground (arith, e))
    go (some wf) e (inl no_steps) = (plain_lines m, ground (arith, e, no_steps))
    go (some wf) e (inr (pre, pit, steps)) =
        let (lines, made) = step_lines_total wf pre pit steps in
        elim (Bool-cases (has_items wf.steps)) [
          | inr off ↦ (plain_lines m, ground (arith, e, off))
          | inl on ↦ (lines, ground (arith, e, on, made))
        ]

pub format_total :
    (idx : ℕ) (m : Memory)
    → Renders m.workflow
    → (block : String) × (format_single_memory idx m ≡ some block)
unfolding format_single_memory
format_total idx m h =
    let (lines, e) = body_lines_total m h in
    (
      join "\n" (
          ("### "
            ⧺ decimal idx
            ⧺ ". ["
            ⧺ marker m.success
            ⧺ "] ["
            ⧺ tier_upper m.tier
            ⧺ "] "
            ⧺ m.task)
          ∷ lines),
      ground (arith, e),
    )
