-- ===== src/Benchmark/Simulator.antt =====
-- src/actioncloud/benchmark/simulator.py: the model that answers the tasks of the benchmark from its
-- procedures. `header_of` and `step_of` are the matches of the two regular expressions on a line (the marker
-- and the task of a header), `lines_of` is str.splitlines and `strip` str.strip. The random numbers that a task's
-- seed gives are `Luck`.
pub mod Honesty
use Prim.Native.String.{◌++◌ as str_append}
use text.Mathlib.Text.{starts_with}
use action_cloud.Prelude.{
  ℕ, zero, suc, ◌+◌, ◌*◌, String, string_eq, Bool, true, false, not, ◌&&◌, Option, none, some, List,
  [], ◌∷◌, ◌++◌, ◌==◌, if◌then◌else◌, map, filter, contains, any, length,
}
use action_cloud.Floats.{Floats}
use action_cloud.Judge.{Rounding}
use action_cloud.Render.{count_tokens, join}
use action_cloud.Text.{split_first}
use action_cloud.Llm.{Pricing, cost, or_empty}
use action_cloud.Agents.{Response}
use action_cloud.Benchmark.Verifier.{Procedures, steps}

pub record ParsedMemory : Type 0 where
  pub task : String
  pub failed : Bool
  pub steps : List String

-- `current.steps.append(step)`, where the current memory is the first.
abbrev pub add_step : String → List ParsedMemory → List ParsedMemory
add_step st [] = []
add_step st (m ∷ ms) = record m { steps = m.steps ++ st ∷ [] } ∷ ms

abbrev pub in_order : List ParsedMemory → List ParsedMemory → List ParsedMemory
in_order [] ms = ms
in_order (m ∷ rest) ms = in_order rest (m ∷ ms)

module _ (header_of : String → Option (String × String)) (step_of : String → Option String)
    (lines_of : String → List String) (strip : String → String) where
  -- The loop over the lines; the memories so far stand in reverse.
  unfoldable pub parse_lines : List ParsedMemory → List String → List ParsedMemory
  parse_lines found [] = in_order found []
  parse_lines found (line ∷ lines) = elim (header_of line) [
    | some (marker, task) ↦
        parse_lines
          (record { task = task; failed = starts_with marker "FAILED"; steps = [] } ∷ found) lines
    | none ↦ elim (step_of line) [
      | some st ↦ parse_lines (add_step st found) lines
      | none ↦ parse_lines found lines
    ]
  ]

  unfoldable pub parse_context : String → List ParsedMemory × String
  unfolding split_first parse_lines
  parse_context prompt = elim (split_first prompt "## Your task") [
    | none ↦ ([], strip prompt)
    | some (head, task_text) ↦ (parse_lines [] (lines_of head), strip task_text)
  ]

-- {t["task"]: t["task_key"]}: of equal tasks the last one counts.
abbrev pub key_in : List (String × String) → String → Option String
key_in [] text = none
key_in ((task, key) ∷ rest) text =
    let later = key_in rest text in
    elim later [ some k ↦ some k | none ↦ if task == text then some key else none ]

-- steps.pop(i), and the IndexError or the ValueError of an empty list.
unfoldable pub pop_at : ℕ → List String → Option (List String)
pop_at i [] = none
pop_at zero (x ∷ xs) = some xs
pop_at (suc i) (x ∷ xs) = elim (pop_at i xs) [ none ↦ none | some ys ↦ some (x ∷ ys) ]

-- `steps.pop(drop.randrange(len(steps)))`, n times; `drop k` is the k-th number drawn below its bound.
unfoldable pub pop_some : (ℕ → ℕ → ℕ) → ℕ → List String → Option (List String)
unfolding pop_at
pop_some drop zero xs = some xs
pop_some drop (suc n) xs = elim (pop_at (drop n (length xs)) xs) [
  | none ↦ none
  | some ys ↦ pop_some drop n ys
]

pub record SimParams (F : Floats) : Type 0 where
  pub p_scratch_success : F.Float
  -- p_scratch_success - p_distraction
  pub p_distracted_success : F.Float
  pub p_miss_one : F.Float
  pub p_follow_slip : F.Float
  pub p_misled : F.Float
  pub scratch_out_base : ℕ
  pub scratch_out_per_step : ℕ
  pub scratch_out_jitter : ℕ
  pub follow_out_base : ℕ
  pub follow_out_per_step : ℕ
  pub follow_out_jitter : ℕ
  pub latency_base_ms : ℕ
  pub latency_per_out_token_ms : ℕ

pub record Luck (F : Floats) : Type 0 where
  pub outcome : F.Float
  pub second : F.Float
  pub miss : F.Float
  pub drop : ℕ → ℕ → ℕ
  -- randrange of the tokens
  pub jitter : ℕ → ℕ

pub data Mode : Type 0 where
  followed_correct misled scratch : Mode

abbrev pub mode_name : Mode → String
mode_name followed_correct = "followed_correct"
mode_name misled = "misled"
mode_name scratch = "scratch"

abbrev pub is_some_key : Option String → String → Bool
is_some_key none key = false
is_some_key (some k) key = k == key

abbrev pub has_steps : ParsedMemory → Bool
has_steps m = elim m.steps [ [] ↦ false | s ∷ ss ↦ true ]

abbrev pub first_of : List ParsedMemory → Option ParsedMemory
first_of [] = none
first_of (m ∷ ms) = some m

-- all(s in xs for s in truth)
abbrev pub covers : List String → List String → Bool
covers xs [] = true
covers xs (s ∷ truth) = contains xs s && covers xs truth

abbrev pub answer_text : List String → String
answer_text sts = str_append "Procedure applied:\n" (join "\n" (map (str_append "STEP: ") sts))

module _ (F : Floats) (p : SimParams F) (luck : Luck F) where
  abbrev pub below : F.Float → F.Float → Bool
  below x y = not (F.le y x)

  -- The agent works the task out: the whole procedure, or one or two steps too few.
  unfoldable pub from_scratch : Bool → List String → Option (List String)
  unfolding pop_some
  from_scratch distracted truth =
      let p_ok = if distracted then p.p_distracted_success else p.p_scratch_success in
      let lost = pop_some luck.drop (if below luck.miss p.p_miss_one then 1 else 2) truth in
      if below luck.second p_ok then some truth else lost

  -- It follows a correct memory, and slips now and then.
  unfoldable pub follow : List String → Option (List String)
  unfolding pop_some
  follow truth =
      let slipped = pop_some luck.drop 1 truth in
      if below luck.outcome p.p_follow_slip then slipped else some truth

  unfoldable pub attempt : Option ParsedMemory → Bool → List String → Mode × Option (List String)
  unfolding from_scratch follow
  attempt none distracted truth = (scratch, from_scratch distracted truth)
  attempt (some m) distracted truth =
      if covers m.steps truth
      then (followed_correct, follow truth)
      else if below luck.outcome p.p_misled
      then (misled, some (filter (contains truth) m.steps))
      else (scratch, from_scratch distracted truth)

  unfoldable pub out_tokens : Mode → ℕ → ℕ
  out_tokens scratch n =
      p.scratch_out_base + p.scratch_out_per_step * n + luck.jitter p.scratch_out_jitter
  out_tokens _ n = p.follow_out_base + p.follow_out_per_step * n + luck.jitter p.follow_out_jitter

  module _ (r : Rounding) (pricing : Pricing) (tasks : List (String × String))
      (procedures : Procedures) (strip : String → String) where
    -- _key_for
    unfoldable pub key_for : String → Option String
    key_for text = key_in tasks (strip text)

    unfoldable pub applicable : String → List ParsedMemory → List ParsedMemory
    unfolding key_for
    applicable key ms =
        filter (λ m. not m.failed && (is_some_key (key_for m.task) key && has_steps m)) ms

    unfoldable pub irrelevant : String → List ParsedMemory → Bool
    unfolding key_for
    irrelevant key ms = any (λ m. not (is_some_key (key_for m.task) key)) ms

    -- `none` is the ValueError of an unknown task, the KeyError of a missing procedure, or a pop that fails.
    unfoldable pub answer : List ParsedMemory → String → String → Option String → Option Response
    unfolding applicable irrelevant attempt out_tokens steps cost count_tokens
    answer memories task_text prompt system = elim (key_for task_text) [
      | none ↦ none
      | some key ↦ elim (steps procedures key) [
        | none ↦ none
        | some truth ↦
            let (mode, sts) =
              attempt (first_of (applicable key memories)) (irrelevant key memories) truth in
            let out = out_tokens mode (length truth) in
            let in_ = count_tokens (str_append (or_empty r system) prompt) in
            elim sts [
              | none ↦ none
              | some kept ↦ some (record {
                text = answer_text kept;
                tokens_input = in_;
                tokens_output = out;
                latency_ms = p.latency_base_ms + p.latency_per_out_token_ms * out;
                cost_usd = cost r pricing in_ out;
                mode = mode_name mode;
              })
            ]
      ]
    ]

    -- complete
    unfoldable pub complete :
        (String → Option (String × String))
        → (String → Option String)
        → (String → List String)
        → String
        → Option String
        → Option Response
    unfolding parse_context answer
    complete header_of step_of lines_of prompt system =
        let (memories, task_text) = parse_context header_of step_of lines_of strip prompt in
        answer memories task_text prompt system
