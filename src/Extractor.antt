-- ===== src/Extractor.antt =====
-- src/actioncloud/extractor.py: the heuristic extraction, and the fallback to it. `step_of` is the
-- match of _STEP_RE on one line, its group 1, and `lines_of` is str.splitlines; `cut` is the first 60
-- characters. `parsed` is what the JSON of a model's answer holds: a workflow, if it is an object, and
-- the triples; `none` stands for a call or a parse that raises.
use action_cloud.Prelude.{String, Bool, Option, none, some, List, [], ◌∷◌, map, if◌then◌else◌}
use action_cloud.Schema.{Experience, part_of, has_items, Workflow, Triple, truthy}

-- [f(x) for x in xs if f(x) matches]
abbrev matches_of : (String → Option String) → List String → List String
matches_of f [] = []
matches_of f (x ∷ xs) = let rest = matches_of f xs in elim (f x) [ none ↦ rest | some y ↦ y ∷ rest ]

abbrev or_steps : List String → List String → List String
or_steps [] other = other
or_steps (s ∷ ss) other = s ∷ ss

module _ (step_of : String → Option String) (lines_of : String → List String)
    (cut : String → String) where
  unfoldable pub parse_steps : Option String → List String
  parse_steps none = []
  parse_steps (some text) = if truthy text then matches_of step_of (lines_of text) else []

  abbrev pitfalls_of : Option String → List String
  pitfalls_of none = []
  pitfalls_of (some problem) = if truthy problem then problem ∷ [] else []

  unfoldable pub heuristic_extract : Experience → Workflow × List Triple
  unfolding parse_steps
  heuristic_extract exp = (
    record {
      prerequisites = part_of exp.technologies;
      steps = part_of (
          or_steps (parse_steps exp.solution)
            (or_steps (parse_steps (some exp.action)) (exp.action ∷ [])));
      pitfalls = part_of (pitfalls_of exp.problem);
    },
    map (λ tech. record { subject = tech; predicate = "used_in_task"; object = cut exp.task })
        exp.technologies,
  )

  -- The model's workflow if it is one with steps, and the heuristic in every other case.
  unfoldable pub extract :
      Bool → Option (Option Workflow × List Triple) → Experience → Option Workflow × List Triple
  unfolding heuristic_extract
  extract is_mock parsed exp =
      let fallback : Option Workflow × List Triple =
        (some (heuristic_extract exp).0, (heuristic_extract exp).1) in
      if is_mock then fallback else elim parsed [
        | none ↦ fallback
        | some (workflow, triples) ↦ elim workflow [
          | none ↦ fallback
          | some wf ↦ if has_items wf.steps then (some wf, triples) else fallback
        ]
      ]
