-- ===== src/Benchmark/Simulator/Honesty.antt =====
-- What the simulated model may answer: steps of the task's own procedure, and from a memory only one that
-- is of the task's family and did not fail.
use action_cloud.Prelude.{
  ℕ, zero, suc, ◌≡◌, refl, ap, sym, subst, ◌∙◌, ◌⊎◌, inl, inr, String, string_eq, Bool, true, false,
  not, ◌&&◌, Option, none, some, List, [], ◌∷◌, if◌then◌else◌, filter, contains, length, All,
  All-filter_self, All-Memᴰ, All-imp, arith, Option-cases, Bool-cases, beq_refl,
}
use mathlib.Core.List.{Memᴰ}
use action_cloud.Floats.{Floats}
use action_cloud.Judge.{Rounding}
use action_cloud.Llm.{Pricing}
use action_cloud.Agents.{Response}
use action_cloud.Benchmark.Verifier.{Procedures, steps}
use action_cloud.Benchmark.Simulator.{
  ParsedMemory, pop_at, pop_some, SimParams, Luck, scratch, mode_name, is_some_key, has_steps,
  first_of, covers, answer_text, below, from_scratch, follow, attempt, key_for, applicable,
  irrelevant, answer,
}

-- Every one of these steps is a step of the procedure.
abbrev pub AreOf : List String → List String → Type 0
AreOf truth kept = All (λ s. contains truth s ≡ true) kept

contains-Memᴰ : (xs : List String) (a : String) → Memᴰ a xs → contains xs a ≡ true
contains-Memᴰ [] a m = elim m [ ]
contains-Memᴰ (x ∷ xs) a (Memᴰ.head same) = ground (arith, same, beq_refl a)
contains-Memᴰ (x ∷ xs) a (Memᴰ.tail there) = ground (arith, contains-Memᴰ xs a there)

truth-AreOf : (truth : List String) → AreOf truth truth
truth-AreOf truth = All-imp truth (λ s there. contains-Memᴰ truth s there) (All-Memᴰ truth)

module _ (P : String → Type 0) where
  pop_at-All :
      (i : ℕ) (xs : List String) {ys : List String} → All P xs → pop_at i xs ≡ some ys → All P ys
  unfolding pop_at
  pop_at-All i [] h e = absurd (ground (arith, e))
  pop_at-All zero (x ∷ xs) {ys} (px, h) e =
      let same : xs ≡ ys = ground (arith, e) in rw (sym same) h
  pop_at-All (suc i) (x ∷ xs) {ys} (px, h) e = elim (Option-cases (pop_at i xs)) [
    | inl g ↦ absurd (ground (arith, g, e))
    | inr (rest, g) ↦
        let same : x ∷ rest ≡ ys = ground (arith, g, e) in rw (sym same) (px, pop_at-All i xs h g)
  ]

  pop_some-All :
      (drop : ℕ → ℕ → ℕ) (n : ℕ) (xs : List String) {ys : List String}
      → All P xs
      → pop_some drop n xs ≡ some ys
      → All P ys
  unfolding pop_some
  pop_some-All drop zero xs {ys} h e = let same : xs ≡ ys = ground (arith, e) in rw (sym same) h
  pop_some-All drop (suc n) xs h e = elim (Option-cases (pop_at (drop n (length xs)) xs)) [
    | inl g ↦ absurd (ground (arith, g, e))
    | inr (rest, g) ↦
        pop_some-All drop n rest (pop_at-All (drop n (length xs)) xs h g) (ground (arith, g, e))
  ]

is_some_key-some : (k : Option String) (key : String) → is_some_key k key ≡ true → k ≡ some key
is_some_key-some none key h = cc
is_some_key-some (some k) key h = ground (arith, string_eq.same_iff k key)

module _ (F : Floats) (p : SimParams F) (luck : Luck F) where
  from_scratch-AreOf :
      (distracted : Bool) (truth : List String) {kept : List String}
      → from_scratch F p luck distracted truth ≡ some kept
      → AreOf truth kept
  unfolding from_scratch
  from_scratch-AreOf distracted truth {kept} e =
      let p_ok = if distracted then p.p_distracted_success else p.p_scratch_success in
      elim (Bool-cases (below F p luck luck.second p_ok)) [
        | inl g ↦
            let same : truth ≡ kept = ground (arith, g, e) in
            subst (AreOf truth) same (truth-AreOf truth)
        | inr g ↦
            pop_some-All (λ s. contains truth s ≡ true) luck.drop
              (if below F p luck luck.miss p.p_miss_one then 1 else 2) truth (truth-AreOf truth)
              (ground (arith, g, e))
      ]

  follow-AreOf :
      (truth : List String) {kept : List String}
      → follow F p luck truth ≡ some kept
      → AreOf truth kept
  unfolding follow
  follow-AreOf truth {kept} e = elim (Bool-cases (below F p luck luck.outcome p.p_follow_slip)) [
    | inl g ↦
        pop_some-All (λ s. contains truth s ≡ true) luck.drop 1 truth (truth-AreOf truth)
          (ground (arith, g, e))
    | inr g ↦
        let same : truth ≡ kept = ground (arith, g, e) in
        subst (AreOf truth) same (truth-AreOf truth)
  ]

  attempt-AreOf :
      (m : Option ParsedMemory) (distracted : Bool) (truth : List String) {kept : List String}
      → (attempt F p luck m distracted truth).1 ≡ some kept
      → AreOf truth kept
  unfolding attempt
  attempt-AreOf none distracted truth e = from_scratch-AreOf distracted truth e
  attempt-AreOf (some m) distracted truth {kept} e = elim (Bool-cases (covers m.steps truth)) [
    | inl g ↦ follow-AreOf truth (ground (arith, g, e))
    | inr g ↦ elim (Bool-cases (below F p luck luck.outcome p.p_misled)) [
      | inl k ↦
          let same : filter (contains truth) m.steps ≡ kept = ground (arith, g, k, e) in
          subst (AreOf truth) same (
            All-filter_self (λ s. contains truth s ≡ true) (contains truth) m.steps
              (λ s known. known))
      | inr k ↦ from_scratch-AreOf distracted truth (ground (arith, g, k, e))
    ]
  ]

  -- The mode of an attempt that followed no memory.
  attempt_alone :
      (m : Option ParsedMemory) (distracted : Bool) (truth : List String)
      → ((attempt F p luck m distracted truth).0 ≡ scratch) ⊎ ((x : ParsedMemory) × (m ≡ some x))
  unfolding attempt
  attempt_alone none distracted truth = inl refl
  attempt_alone (some m) distracted truth = inr (m, refl)

  module _ (r : Rounding) (pricing : Pricing) (tasks : List (String × String))
      (procedures : Procedures) (strip : String → String) where
    -- A memory of the prompt that the model may follow for a task of this family.
    abbrev pub IsUsable : List ParsedMemory → String → ParsedMemory → Type 0
    IsUsable memories key m =
        Memᴰ m memories
        × (m.failed ≡ false)
        × (key_for F p luck r pricing tasks procedures strip m.task ≡ some key)

    first-IsUsable :
        (key : String) (memories : List ParsedMemory) (m : ParsedMemory)
        → first_of (applicable F p luck r pricing tasks procedures strip key memories) ≡ some m
        → IsUsable memories key m
    unfolding applicable
    first-IsUsable key [] m e = absurd (ground (arith, e))
    first-IsUsable key (x ∷ xs) m e =
        elim (Bool-cases (
          not x.failed
          && (is_some_key (key_for F p luck r pricing tasks procedures strip x.task) key
              && has_steps x))) [
                | inl g ↦
                    let same : m ≡ x = ground (arith, g, e) in
                    rw same (
                      Memᴰ.head refl,
                      ground (arith, g),
                      is_some_key-some _ key (ground (arith, g)),
                    )
                | inr g ↦
                    let (there, fine, family) = first-IsUsable key xs m (ground (arith, g, e)) in
                    (Memᴰ.tail there, fine, family)
              ]

    -- The simulated model makes nothing up, and heeds a warning: an answer lists steps of the procedure of
    -- the task's own family, and if it did not work them out from scratch, the prompt has a memory of that
    -- family which is not marked as failed.
    pub answer_honest :
        (memories : List ParsedMemory) (task_text prompt : String) (system : Option String)
        (response : Response)
        → answer F p luck r pricing tasks procedures strip memories task_text prompt system
          ≡ some response
        → (key : String) × (truth : List String) × (kept : List String) × (key_for F p luck r
              pricing tasks procedures strip task_text
            ≡ some key)
          × (steps procedures key ≡ some truth)
          × (response.text ≡ answer_text kept)
          × AreOf truth kept
          × ((response.mode ≡ "scratch") ⊎ ((m : ParsedMemory) × IsUsable memories key m))
    unfolding answer
    answer_honest memories task_text prompt system response h =
        elim (Option-cases (key_for F p luck r pricing tasks procedures strip task_text)) [
          | inl e ↦ absurd (ground (arith, e))
          | inr (key, e) ↦ elim (Option-cases (steps procedures key)) [
            | inl g ↦ absurd (ground (arith, e, g))
            | inr (truth, g) ↦
                let m =
                  first_of (applicable F p luck r pricing tasks procedures strip key memories) in
                let distracted =
                  irrelevant F p luck r pricing tasks procedures strip key memories in
                let tried = attempt F p luck m distracted truth in
                elim (Option-cases tried.1) [
                  | inl k ↦ absurd (ground (arith, e, g, k))
                  | inr (kept, k) ↦
                      let text : response.text ≡ answer_text kept = ground (arith, e, g, k, h) in
                      let mode : response.mode ≡ mode_name tried.0 = ground (arith, e, g, k, h) in
                      (
                        key,
                        truth,
                        kept,
                        e,
                        g,
                        text,
                        attempt-AreOf m distracted truth k,
                        elim (attempt_alone m distracted truth) [
                          | inl alone ↦ inl (mode ∙ ap mode_name alone)
                          | inr (x, some_) ↦ inr (x, first-IsUsable key memories x some_)
                        ],
                      )
                ]
          ]
        ]
