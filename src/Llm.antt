-- ===== src/Llm.antt =====
-- src/actioncloud/llm.py: prices, the mock model and the choice of a model. A price is in thousandths of a
-- dollar for a million tokens. `digest` is the start of the SHA-256 of a text, in hexadecimal and as a number;
-- `int_of` is int(text). The clients of hosted models are left to their services.
use Prim.Native.Nat.{max}
use Prim.Native.String.{◌++◌ as str_append, count as char_count}
use action_cloud.Prelude.{
  ℕ, ◌+◌, ◌*◌, ◌/◌, ◌%◌, String, string_eq, ◌||◌, Option, none, some, ◌==◌, if◌then◌else◌, ltb,
}
use action_cloud.Schema.{truthy}
use action_cloud.Judge.{Rounding}
use action_cloud.Text.{first_chars}
use action_cloud.Agents.{Response}

pub record Pricing : Type 0 where
  pub input_per_mtok : ℕ
  pub output_per_mtok : ℕ

module _ (r : Rounding) where
  -- In millionths of a dollar, to which a stored cost is rounded.
  unfoldable pub cost : Pricing → ℕ → ℕ → ℕ
  cost p tokens_in tokens_out =
      r.round (tokens_in * p.input_per_mtok + tokens_out * p.output_per_mtok) 1000

  abbrev pub or_empty : Option String → String
  or_empty none = ""
  or_empty (some s) = s

  -- MockLLM.complete; `latency_ms` is the time that the call took.
  unfoldable pub mock_complete : (String → String × ℕ) → ℕ → String → Option String → Response
  unfolding cost first_chars
  mock_complete digest latency_ms prompt system =
      let (hex, seed) = digest (str_append (or_empty system) prompt) in
      let tokens_in = max 1 (char_count prompt / 4 + char_count (or_empty system) / 4) in
      let tokens_out = 120 + seed % 400 in
      record {
        text = str_append "[mock:" (
            str_append hex (
              str_append "] Completed the task described as: " (
                str_append (first_chars 120 prompt)
                  (if ltb 120 (char_count prompt) then "..." else ""))));
        tokens_input = tokens_in;
        tokens_output = tokens_out;
        latency_ms = latency_ms;
        cost_usd =
            cost (record { input_per_mtok = 250; output_per_mtok = 1250 }) tokens_in tokens_out;
        mode = "";
      }

pub data Llm : Type 0 where
  mock anthropic gemini groq : Llm
  sim : ℕ → Llm

-- get_llm, from its argument and the variables LLM_PROVIDER and SIM_SEED; `none` is a ValueError.
unfoldable pub get_llm :
    (String → String)
    → (String → Option ℕ)
    → Option String
    → Option String
    → Option String
    → Option Llm
get_llm lower int_of asked variable sim_seed =
    let or_mock : String = elim variable [ none ↦ "mock" | some v ↦ v ] in
    let kind = lower (elim asked [ none ↦ or_mock | some k ↦ if truthy k then k else or_mock ]) in
    let seed : Option ℕ = int_of (elim sim_seed [ none ↦ "7" | some v ↦ v ]) in
    if kind == "mock"
    then some mock
    else if kind == "sim" || kind == "simulated"
    then elim seed [ none ↦ none | some n ↦ some (sim n) ]
    else if kind == "anthropic"
    then some anthropic
    else if kind == "gemini" || kind == "google"
    then some gemini
    else if kind == "groq"
    then some groq
    else none
