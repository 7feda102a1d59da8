-- ===== src/Governance.antt =====
-- Every history of the memory store under governance: experiences stored through the pipeline,
-- injections recorded, and reuse reports judged, in any order and by any agents.
pub mod Histories
pub mod Persistence
pub mod Program
pub mod Earned
pub mod Fleet
pub mod Quarantine
use action_cloud.Prelude.{ℕ, ◌≡◌, String, Bool, true, Option, some, List}
use action_cloud.Schema.{ExperienceCreate, new_experience}
use action_cloud.Judge.{Rounding}
use action_cloud.Store.{Store, record_injections}
use action_cloud.Pipeline.{Enrichers, process_experience}
use action_cloud.Service.{ok, ReuseReply, record_reuse}

-- One transaction of one client. A duplicate, a refused report and an unknown id change nothing or
-- give no step.
pub data Step (r : Rounding) (s : Store) : Store → Type 0 where
  stores :
      (enrichers : Enrichers) (payload : ExperienceCreate) (id : ℕ) (author_prior : Bool) (now : ℕ)
      → Step r s
          (process_experience r enrichers s (new_experience payload id) true author_prior now).0
  injects :
      {t : Store} (ids : List ℕ) (agent : String) (now : ℕ)
      → record_injections s ids agent now ≡ some t
      → Step r s t
  reports :
      {t : Store} {reply : ReuseReply} (id : ℕ) (success : Bool) (agent : Option String) (now : ℕ)
      → record_reuse r s id success agent now ≡ ok (t, reply)
      → Step r s t

pub data Reach (r : Rounding) (s : Store) : Store → Type 0 where
  here : Reach r s s
  next : {t u : Store} → Reach r s t → Step r t u → Reach r s u
