-- ===== src/Store/Ledger.antt =====
-- What the tables reuse_events, injections and tier_transitions say of one memory and one agent.
use action_cloud.Prelude.{
  ℕ, ◌+◌, ◌≤◌, ◌≡◌, refl, String, string_eq, nat_eq, Bool, true, false, ◌&&◌, Option, none, some,
  List, [], ◌∷◌, ◌++◌, arith, ◌==◌, if◌then◌else◌, any, count,
}
use action_cloud.Schema.{MemoryTier}
use action_cloud.Store.{Injection, ReuseEvent, Transition}
use action_cloud.Store.Reuse.{consume_injection, is_author_failure}

abbrev pub is_counted : ℕ → ReuseEvent → Bool
is_counted id e = e.experience_id == id && e.counted

abbrev pub is_counted_success : ℕ → ReuseEvent → Bool
is_counted_success id e = is_counted id e && e.success

abbrev pub is_counted_by : ℕ → String → ReuseEvent → Bool
is_counted_by id agent e = is_counted id e && e.reporter_agent_id == agent

abbrev pub is_success_by : ℕ → String → ReuseEvent → Bool
is_success_by id agent e = is_counted_by id agent e && e.success

-- An injection of a memory to an agent that a report has used up.
abbrev pub is_reported : ℕ → String → Injection → Bool
is_reported id agent i =
    i.experience_id == id
    && (i.agent_id == agent && elim i.reported_at [ none ↦ false | some _ ↦ true ])

abbrev pub bit : Bool → ℕ
bit b = if b then 1 else 0

pub count-consume_injection :
    (j : ℕ) (a : String) (is : List Injection) (id : ℕ) (agent : String) (now : ℕ)
    → count (is_reported j a) (consume_injection is id agent now).0
      ≡ count (is_reported j a) is
        + bit ((consume_injection is id agent now).1 && (id == j && agent == a))
unfolding consume_injection
count-consume_injection j a [] id agent now = ground arith
count-consume_injection j a (i ∷ is) id agent now = ground (
  arith,
  count-consume_injection j a is id agent now,
  string_eq.same_iff i.agent_id agent,
  string_eq.same_iff i.agent_id a,
  string_eq.same_iff agent a,
)

-- An agent's counted reports are its successes and its failures.
pub count_split :
    (id : ℕ) (agent : String) (es : List ReuseEvent)
    → count (is_counted_by id agent) es
      ≡ count (is_success_by id agent) es + count (λ e. is_author_failure e id agent) es
count_split id agent [] = refl
count_split id agent (e ∷ es) = ground (arith, count_split id agent es)

pub count-any {ℓ} : {A : Type ℓ} (p : A → Bool) (xs : List A) → any p xs ≡ false → count p xs ≡ 0
count-any p [] h = refl
count-any p (x ∷ xs) h = ground (arith, count-any p xs)

pub count_by_le :
    (id : ℕ) (agent : String) (es : List ReuseEvent)
    → count (is_counted_by id agent) es ≤ count (is_counted id) es
count_by_le id agent [] = omega arith
count_by_le id agent (e ∷ es) = ground (arith, count_by_le id agent es)

pub count_success_by_le :
    (id : ℕ) (agent : String) (es : List ReuseEvent)
    → count (is_success_by id agent) es ≤ count (is_counted_by id agent) es
count_success_by_le id agent [] = omega arith
count_success_by_le id agent (e ∷ es) = ground (arith, count_success_by_le id agent es)

-- The tier that the audit log gives a memory: the last entry's.
abbrev pub or_else {ℓ} : {A : Type ℓ} → Option A → Option A → Option A
or_else (some a) o = some a
or_else none o = o

abbrev pub entry_tier : ℕ → Transition → Option MemoryTier
entry_tier id t = if t.experience_id == id then some t.to_tier else none

unfoldable pub last_tier : ℕ → List Transition → Option MemoryTier
last_tier id [] = none
last_tier id (t ∷ ts) = or_else (last_tier id ts) (entry_tier id t)

or_else_assoc {ℓ} :
    {A : Type ℓ} (o p q : Option A) → or_else (or_else o p) q ≡ or_else o (or_else p q)
or_else_assoc (some a) p q = refl
or_else_assoc none p q = refl

pub last_tier-snoc :
    (id : ℕ) (ts : List Transition) (t : Transition)
    → last_tier id (ts ++ t ∷ []) ≡ or_else (entry_tier id t) (last_tier id ts)
unfolding last_tier
last_tier-snoc id [] t = ground arith
last_tier-snoc id (u ∷ ts) t = ground (arith, last_tier-snoc id ts t)
