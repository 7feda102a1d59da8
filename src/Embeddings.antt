-- ===== src/Embeddings.antt =====
-- The text that src/actioncloud/embeddings.py embeds for a memory or a query.
pub mod Hashing
use Prim.Native.String.{◌++◌ as str_append}
use action_cloud.Prelude.{String, Option, none, some, List, [], ◌∷◌, ◌++◌, if◌then◌else◌}
use action_cloud.Schema.{truthy}

-- " ".join(parts)
unfoldable pub join_spaces : List String → String
join_spaces [] = ""
join_spaces (s ∷ []) = s
join_spaces (s ∷ t ∷ ts) = str_append s (str_append " " (join_spaces (t ∷ ts)))

-- The parts that a problem and a list of technologies add, if they are not empty.
problem_part : Option String → List String
problem_part none = []
problem_part (some p) = if truthy p then p ∷ [] else []

technologies_part : List String → List String
unfolding join_spaces
technologies_part [] = []
technologies_part (t ∷ ts) = join_spaces (t ∷ ts) ∷ []

unfoldable pub experience_embedding_text : String → List String → Option String → String
unfolding join_spaces problem_part technologies_part
experience_embedding_text task technologies problem =
    join_spaces (task ∷ (technologies_part technologies ++ problem_part problem))
