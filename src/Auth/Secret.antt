-- ===== src/Auth/Secret.antt =====
-- app/core/security.py. SHA-256 is `hash_api_key`, a parameter.
use Prim.Native.String.{◌++◌}
use llm_evaluation_pipeline.Prelude.{String, Bool, ◌==◌, text_comparable}
use llm_evaluation_pipeline.App.{prefix}

abbrev pub dotted : String → String
dotted s = s ++ "..."

-- with the default length
unfoldable pub key_prefix : String → String
key_prefix key = prefix 15 key ++ "..."

-- `compare_digest` tests two texts for equality
unfoldable pub verify_api_key : (String → String) → String → String → Bool
verify_api_key hash_api_key key key_hash = hash_api_key key == key_hash
