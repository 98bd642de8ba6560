-- ===== src/Evaluation/Unbucketable.antt =====
-- unbucketable.go: the process-wide set of the skipped rollouts that were logged.
use featureflip_go.Base.{
  ℕ, ◌||◌, List, ◌∷◌, ◌++◌, Text, codes, is_empty, text_eq, if◌then◌else◌, length, any, leb,
}

abbrev pub max_unbucketable_keys : ℕ
max_unbucketable_keys = 1000

unfoldable pub unbucketable_key : Text → Text → Text → Text
unbucketable_key flag_key rule_id bucket_by =
    flag_key
    ++ 0
      ∷ ((if is_empty rule_id then codes "fallthrough" else codes "rule " ++ rule_id)
          ++ 0 ∷ bucket_by)

-- The new set; the log line is written exactly when the key is added.
unfoldable pub warn_unbucketable : Text → Text → Text → List Text → List Text
warn_unbucketable flag_key rule_id bucket_by seen =
    let key = unbucketable_key flag_key rule_id bucket_by in
    if any (text_eq key) seen || leb max_unbucketable_keys (length seen) then seen else key ∷ seen
