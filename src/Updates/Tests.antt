-- ===== src/Updates/Tests.antt =====
-- The theorems on the reported keys, for two flags of which one depends on the other.
use featureflip_go.Base.{◌↔◌, [], ◌∷◌, All}
use featureflip_go.Base.Dict.{keys}
use featureflip_go.Samples.{plain, two_flags, a_key, b_key, a_flag, b_flag}
use featureflip_go.Updates.{add_prerequisite_dependents, flag_keys}
use featureflip_go.Updates.Closure.{Has, Reaches, add_prerequisite_dependents-Reaches}
use featureflip_go.Updates.Diff.{diff_snapshot-IsKept, IsKept, Reported}

add_prerequisite_dependents-Reaches_example :
    Has b_key (add_prerequisite_dependents (a_flag ∷ b_flag ∷ []) (a_key ∷ []))
    ↔ Reaches (a_flag ∷ b_flag ∷ []) (a_key ∷ []) b_key
add_prerequisite_dependents-Reaches_example =
    add_prerequisite_dependents-Reaches (a_flag ∷ b_flag ∷ []) (a_key ∷ []) b_key

-- `b` is removed.
diff_snapshot-IsKept_example :
    All
      (λ f.
        ¬ Reported plain two_flags [] (a_flag ∷ []) [] f.key
        → IsKept plain two_flags [] (a_flag ∷ []) [] f)
      (a_flag ∷ [])
    × All
        (λ k. ¬ Reported plain two_flags [] (a_flag ∷ []) [] k → Has k (flag_keys (a_flag ∷ [])))
        (keys two_flags)
diff_snapshot-IsKept_example = diff_snapshot-IsKept plain two_flags [] (a_flag ∷ []) []
