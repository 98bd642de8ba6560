-- ===== src/Consistency/Live.antt =====
-- streaming.go and polling.go with evaluation.go: what a live update does not announce evaluates as
-- before.
use featureflip_go.Base.{ℕ, refl, ◌≡◌, ◌≤◌, true, List, some, Text}
use featureflip_go.Base.Dict.{lookup}
use featureflip_go.Models.{Flag, Segment, EvaluationContext}
use featureflip_go.Platform.{Platform}
use featureflip_go.Http.{Codec}
use featureflip_go.Updates.Closure.{Has}
use featureflip_go.Store.{Store, set_all}
use featureflip_go.Streaming.{Answers, handle_event}
use featureflip_go.Evaluation.{evaluate, max_prerequisite_depth}
use featureflip_go.Evaluation.Rules.{Sorts}
use featureflip_go.Evaluation.Reference.{IsRanked}
use featureflip_go.Consistency.{world_of, IsNamed, set_all-Agrees, evaluate-Agrees}
use featureflip_go.Consistency.Deltas.{Keeps, Keeps-same, set_flag-Keeps, remove_flag-Keeps}
use featureflip_go.Streaming.Invariant.{Update, event}
use featureflip_go.Consistency.Announced.{IsUnannounced, IsKeptBy, applied, applied-Kept}
use featureflip_go.Consistency.Held.{flag_held}
use featureflip_go.Consistency.Deltas.{set_flag-held, remove_flag-held}

module _ (go : Platform) (sorts : Sorts go)
    (flags_sound : (f g : Flag) → go.flag_equal f g ≡ true → f ≡ g)
    (segments_sound : (r t : Segment) → go.segment_equal r t ≡ true → r ≡ t) (codec : Codec)
    (ctx : EvaluationContext) (k : Text) (f : Flag) (s : Store) where
  pub Keeps-IsKeptBy : IsKeptBy go k s (Keeps go ctx k f s)
  Keeps-IsKeptBy = record {
    same = Keeps-same go ctx k f s;
    snapshot = λ flags segments silent h keyed named.
        set_all-Agrees go sorts flags_sound segments_sound s flags segments named ctx k f silent h;
    upsert = λ flag. set_flag-Keeps go sorts ctx k f flag s;
    removal = λ key. remove_flag-Keeps go sorts ctx k f key s;
  }

  -- As below, for a flag that is held afterwards.
  pub evaluate-applied :
      (u : Update) (seen : List Text) (rank rank' : Text → ℕ)
      → IsUnannounced k (applied go codec u s).1
      → lookup k (applied go codec u s).0.flags ≡ some f
      → IsNamed (applied go codec u s).0
      → IsRanked rank s.flags
      → IsRanked rank' (applied go codec u s).0.flags
      → rank k ≤ max_prerequisite_depth
      → rank' k ≤ max_prerequisite_depth
      → (evaluate (world_of go ctx s) f seen).0
        ≡ (evaluate (world_of go ctx (applied go codec u s).0) f seen).0
  evaluate-applied u seen rank rank' silent h named ranked ranked' low low' =
      evaluate-Agrees go ctx s (applied go codec u s).0 k f seen rank rank'
        (applied-Kept go codec k s (Keeps go ctx k f s) Keeps-IsKeptBy u silent h ranked'.keyed
          named)
        h ranked ranked' low low'

  -- Whatever event the stream delivers and whatever the server answers: a flag that is held afterwards
  -- and whose key is not announced to the listeners evaluates to the same detail before and after, for
  -- any context. Of the platform: sort.Slice sorts, and reflect.DeepEqual tells different flags and
  -- segments apart. Of both configurations: flags stand under their keys, prerequisites have no cycle
  -- and the flag's rank among them is at most the maximum depth; of the later one: no prerequisite has
  -- the empty key.
  pub evaluate-handle_event :
      (answers : Answers) (event_type payload : Text) (seen : List Text) (rank rank' : Text → ℕ)
      → IsUnannounced k (handle_event go codec answers event_type payload s).1
      → lookup k (handle_event go codec answers event_type payload s).0.flags ≡ some f
      → IsNamed (handle_event go codec answers event_type payload s).0
      → IsRanked rank s.flags
      → IsRanked rank' (handle_event go codec answers event_type payload s).0.flags
      → rank k ≤ max_prerequisite_depth
      → rank' k ≤ max_prerequisite_depth
      → (evaluate (world_of go ctx s) f seen).0
        ≡ (evaluate
            (world_of go ctx (handle_event go codec answers event_type payload s).0)
            f
            seen).0
  evaluate-handle_event answers event_type payload =
      evaluate-applied (event answers event_type payload)

-- What is held under a key that a snapshot or an update does not report.
set_all-held :
    (go : Platform)
    → ((f g : Flag) → go.flag_equal f g ≡ true → f ≡ g)
    → (k : Text) (s : Store) (flags : List Flag) (segments : List Segment)
    → ¬ Has k (set_all go flags segments s).1
    → lookup k s.flags ≡ lookup k (set_all go flags segments s).0.flags
unfolding set_all
set_all-held go flags_sound k s flags segments silent =
    flag_held go flags_sound s flags segments k silent

pub lookup-applied :
    (go : Platform)
    → ((f g : Flag) → go.flag_equal f g ≡ true → f ≡ g)
    → (codec : Codec) (k : Text) (s : Store) (u : Update) → IsUnannounced k (applied go codec u s).1
    → lookup k s.flags ≡ lookup k (applied go codec u s).0.flags
lookup-applied go flags_sound codec k s =
    applied-Kept go codec k s (λ t. lookup k s.flags ≡ lookup k t.flags)
      (record {
        same = refl;
        snapshot = set_all-held go flags_sound k s;
        upsert = λ flag. set_flag-held k go flag s;
        removal = λ key. remove_flag-held k key s;
      })
