-- ===== src/Client/Lifecycle/Tests.antt =====
-- The theorems on the cores of a key, for two goroutines that get a handle, the second while the first
-- has published its core, and close them.
use featureflip_go.Base.{
  ℕ, ◌≡◌, refl, sym, subst, false, List, [], ◌∷◌, ◌++◌, none, some, ltb, take, drop,
  take-append-drop, All, sum,
}
use featureflip_go.Client.Lifecycle.{
  Factory, Pc, start, finished, holding, advance, System, new_system, spawns, moves, Reach, begins,
  goes_on,
}
use featureflip_go.Client.Lifecycle.Counts.{owns}
use featureflip_go.Client.Lifecycle.Unique.{holding-IsEntry}
use featureflip_go.Client.Lifecycle.Ended.{finished-shut_down}

abbrev moved_at : List Pc → List Pc → Factory → System
moved_at before [] m = record { factory = m; pcs = before ++ [] }
moved_at before (p ∷ others) m = record {
  factory = (advance p m).1;
  pcs = before ++ (advance p m).0 ∷ others;
}

-- The goroutine of a number takes its next step.
abbrev stepped : ℕ → System → System
stepped i s = moved_at (take i s.pcs) (drop i s.pcs) s.factory

moved_at-Reach :
    (s : System) (before others : List Pc)
    → Reach s
    → s.pcs ≡ before ++ others
    → Reach (moved_at before others s.factory)
moved_at-Reach s before [] r e = subst (λ ps. Reach (record { factory = s.factory; pcs = ps })) e r
moved_at-Reach s before (p ∷ others) r e = goes_on r (moves before p others e)

abbrev scheduled : List ℕ → System → System
scheduled [] s = s
scheduled (i ∷ is) s = scheduled is (stepped i s)

scheduled-Reach : (is : List ℕ) (s : System) → Reach s → Reach (scheduled is s)
scheduled-Reach [] s r = r
scheduled-Reach (i ∷ is) s r =
    scheduled-Reach is (stepped i s)
      (moved_at-Reach s (take i s.pcs) (drop i s.pcs) r (sym (take-append-drop i s.pcs)))

abbrev two : System
two = record new_system { pcs = start ∷ start ∷ [] }

two_reached : Reach two
two_reached = goes_on (goes_on begins spawns) spawns

-- Both get a handle.
abbrev both_hold : System
both_hold = scheduled (0 ∷ 0 ∷ 0 ∷ 1 ∷ 1 ∷ 0 ∷ []) two

both_held : both_hold.pcs ≡ (holding 0 ∷ []) ++ holding 0 ∷ []
unfolding advance
both_held = refl

holding-IsEntry_example :
    (both_hold.factory.cached ≡ some 0)
    × (both_hold.factory.shut_down 0 ≡ false)
    × (both_hold.factory.ref_count 0 ≡ sum (owns 0) both_hold.pcs)
holding-IsEntry_example =
    holding-IsEntry both_hold (holding 0 ∷ []) 0 []
      (scheduled-Reach (0 ∷ 0 ∷ 0 ∷ 1 ∷ 1 ∷ 0 ∷ []) two two_reached) both_held

-- Both close it.
abbrev both_closed : System
both_closed = scheduled (1 ∷ 0 ∷ 0 ∷ 1 ∷ 1 ∷ 1 ∷ []) both_hold

all_done : All (λ p. p ≡ finished) both_closed.pcs
unfolding advance
all_done = (refl, (refl, tt))

finished-shut_down_example :
    (both_closed.factory.cached ≡ none)
    × (both_closed.factory.ref_count 0 ≡ 0)
    × (both_closed.factory.shut_down 0 ≡ ltb 0 both_closed.factory.created)
finished-shut_down_example =
    finished-shut_down both_closed 0
      (scheduled-Reach (1 ∷ 0 ∷ 0 ∷ 1 ∷ 1 ∷ 1 ∷ []) both_hold
        (scheduled-Reach (0 ∷ 0 ∷ 0 ∷ 1 ∷ 1 ∷ 0 ∷ []) two two_reached))
      all_done
