-- ===== src/Client/Lifecycle/Ended.antt =====
-- featureflip.go and shared_core.go: what is left when every handle is closed.
use featureflip_go.Base.{
  ℕ, ◌≤◌, ◌≡◌, refl, sym, ap, ◌∙◌, subst, true, false, List, [], ◌∷◌, ◌++◌, Option, none, some,
  if◌then◌else◌, if_rule, ltb, leb, ◌==◌, arith, Bool-cases, inl, inr, ◌⊎◌, All, sum, sum-middle,
  one_if, le-sum,
}
use featureflip_go.Client.Lifecycle.{
  Factory, After, closed, retry, Pc, start, missing, finished, found, stale, made, published,
  holding, racing, releasing, dropped, shutting, resume, looked_up, publish, is_entry, forget,
  release, try_acquire, advance, System, Step, spawns, moves, Reach, begins, goes_on,
}
use featureflip_go.Client.Lifecycle.Counts.{
  owns, drops, is_gone, ended, IsFresh, owns-ref_count, Reach-IsCounted,
}
use featureflip_go.Client.Lifecycle.Known.{IsTidy}
use featureflip_go.Client.Lifecycle.Unique.{IsShared, Reach-IsShared, is_entry-forget}

-- The goroutine is on the way to take the core out of the map.
abbrev pub leaves : ℕ → Pc → ℕ
leaves c (dropped d next) = one_if (c == d)
leaves c (shutting d next) = one_if (c == d)
leaves c _ = 0

resume-leaves : (c : ℕ) (next : After) → leaves c (resume next) ≡ 0
resume-leaves c closed = refl
resume-leaves c (retry r) = refl

looked_up-leaves : (c : ℕ) (o : Option ℕ) → leaves c (looked_up o) ≡ 0
looked_up-leaves c none = refl
looked_up-leaves c (some d) = refl

-- If a core without a reference is the entry after a step, the goroutine is to take it out, or it was
-- so before and the goroutine is no less on the way.
abbrev Cares : Pc → Factory → Pc × Factory → ℕ → Type 0
Cares p m r c =
    is_entry c r.1.cached ≡ true
    → r.1.ref_count c ≡ 0
    → (1 ≤ leaves c r.0)
      ⊎ ((is_entry c m.cached ≡ true) × (m.ref_count c ≡ 0) × (leaves c p ≤ leaves c r.0))

acquire-Cares :
    (p : Pc) (d : ℕ) (a r : Pc) (m : Factory) (c : ℕ)
    → leaves c p ≡ 0
    → Cares p m (try_acquire d a r m) c
acquire-Cares p d a r m c e = elim (Bool-cases (leb 1 (m.ref_count d))) [
  | inl alive ↦ rw (try_acquire, alive) (λ h k. inr (h, ground arith, omega (arith, e)))
  | inr dead ↦ rw (try_acquire, dead) (λ h k. inr (h, k, omega (arith, e)))
]

release-Cares :
    (d : ℕ) (next : After) (m : Factory) (c : ℕ)
    → owns c (releasing d next) ≤ m.ref_count c
    → Cares (releasing d next) m (release d next m) c
release-Cares d next m c own = elim (Bool-cases (c == d)) [
  | inl here ↦ λ h k.
      let same : m.ref_count c ≡ m.ref_count d = ap m.ref_count (ground arith) in inl (ground arith)
  | inr other ↦ λ h k. inr (ground arith, ground arith, omega arith)
]

once_shut :
    (d : ℕ) (next : After) (m : Factory) (c : ℕ)
    → ended m c (dropped d next) ≤ one_if (is_gone m c)
    → m.shut_down d ≡ true
    → (c == d) ≡ false
once_shut d next m c end shut = elim (Bool-cases (c == d)) [
  | inl here ↦
      let same : m.shut_down c ≡ m.shut_down d = ap m.shut_down (ground arith) in
      absurd (ground arith)
  | inr other ↦ other
]

-- The removal of shutdown's critical section.
abbrev removed : ℕ → Factory → Factory
removed d m = if m.owned d then forget d m else m

entry_before :
    (d : ℕ) (m : Factory) (c : ℕ)
    → is_entry c (removed d m).cached ≡ true
    → is_entry c m.cached ≡ true
entry_before d m c = elim (Bool-cases (m.owned d)) [
  | inl own ↦ rw (removed, own) (λ h. ground (arith, is_entry-forget d c m))
  | inr other ↦ rw (removed, other) (λ h. h)
]

no_entry_left :
    (d : ℕ) (m : Factory) (c : ℕ)
    → IsTidy m
    → (c == d) ≡ true
    → ¬ (is_entry c (removed d m).cached ≡ true)
no_entry_left d m c tidy here =
    let same : c ≡ d = ground arith in
    elim (Bool-cases (m.owned d)) [
      | inl own ↦
          rw (removed, own)
            (λ h.
              let entry : is_entry d m.cached ≡ is_entry c m.cached =
                ap (λ e. is_entry e m.cached) (sym same) in
              ground (arith, is_entry-forget d c m))
      | inr other ↦
          rw (removed, other)
            (λ h. let owner : m.owned c ≡ m.owned d = ap m.owned same in ground (arith, tidy.0 c h))
    ]

advance-Cares :
    (p : Pc) (m : Factory) (c : ℕ)
    → IsFresh m
    → owns c p ≤ m.ref_count c
    → ended m c p ≤ one_if (is_gone m c)
    → IsTidy m
    → Cares p m (advance p m) c
unfolding advance
advance-Cares start m c fresh own end tidy =
    λ h k. inr (h, k, omega (arith, looked_up-leaves c m.cached))
advance-Cares missing m c fresh own end tidy = λ h k. inr (h, ground (arith, fresh c), omega arith)
advance-Cares finished m c fresh own end tidy = λ h k. inr (h, k, omega arith)
advance-Cares (found d) m c fresh own end tidy =
    acquire-Cares (found d) d (holding d) (stale d) m c refl
advance-Cares (stale d) m c fresh own end tidy =
    λ h k. inr (ground (arith, is_entry-forget d c m), k, omega arith)
advance-Cares (made d) m c fresh own end tidy = at m.cached refl
  where
    at : (o : Option ℕ) → m.cached ≡ o → Cares (made d) m (publish d o m) c
    at none e = λ h k. absurd (ground arith)
    at (some r) e = λ h k. inr (h, k, omega arith)
advance-Cares (published d) m c fresh own end tidy = λ h k. inr (h, k, omega arith)
advance-Cares (holding d) m c fresh own end tidy = λ h k. inr (h, k, omega arith)
advance-Cares (racing d) m c fresh own end tidy =
    acquire-Cares (racing d) d (holding d) start m c refl
advance-Cares (releasing d next) m c fresh own end tidy = release-Cares d next m c own
advance-Cares (dropped d next) m c fresh own end tidy = elim (Bool-cases (m.shut_down d)) [
  | inl shut ↦
      let other : (c == d) ≡ false = once_shut d next m c end shut in
      rw shut (λ h k. inr (h, k, ground arith))
  | inr alive ↦ rw alive (λ h k. inr (h, k, omega arith))
]
advance-Cares (shutting d next) m c fresh own end tidy = elim (Bool-cases (c == d)) [
  | inl here ↦ λ h k. absurd (no_entry_left d m c tidy here h)
  | inr other ↦ λ h k. inr (
    entry_before d m c h,
    if_rule {A = Factory} (λ n. n.ref_count c ≡ 0 → m.ref_count c ≡ 0) (m.owned d) (λ e. e) (λ e. e)
        k,
    ground arith,
  )
]

-- An entry without a reference is about to be taken out.
abbrev pub IsEnding : System → Type 0
IsEnding s =
    (c : ℕ)
    → is_entry c s.factory.cached ≡ true
    → s.factory.ref_count c ≡ 0
    → 1 ≤ sum (leaves c) s.pcs

moved-IsEnding :
    (m : Factory) (before : List Pc) (p : Pc) (others : List Pc)
    → IsShared (record { factory = m; pcs = before ++ p ∷ others })
    → IsEnding (record { factory = m; pcs = before ++ p ∷ others })
    → IsEnding (record { factory = (advance p m).1; pcs = before ++ (advance p m).0 ∷ others })
moved-IsEnding m before p others h ending c entry none_left =
    let end : ended m c p ≤ one_if (is_gone m c) =
      omega (arith, h.counted.ends c, le-sum (drops c) before p others) in
    let new = sum-middle (leaves c) before (advance p m).0 others in
    elim (advance-Cares p m c h.counted.fresh (owns-ref_count m before p others h.counted c) end
      h.tidy entry none_left) [
        | inl here ↦ omega (arith, here, new)
        | inr (was, no_reference, more) ↦
            omega
              (arith, ending c was no_reference, more, new, sum-middle (leaves c) before p others)
      ]

Step-IsEnding : {s t : System} → IsShared s → IsEnding s → Step s t → IsEnding t
Step-IsEnding {s} shared h spawns = λ c entry e. omega (arith, h c entry e)
Step-IsEnding {s} shared h (moves before p others e) =
    moved-IsEnding s.factory before p others
      (subst (λ ps. IsShared (record { factory = s.factory; pcs = ps })) e shared)
      (subst (λ ps. IsEnding (record { factory = s.factory; pcs = ps })) e h)

Reach-IsEnding : {s : System} → Reach s → IsEnding s
Reach-IsEnding begins = λ c h e. ground arith
Reach-IsEnding (goes_on r m) = Step-IsEnding (Reach-IsShared r) (Reach-IsEnding r) m

sum-finished :
    (f : Pc → ℕ) (ps : List Pc) → f finished ≡ 0 → All (λ p. p ≡ finished) ps → sum f ps ≡ 0
sum-finished f [] e h = refl
sum-finished f (p ∷ ps) e h = omega (arith, ap f h.0, e, sum-finished f ps e h.1)

no_entries : (o : Option ℕ) → ((c : ℕ) → ¬ (is_entry c o ≡ true)) → o ≡ none
no_entries none h = refl
no_entries (some c) h = absurd (h c (ground arith))

-- In every interleaving of calls of Get and Close for an SDK key, once all of them have returned and
-- every handle is closed: the cache has no entry for the key, no core has a reference, and exactly the
-- cores that were made have been shut down, those that lost a race in Get among them.
pub finished-shut_down :
    (s : System) (c : ℕ)
    → Reach s
    → All (λ p. p ≡ finished) s.pcs
    → (s.factory.cached ≡ none)
      × (s.factory.ref_count c ≡ 0)
      × (s.factory.shut_down c ≡ ltb c s.factory.created)
finished-shut_down s c r done =
    let counted = Reach-IsCounted r in
    let unowned : (d : ℕ) → s.factory.ref_count d ≡ 0 =
      λ d. counted.counts d ∙ sum-finished (owns d) s.pcs refl done in
    (
      no_entries s.factory.cached (λ d entry.
          let left = Reach-IsEnding r d entry (unowned d) in
          ground (arith, sum-finished (leaves d) s.pcs refl done)),
      unowned c,
      ground (arith, counted.ends c, unowned c, sum-finished (drops c) s.pcs refl done),
    )
