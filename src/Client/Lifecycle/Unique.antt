-- ===== src/Client/Lifecycle/Unique.antt =====
-- featureflip.go, Get and Close: the entry of liveCores and the cores that handles are on.
use featureflip_go.Base.{
  ℕ, ◌+◌, ◌-◌, ◌≤◌, ◌≡◌, refl, ap, ◌∙◌, subst, Bool, true, false, List, ◌∷◌, ◌++◌, Option, none,
  some, if◌then◌else◌, if_rule, leb, ◌==◌, arith, Bool-cases, inl, inr, All, All-map, All-middle,
  All-at, sum,
}
use featureflip_go.Client.Lifecycle.{
  Factory, Pc, start, missing, finished, found, stale, made, published, holding, racing, releasing,
  dropped, shutting, publish, is_entry, set, forget, try_acquire, advance, System, Step, spawns,
  moves, Reach, begins, goes_on,
}
use featureflip_go.Client.Lifecycle.Counts.{
  owns, IsFresh, IsCounted, owns-ref_count, moved-IsCounted, Step-IsCounted, Reach-IsCounted,
}
use featureflip_go.Client.Lifecycle.Known.{
  IsTidy, IsFine, Later, Later-fine, advance-Later, advance-IsFine,
}

-- Entries after a change of the map.
pub is_entry-forget :
    (d c : ℕ) (m : Factory)
    → is_entry c (forget d m).cached ≡ (if is_entry d m.cached then false else is_entry c m.cached)
is_entry-forget d c m = at (is_entry d m.cached)
  where
    at :
        (b : Bool)
        → is_entry c (if b then none else m.cached) ≡ (if b then false else is_entry c m.cached)
    at true = refl
    at false = refl

pub is_entry_unique : (c d : ℕ) (o : Option ℕ) → is_entry c o ≡ true → is_entry d o ≡ true → c ≡ d
is_entry_unique c d none h k = cc
is_entry_unique c d (some e) h k = ground arith

is_entry-some : (c : ℕ) (o : Option ℕ) → is_entry c o ≡ true → o ≡ some c
is_entry-some c none h = cc
is_entry-some c (some d) h = ap some (ground arith)

no_entry : (c : ℕ) → ¬ (is_entry c none ≡ true)
no_entry c h = cc

forget-IsTidy : (d : ℕ) (m : Factory) → m.ref_count d ≡ 0 → IsTidy m → IsTidy (forget d m)
forget-IsTidy d m dead tidy = (
  λ c h. tidy.0 c (ground (arith, is_entry-forget d c m)),
  λ c own live.
      let entry = tidy.1 c own live in
      elim (Bool-cases (is_entry d m.cached)) [
        | inl e ↦
            let same : d ≡ c = is_entry_unique d c m.cached e entry in
            absurd (ground (arith, ap m.ref_count same))
        | inr e ↦ is_entry-forget d c m ∙ rw e entry
      ],
  tidy.2,
)

-- A change of a count that revives no core.
counted-IsTidy :
    (d n : ℕ) (m : Factory)
    → (1 ≤ n → 1 ≤ m.ref_count d)
    → IsTidy m
    → IsTidy (record m { ref_count = set m.ref_count d n })
counted-IsTidy d n m revives tidy =
    (tidy.0, λ c own live. tidy.1 c own (ground (arith, revives)), tidy.2)

acquire-IsTidy : (d : ℕ) (a r : Pc) (m : Factory) → IsTidy m → IsTidy (try_acquire d a r m).1
acquire-IsTidy d a r m tidy = elim (Bool-cases (leb 1 (m.ref_count d))) [
  | inl alive ↦
      rw (try_acquire, alive) (counted-IsTidy d (m.ref_count d + 1) m (λ _. ground arith) tidy)
  | inr dead ↦ rw (try_acquire, dead) tidy
]

advance-IsTidy :
    (p : Pc) (m : Factory)
    → IsFresh m
    → ((c : ℕ) → owns c p ≤ m.ref_count c)
    → IsTidy m
    → IsFine m p
    → IsTidy (advance p m).1
unfolding advance
advance-IsTidy start m fresh h tidy fine = tidy
advance-IsTidy missing m fresh h tidy fine = (
  tidy.0,
  λ c own live. tidy.1 c own (ground (arith, tidy.2 c own)),
  λ c own. ground (arith, tidy.2 c own),
)
advance-IsTidy finished m fresh h tidy fine = tidy
advance-IsTidy (found d) m fresh h tidy fine = acquire-IsTidy d (holding d) (stale d) m tidy
advance-IsTidy (stale d) m fresh h tidy fine = forget-IsTidy d m fine.0 tidy
advance-IsTidy (made d) m fresh h tidy fine = at m.cached refl
  where
    at : (o : Option ℕ) → m.cached ≡ o → IsTidy (publish d o m).1
    at none e = (
      λ c k. ground arith,
      λ c own live. elim (Bool-cases (d == c)) [
        | inl here ↦ here
        | inr other ↦
            let entry = tidy.1 c (ground arith) live in
            absurd (no_entry c (subst (λ o. is_entry c o ≡ true) e entry))
      ],
      λ c own. ground (arith, tidy.2 c, h d, fresh d),
    )
    at (some r) e = tidy
advance-IsTidy (published d) m fresh h tidy fine = tidy
advance-IsTidy (holding d) m fresh h tidy fine = tidy
advance-IsTidy (racing d) m fresh h tidy fine = acquire-IsTidy d (holding d) start m tidy
advance-IsTidy (releasing d next) m fresh h tidy fine =
    if_rule {A = Pc × Factory} (λ r. IsTidy r.1) (leb 1 (m.ref_count d))
      (counted-IsTidy d (m.ref_count d - 1) m (λ l. omega arith) tidy) tidy
advance-IsTidy (dropped d next) m fresh h tidy fine =
    if_rule {A = Pc × Factory} (λ r. IsTidy r.1) (m.shut_down d) tidy tidy
advance-IsTidy (shutting d next) m fresh h tidy fine =
    if_rule IsTidy (m.owned d) (forget-IsTidy d m fine.0.0 tidy) tidy

Later-others : (m n : Factory) → Later m n → (ps : List Pc) → All (IsFine m) ps → All (IsFine n) ps
Later-others m n l ps h = All-map (λ p. Later-fine m n p l) ps h

pub record IsShared (s : System) : Type 0 where
  pub counted : IsCounted s
  pub tidy : IsTidy s.factory
  pub fine : All (IsFine s.factory) s.pcs

moved-IsShared :
    (m : Factory) (before : List Pc) (p : Pc) (others : List Pc)
    → IsShared (record { factory = m; pcs = before ++ p ∷ others })
    → IsShared (record { factory = (advance p m).1; pcs = before ++ (advance p m).0 ∷ others })
moved-IsShared m before p others h =
    let held = owns-ref_count m before p others h.counted in
    let known = All-at (IsFine m) before p others h.fine in
    record {
      counted = moved-IsCounted m before p others h.counted;
      tidy = advance-IsTidy p m h.counted.fresh held h.tidy known;
      fine =
          All-middle (IsFine m) (IsFine (advance p m).1) before p (advance p m).0 others
            (Later-others m (advance p m).1 (advance-Later p m h.counted.fresh))
            (advance-IsFine p m h.counted.fresh held h.tidy known) h.fine;
    }

Step-IsShared : {s t : System} → IsShared s → Step s t → IsShared t
Step-IsShared {s} h spawns = record {
  counted = Step-IsCounted h.counted spawns;
  tidy = h.tidy;
  fine = (tt, h.fine);
}
Step-IsShared {s} h (moves before p others e) =
    moved-IsShared s.factory before p others
      (subst (λ ps. IsShared (record { factory = s.factory; pcs = ps })) e h)

pub Reach-IsShared : {s : System} → Reach s → IsShared s
Reach-IsShared begins = record {
  counted = Reach-IsCounted begins;
  tidy = (λ c h. absurd (no_entry c h), λ c h l. ground arith, λ c h. ground arith);
  fine = tt;
}
Reach-IsShared (goes_on r m) = Step-IsShared (Reach-IsShared r) m

-- In every interleaving of calls of Get and Close for an SDK key, a core that a handle is on is the
-- entry of the cache, and its shutdown has not begun; so all handles that are held at a time are on the
-- same core. Its reference count is that of the goroutines with a reference.
pub holding-IsEntry :
    (s : System) (before : List Pc) (c : ℕ) (others : List Pc)
    → Reach s
    → s.pcs ≡ before ++ holding c ∷ others
    → (s.factory.cached ≡ some c)
      × (s.factory.shut_down c ≡ false)
      × (s.factory.ref_count c ≡ sum (owns c) s.pcs)
holding-IsEntry s before c others r e =
    let h = Reach-IsShared r in
    let at = subst (λ ps. IsShared (record { factory = s.factory; pcs = ps })) e h in
    let live : 1 ≤ s.factory.ref_count c =
      ground (arith, owns-ref_count s.factory before (holding c) others at.counted c) in
    (
      is_entry-some c s.factory.cached
          (h.tidy.1 c (All-at (IsFine s.factory) before (holding c) others at.fine) live),
      ground (arith, h.counted.ends c),
      h.counted.counts c,
    )
