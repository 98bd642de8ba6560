-- ===== src/Client/Lifecycle/Counts.antt =====
-- shared_core.go: the reference count of a core, and how often it is shut down.
use featureflip_go.Base.{
  ℕ, ◌+◌, ◌≤◌, ◌≡◌, refl, ◌∙◌, subst, Bool, ◌&&◌, List, ◌∷◌, ◌++◌, Option, none, some, if_rule, ltb,
  ◌==◌, arith, sum, sum-middle, le-sum, one_if,
}
use featureflip_go.Client.Lifecycle.{
  Factory, After, closed, retry, Pc, start, missing, finished, found, stale, made, published,
  holding, racing, releasing, dropped, shutting, resume, looked_up, publish, advance, System, Step,
  spawns, moves, Reach, begins, goes_on,
}

-- The goroutine has a reference to the core that it has not given up.
abbrev pub owns : ℕ → Pc → ℕ
owns c (made d) = one_if (c == d)
owns c (published d) = one_if (c == d)
owns c (holding d) = one_if (c == d)
owns c (releasing d next) = one_if (c == d)
owns c _ = 0

-- It has given up the last one, and not yet looked whether the core is shut down.
abbrev pub drops : ℕ → Pc → ℕ
drops c (dropped d next) = one_if (c == d)
drops c _ = 0

-- A core that was made and has no reference.
abbrev pub is_gone : Factory → ℕ → Bool
is_gone m c = ltb c m.created && m.ref_count c == 0

abbrev pub IsFresh : Factory → Type 0
IsFresh m = (c : ℕ) → m.created ≤ c → m.ref_count c ≡ 0

resume-owns : (c : ℕ) (next : After) → owns c (resume next) ≡ 0
resume-owns c closed = refl
resume-owns c (retry r) = refl

looked_up-owns : (c : ℕ) (o : Option ℕ) → owns c (looked_up o) ≡ 0
looked_up-owns c none = refl
looked_up-owns c (some d) = refl

-- A step changes the count of references as it changes the reference of its goroutine.
balance :
    (p : Pc) (m : Factory) (c : ℕ)
    → IsFresh m
    → owns c p ≤ m.ref_count c
    → (advance p m).1.ref_count c + owns c p ≡ m.ref_count c + owns c (advance p m).0
unfolding advance
balance start m c fresh h = omega (arith, looked_up-owns c m.cached)
balance missing m c fresh h = ground (arith, fresh m.created)
balance finished m c fresh h = refl
balance (found d) m c fresh h = ground arith
balance (stale d) m c fresh h = ground arith
balance (made d) m c fresh h = at m.cached
  where
    at :
        (o : Option ℕ)
        → (publish d o m).1.ref_count c + owns c (made d) ≡ m.ref_count c + owns c (publish d o m).0
    at none = refl
    at (some r) = refl
balance (published d) m c fresh h = refl
balance (holding d) m c fresh h = refl
balance (racing d) m c fresh h = ground arith
balance (releasing d next) m c fresh h = ground (arith, resume-owns c next)
balance (dropped d next) m c fresh h = ground (arith, resume-owns c next)
balance (shutting d next) m c fresh h = ground (arith, resume-owns c next)

pub advance-IsFresh :
    (p : Pc) (m : Factory)
    → IsFresh m
    → ((c : ℕ) → owns c p ≤ m.ref_count c)
    → IsFresh (advance p m).1
unfolding advance
advance-IsFresh start m fresh h = fresh
advance-IsFresh missing m fresh h = λ c le. ground (arith, fresh c)
advance-IsFresh finished m fresh h = fresh
advance-IsFresh (found d) m fresh h = λ c le. ground (arith, fresh c)
advance-IsFresh (stale d) m fresh h = fresh
advance-IsFresh (made d) m fresh h = at m.cached
  where
    at : (o : Option ℕ) → IsFresh (publish d o m).1
    at none = fresh
    at (some r) = fresh
advance-IsFresh (published d) m fresh h = fresh
advance-IsFresh (holding d) m fresh h = fresh
advance-IsFresh (racing d) m fresh h = λ c le. ground (arith, fresh c)
advance-IsFresh (releasing d next) m fresh h = λ c le. ground (arith, fresh c)
advance-IsFresh (dropped d next) m fresh h =
    if_rule {A = Pc × Factory} (λ r. IsFresh r.1) (m.shut_down d) fresh fresh
advance-IsFresh (shutting d next) m fresh h = if_rule IsFresh (m.owned d) fresh fresh

resume-drops : (c : ℕ) (next : After) → drops c (resume next) ≡ 0
resume-drops c closed = refl
resume-drops c (retry r) = refl

looked_up-drops : (c : ℕ) (o : Option ℕ) → drops c (looked_up o) ≡ 0
looked_up-drops c none = refl
looked_up-drops c (some d) = refl

-- A core without a reference has one goroutine that is to shut it down, or is shut down.
abbrev pub ended : Factory → ℕ → Pc → ℕ
ended m c p = drops c p + one_if (m.shut_down c)

pub gone_balance :
    (p : Pc) (m : Factory) (c : ℕ)
    → IsFresh m
    → owns c p ≤ m.ref_count c
    → ended m c p ≤ one_if (is_gone m c)
    → ended (advance p m).1 c (advance p m).0 + one_if (is_gone m c)
      ≡ ended m c p + one_if (is_gone (advance p m).1 c)
unfolding advance
gone_balance start m c fresh h k = omega (arith, looked_up-drops c m.cached)
gone_balance missing m c fresh h k = ground (arith, fresh m.created)
gone_balance finished m c fresh h k = refl
gone_balance (found d) m c fresh h k = ground arith
gone_balance (stale d) m c fresh h k = refl
gone_balance (made d) m c fresh h k = at m.cached
  where
    at :
        (o : Option ℕ)
        → ended (publish d o m).1 c (publish d o m).0 + one_if (is_gone m c)
          ≡ ended m c (made d) + one_if (is_gone (publish d o m).1 c)
    at none = refl
    at (some r) = refl
gone_balance (published d) m c fresh h k = refl
gone_balance (holding d) m c fresh h k = refl
gone_balance (racing d) m c fresh h k = ground arith
gone_balance (releasing d next) m c fresh h k = ground (arith, fresh c, resume-drops c next)
gone_balance (dropped d next) m c fresh h k = ground (arith, resume-drops c next)
gone_balance (shutting d next) m c fresh h k = ground (arith, resume-drops c next)

pub record IsCounted (s : System) : Type 0 where
  pub fresh : IsFresh s.factory
  pub counts : (c : ℕ) → s.factory.ref_count c ≡ sum (owns c) s.pcs
  pub ends :
      (c : ℕ) → sum (drops c) s.pcs + one_if (s.factory.shut_down c) ≡ one_if (is_gone s.factory c)

module _ (m : Factory) (before : List Pc) (p : Pc) (others : List Pc)
    (h : IsCounted (record { factory = m; pcs = before ++ p ∷ others })) where
  pub owns-ref_count : (c : ℕ) → owns c p ≤ m.ref_count c
  owns-ref_count c = omega (arith, h.counts c, le-sum (owns c) before p others)

  pub moved-IsCounted :
      IsCounted (record { factory = (advance p m).1; pcs = before ++ (advance p m).0 ∷ others })
  moved-IsCounted = record {
    fresh = advance-IsFresh p m h.fresh owns-ref_count;
    counts = λ c.
        let step = balance p m c h.fresh (owns-ref_count c) in
        omega (
          arith,
          step,
          h.counts c,
          sum-middle (owns c) before p others,
          sum-middle (owns c) before (advance p m).0 others,
        );
    ends = λ c.
        let k : ended m c p ≤ one_if (is_gone m c) =
          omega (arith, h.ends c, le-sum (drops c) before p others) in
        let step = gone_balance p m c h.fresh (owns-ref_count c) k in
        omega (
          arith,
          step,
          h.ends c,
          sum-middle (drops c) before p others,
          sum-middle (drops c) before (advance p m).0 others,
        );
  }

pub Step-IsCounted : {s t : System} → IsCounted s → Step s t → IsCounted t
Step-IsCounted {s} h spawns = record {
  fresh = h.fresh;
  counts = λ c. h.counts c ∙ omega arith;
  ends = λ c. omega (arith, h.ends c);
}
Step-IsCounted {s} h (moves before p others e) =
    moved-IsCounted s.factory before p others
      (subst (λ ps. IsCounted (record { factory = s.factory; pcs = ps })) e h)

pub Reach-IsCounted : {s : System} → Reach s → IsCounted s
Reach-IsCounted begins = record {
  fresh = λ c le. refl;
  counts = λ c. refl;
  ends = λ c. ground arith;
}
Reach-IsCounted (goes_on r m) = Step-IsCounted (Reach-IsCounted r) m
