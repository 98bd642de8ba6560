-- ===== src/Client/Lifecycle/Known.antt =====
-- featureflip.go, Get and Close: what a goroutine knows of the core it is at, and what a step does to it.
use featureflip_go.Base.{
  ℕ, ◌-◌, ◌≤◌, ◌<◌, ◌≡◌, refl, true, Option, none, some, if_rule, leb, ◌==◌, arith, Bool-cases, inl,
  inr,
}
use featureflip_go.Client.Lifecycle.{
  Factory, After, closed, retry, Pc, start, missing, finished, found, stale, made, published,
  holding, racing, releasing, dropped, shutting, resume, looked_up, publish, is_entry, set, forget,
  release, try_acquire, advance,
}
use featureflip_go.Client.Lifecycle.Counts.{owns, IsFresh}

-- The entry was published; a published core with a reference is the entry; a published core was made.
abbrev pub IsTidy : Factory → Type 0
IsTidy m =
    ((c : ℕ) → is_entry c m.cached ≡ true → m.owned c ≡ true)
    × ((c : ℕ) → m.owned c ≡ true → 1 ≤ m.ref_count c → is_entry c m.cached ≡ true)
    × ((c : ℕ) → m.owned c ≡ true → c < m.created)

abbrev pub IsDead : Factory → ℕ → Type 0
IsDead m c = (m.ref_count c ≡ 0) × (c < m.created)

abbrev pub IsNextFine : Factory → After → Type 0
IsNextFine m closed = Unit
IsNextFine m (retry r) = m.owned r ≡ true

-- What a goroutine knows of the core it is at.
abbrev pub IsFine : Factory → Pc → Type 0
IsFine m start = Unit
IsFine m missing = Unit
IsFine m finished = Unit
IsFine m (found c) = m.owned c ≡ true
IsFine m (stale c) = IsDead m c
IsFine m (made c) = Unit
IsFine m (published c) = m.owned c ≡ true
IsFine m (holding c) = m.owned c ≡ true
IsFine m (racing c) = m.owned c ≡ true
IsFine m (releasing c next) = IsNextFine m next
IsFine m (dropped c next) = IsDead m c × IsNextFine m next
IsFine m (shutting c next) = IsDead m c × IsNextFine m next

-- What the changes of others do not undo.
abbrev pub Later : Factory → Factory → Type 0
Later m n = ((c : ℕ) → m.owned c ≡ true → n.owned c ≡ true) × ((c : ℕ) → IsDead m c → IsDead n c)

Later-next : (m n : Factory) (next : After) → Later m n → IsNextFine m next → IsNextFine n next
Later-next m n closed l h = h
Later-next m n (retry r) l h = l.0 r h

pub Later-fine : (m n : Factory) (p : Pc) → Later m n → IsFine m p → IsFine n p
Later-fine m n start l h = h
Later-fine m n missing l h = h
Later-fine m n finished l h = h
Later-fine m n (found c) l h = l.0 c h
Later-fine m n (stale c) l h = l.1 c h
Later-fine m n (made c) l h = h
Later-fine m n (published c) l h = l.0 c h
Later-fine m n (holding c) l h = l.0 c h
Later-fine m n (racing c) l h = l.0 c h
Later-fine m n (releasing c next) l h = Later-next m n next l h
Later-fine m n (dropped c next) l h = (l.1 c h.0, Later-next m n next l h.1)
Later-fine m n (shutting c next) l h = (l.1 c h.0, Later-next m n next l h.1)

pub advance-Later : (p : Pc) (m : Factory) → IsFresh m → Later m (advance p m).1
unfolding advance
advance-Later start m fresh = (λ c h. h, λ c h. h)
advance-Later missing m fresh = (λ c h. h, λ c h. ground arith)
advance-Later finished m fresh = (λ c h. h, λ c h. h)
advance-Later (found d) m fresh = (λ c h. ground arith, λ c h. ground arith)
advance-Later (stale d) m fresh = (λ c h. h, λ c h. h)
advance-Later (made d) m fresh = at m.cached
  where
    at : (o : Option ℕ) → Later m (publish d o m).1
    at none = (λ c h. ground arith, λ c h. h)
    at (some r) = (λ c h. h, λ c h. h)
advance-Later (published d) m fresh = (λ c h. h, λ c h. h)
advance-Later (holding d) m fresh = (λ c h. h, λ c h. h)
advance-Later (racing d) m fresh = (λ c h. ground arith, λ c h. ground arith)
advance-Later (releasing d next) m fresh = (λ c h. ground arith, λ c h. ground arith)
advance-Later (dropped d next) m fresh =
    if_rule {A = Pc × Factory} (λ r. Later m r.1) (m.shut_down d) (λ c h. h, λ c h. h)
      (λ c h. h, λ c h. h)
advance-Later (shutting d next) m fresh =
    if_rule (Later m) (m.owned d) (λ c h. h, λ c h. h) (λ c h. h, λ c h. h)

pub is_entry_refl : (c : ℕ) → is_entry c (some c) ≡ true
is_entry_refl c = ground arith

resume-IsFine : (m : Factory) (next : After) → IsNextFine m next → IsFine m (resume next)
resume-IsFine m closed h = tt
resume-IsFine m (retry r) h = h

looked_up-IsFine : (m : Factory) (o : Option ℕ) → m.cached ≡ o → IsTidy m → IsFine m (looked_up o)
looked_up-IsFine m none e h = tt
looked_up-IsFine m (some c) e h = h.0 c (rw e (is_entry_refl c))

forget-IsFine :
    (m : Factory) (c : ℕ) (next : After) → IsNextFine m next → IsFine (forget c m) (resume next)
forget-IsFine m c closed h = tt
forget-IsFine m c (retry r) h = h

-- Other references do not matter to what follows a release.
recounted :
    (m : Factory) (counts : ℕ → ℕ) (next : After)
    → IsNextFine m next
    → IsNextFine (record m { ref_count = counts }) next
recounted m counts closed h = h
recounted m counts (retry r) h = h

release-IsFine :
    (m : Factory) (d : ℕ) (next : After)
    → IsFresh m
    → 1 ≤ m.ref_count d
    → IsNextFine m next
    → IsFine (release d next m).1 (release d next m).0
release-IsFine m d next fresh h fine =
    let made_before : d < m.created = ground (arith, fresh d) in
    elim (Bool-cases (leb 1 (m.ref_count d))) [
      | inl some_left ↦ elim (Bool-cases (m.ref_count d - 1 == 0)) [
        | inl last ↦
            rw (release, some_left, last)
              (
                (ground arith, made_before),
                recounted m (set m.ref_count d (m.ref_count d - 1)) next fine,
              )
        | inr more ↦
            rw (release, some_left, more)
              (resume-IsFine (record m { ref_count = set m.ref_count d (m.ref_count d - 1) }) next
                (recounted m (set m.ref_count d (m.ref_count d - 1)) next fine))
      ]
      | inr none_left ↦ absurd (ground arith)
    ]

pub advance-IsFine :
    (p : Pc) (m : Factory)
    → IsFresh m
    → ((c : ℕ) → owns c p ≤ m.ref_count c)
    → IsTidy m
    → IsFine m p
    → IsFine (advance p m).1 (advance p m).0
unfolding advance
advance-IsFine start m fresh h tidy fine = looked_up-IsFine m m.cached refl tidy
advance-IsFine missing m fresh h tidy fine = tt
advance-IsFine finished m fresh h tidy fine = tt
advance-IsFine (found d) m fresh h tidy fine = elim (Bool-cases (leb 1 (m.ref_count d))) [
  | inl alive ↦ rw (try_acquire, alive) fine
  | inr dead ↦ rw (try_acquire, dead) (ground arith, tidy.2 d fine)
]
advance-IsFine (stale d) m fresh h tidy fine = tt
advance-IsFine (made d) m fresh h tidy fine = at m.cached refl
  where
    at : (o : Option ℕ) → m.cached ≡ o → IsFine (publish d o m).1 (publish d o m).0
    at none e = ground arith
    at (some r) e = tidy.0 r (rw e (is_entry_refl r))
advance-IsFine (published d) m fresh h tidy fine = fine
advance-IsFine (holding d) m fresh h tidy fine = tt
advance-IsFine (racing d) m fresh h tidy fine =
    if_rule {A = Pc × Factory} (λ r. IsFine r.1 r.0) (leb 1 (m.ref_count d)) fine tt
advance-IsFine (releasing d next) m fresh h tidy fine =
    release-IsFine m d next fresh (ground (arith, h d)) fine
advance-IsFine (dropped d next) m fresh h tidy fine =
    if_rule {A = Pc × Factory} (λ r. IsFine r.1 r.0) (m.shut_down d) (resume-IsFine m next fine.1)
      fine
advance-IsFine (shutting d next) m fresh h tidy fine =
    if_rule (λ n. IsFine n (resume next)) (m.owned d) (forget-IsFine m d next fine.1)
      (resume-IsFine m next fine.1)
