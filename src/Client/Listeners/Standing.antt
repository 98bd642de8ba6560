-- ===== src/Client/Listeners/Standing.antt =====
-- The subscriptions that stand after a history, and how the registry of shared_core.go has them.
use featureflip_go.Base.{
  ℕ, suc, ◌≤◌, ◌<◌, ◌≡◌, refl, sym, ap, ◌∙◌, Bool, true, false, not, List, [], ◌∷◌, ◌++◌, Option,
  none, some, map, if◌then◌else◌, ◌==◌, All, Bool-cases, inl, inr, any,
}
use featureflip_go.Client.Listeners.{
  Registry, put, delete, on_update, unsubscribe, delete_all, close, drop_listeners,
}

-- What a user of the handles of a core does, and the core's shutdown.
pub data Op {ℓ} (L : Type ℓ) : Type ℓ where
  subscribes : ℕ → Option L → Op L
  unsubscribes : ℕ → Op L
  closes : ℕ → Op L
  shuts_down : Op L

-- The standing subscriptions: the handle, the id and the listener of each, in order; how many were
-- made; and which handles are closed.
pub record Standing {ℓ} (L : Type ℓ) : Type ℓ where
  pub subscriptions : List (ℕ × ℕ × L)
  pub made : ℕ
  pub is_closed : ℕ → Bool

abbrev pub has_id : ℕ → List ℕ → Bool
has_id id ids = any (λ j. id == j) ids

module _ {ℓ} {L : Type ℓ} where
  abbrev pub apply_op : Op L → Registry L → Registry L
  apply_op (subscribes h l) r = (on_update h l r).0
  apply_op (unsubscribes id) r = unsubscribe id r
  apply_op (closes h) r = close h r
  apply_op shuts_down r = drop_listeners r

  abbrev pub apply_ops : List (Op L) → Registry L → Registry L
  apply_ops [] r = r
  apply_ops (op ∷ ops) r = apply_ops ops (apply_op op r)

  abbrev pub keep_if : (ℕ → ℕ → Bool) → List (ℕ × ℕ × L) → List (ℕ × ℕ × L)
  keep_if test [] = []
  keep_if test ((h, id, l) ∷ ss) =
      let rest = keep_if test ss in if test h id then (h, id, l) ∷ rest else rest

  -- What an operation means for them.
  abbrev pub subscribed : ℕ → L → Standing L → Standing L
  subscribed h l t = record t {
    subscriptions = t.subscriptions ++ (h, t.made, l) ∷ [];
    made = suc t.made;
  }

  abbrev pub stand : Op L → Standing L → Standing L
  stand (subscribes h none) t = t
  stand (subscribes h (some l)) t = if t.is_closed h then t else subscribed h l t
  stand (unsubscribes id) t = record t {
    subscriptions = keep_if (λ h j. not (j == id)) t.subscriptions;
  }
  stand (closes h) t = record t {
    subscriptions = keep_if (λ g j. not (g == h)) t.subscriptions;
    is_closed = put t.is_closed h true;
  }
  stand shuts_down t = record t { subscriptions = [] }

  abbrev pub stands : List (Op L) → Standing L → Standing L
  stands [] t = t
  stands (op ∷ ops) t = stands ops (stand op t)

  abbrev pub no_subscriptions : Standing L
  no_subscriptions = record { subscriptions = []; made = 0; is_closed = λ h. false }

  abbrev pub entry : ℕ × ℕ × L → ℕ × L
  entry (h, id, l) = (id, l)

  -- A subscription's id is known to its handle alone, and is below the next one.
  abbrev pub IsKnown : Registry L → ℕ × ℕ × L → Type 0
  IsKnown r (h, id, l) = (id < r.next_listener_id) × ((g : ℕ) → has_id id (r.unsubs g) ≡ (h == g))

  pub record Implements (r : Registry L) (t : Standing L) : Type ℓ where
    pub listens : r.update_listeners ≡ map entry t.subscriptions
    pub counts : r.next_listener_id ≡ t.made
    pub closed : (h : ℕ) → r.disposed h ≡ t.is_closed h
    pub knows : All (IsKnown r) t.subscriptions
    pub fresh : (g id : ℕ) → r.next_listener_id ≤ id → has_id id (r.unsubs g) ≡ false
    pub quiet : (h : ℕ) → r.disposed h ≡ true → r.unsubs h ≡ []

  pub delete-entry :
      (id : ℕ) (ss : List (ℕ × ℕ × L))
      → delete id (map entry ss) ≡ map entry (keep_if (λ h j. not (j == id)) ss)
  unfolding delete
  delete-entry id [] = refl
  delete-entry id ((h, j, l) ∷ ss) = elim (Bool-cases (j == id)) [
    | inl e ↦ rw e (delete-entry id ss)
    | inr e ↦ rw e (ap (◌∷◌ (j, l)) (delete-entry id ss))
  ]

  delete_all-cons :
      (ids : List ℕ) (j : ℕ) (l : L) (ls : List (ℕ × L))
      → delete_all ids ((j, l) ∷ ls)
        ≡ (if has_id j ids then delete_all ids ls else (j, l) ∷ delete_all ids ls)
  unfolding delete_all delete
  delete_all-cons [] j l ls = refl
  delete_all-cons (id ∷ ids) j l ls = elim (Bool-cases (j == id)) [
    | inl e ↦ rw e refl
    | inr e ↦ rw e (delete_all-cons ids j l (delete id ls))
  ]

  delete_all-nil : (ids : List ℕ) → delete_all {L = L} ids [] ≡ []
  unfolding delete_all delete
  delete_all-nil [] = refl
  delete_all-nil (id ∷ ids) = delete_all-nil ids

  pub delete_all-entries :
      (h : ℕ) (ids : List ℕ) (r : Registry L) (ss : List (ℕ × ℕ × L))
      → ids ≡ r.unsubs h
      → All (IsKnown r) ss
      → delete_all ids (map entry ss) ≡ map entry (keep_if (λ g j. not (g == h)) ss)
  delete_all-entries h ids r [] e k = delete_all-nil ids
  delete_all-entries h ids r ((g, j, l) ∷ ss) e k =
      let known : has_id j ids ≡ (g == h) = ap (has_id j) e ∙ k.0.1 h in
      let ih = delete_all-entries h ids r ss e k.1 in
      elim (Bool-cases (g == h)) [
        | inl own ↦ rw own (delete_all-cons ids j l (map entry ss) ∙ rw (known ∙ own) ih)
        | inr other ↦
            rw other
              (delete_all-cons ids j l (map entry ss) ∙ rw (known ∙ other) (ap (◌∷◌ (j, l)) ih))
      ]

  pub All-keep :
      (P Q : ℕ × ℕ × L → Type 0) (test : ℕ → ℕ → Bool) (ss : List (ℕ × ℕ × L))
      → ((h id : ℕ) (l : L) → test h id ≡ true → P (h, id, l) → Q (h, id, l))
      → All P ss
      → All Q (keep_if test ss)
  All-keep P Q test [] weaken k = tt
  All-keep P Q test ((h, id, l) ∷ ss) weaken k = elim (Bool-cases (test h id)) [
    | inl e ↦ rw e (weaken h id l e k.0, All-keep P Q test ss weaken k.1)
    | inr e ↦ rw e (All-keep P Q test ss weaken k.1)
  ]

  pub keep_if-same :
      (r : Registry L) (h : ℕ) (ss : List (ℕ × ℕ × L))
      → r.unsubs h ≡ []
      → All (IsKnown r) ss
      → keep_if (λ g j. not (g == h)) ss ≡ ss
  keep_if-same r h [] e k = refl
  keep_if-same r h ((g, j, l) ∷ ss) e k =
      let other : (g == h) ≡ false = sym (k.0.1 h) ∙ ap (has_id j) e in
      rw other (ap (◌∷◌ (g, j, l)) (keep_if-same r h ss e k.1))

  pub map-append :
      (ss : List (ℕ × ℕ × L)) (s : ℕ × ℕ × L)
      → map entry (ss ++ s ∷ []) ≡ map entry ss ++ entry s ∷ []
  map-append [] s = refl
  map-append (x ∷ ss) s = ap (◌∷◌ (entry x)) (map-append ss s)

  pub All-append :
      (P : ℕ × ℕ × L → Type 0) (ss : List (ℕ × ℕ × L)) (s : ℕ × ℕ × L)
      → All P ss
      → P s
      → All P (ss ++ s ∷ [])
  All-append P [] s k p = (p, tt)
  All-append P (x ∷ ss) s k p = (k.0, All-append P ss s k.1 p)
