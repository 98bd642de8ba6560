-- ===== src/Consistency/Lookups.antt =====
-- store.go and updates.go: what a key gives after the loops that fill the new maps.
use featureflip_go.Base.{
  ◌≡◌, refl, sym, ap, ◌∙◌, subst, Bool, true, false, not, ◌&&◌, List, [], ◌∷◌, Option, none, some,
  Text, All, is_empty, any, Bool-cases, ◌⊎◌, inl, inr, if◌then◌else◌, arith, text_eq, text_eq_sound,
  some_eq, none-ne-some,
}
use featureflip_go.Base.Dict.{Dict, lookup, keys, lookup-insert}
use featureflip_go.Models.{Flag, Rule, Segment}
use featureflip_go.Updates.{member, flag_keys, segment_keys, is_unchanged, refers_to}
use featureflip_go.Updates.Closure.{Has}
use featureflip_go.Store.{fill_flags, fill_segments}

-- The last element of the list that has the key.
unfoldable pub last_by : {A : Type 0} → (A → Text) → Text → List A → Option A → Option A
last_by key k [] found = found
last_by key k (x ∷ xs) found = last_by key k xs (if text_eq (key x) k then some x else found)

pub fill_flags-last :
    (k : Text) (fs : List Flag) (m : Dict Flag)
    → lookup k (fill_flags fs m) ≡ last_by (λ f. f.key) k fs (lookup k m)
unfolding fill_flags last_by
fill_flags-last k [] m = refl
fill_flags-last k (f ∷ fs) m =
    fill_flags-last k fs _ ∙ ap (last_by (λ g. g.key) k fs) (lookup-insert f.key k f m)

pub fill_segments-last :
    (k : Text) (ss : List Segment) (m : Dict Segment)
    → lookup k (fill_segments ss m) ≡ last_by (λ s. s.key) k ss (lookup k m)
unfolding fill_segments last_by
fill_segments-last k [] m = refl
fill_segments-last k (s ∷ ss) m =
    fill_segments-last k ss _ ∙ ap (last_by (λ g. g.key) k ss) (lookup-insert s.key k s m)

module _ {A : Type 0} (key : A → Text) (k : Text) where
  -- If each element of the key is the one that was held, and one has the key or nothing was held,
  -- then it is what is found.
  pub last_by-held :
      (held : Option A) (xs : List A) (found : Option A)
      → All (λ x. key x ≡ k → held ≡ some x) xs
      → (found ≡ held) ⊎ (any (λ x. text_eq (key x) k) xs ≡ true)
      → last_by key k xs found ≡ held
  unfolding last_by
  last_by-held held [] found same (inl e) = e
  last_by-held held [] found same (inr e) = cc
  last_by-held held (x ∷ xs) found same h = elim (Bool-cases (text_eq (key x) k)) [
    | inl t ↦
        rw t (last_by-held held xs (some x) same.1 (inl (sym (same.0 (text_eq_sound (key x) k t)))))
    | inr t ↦ rw t (last_by-held held xs found same.1 (later t h))
  ]
    where
      later :
          text_eq (key x) k ≡ false
          → (found ≡ held) ⊎ (any (λ y. text_eq (key y) k) (x ∷ xs) ≡ true)
          → (found ≡ held) ⊎ (any (λ y. text_eq (key y) k) xs ≡ true)
      later t (inl e) = inl e
      later t (inr e) = inr (ground arith)

  -- What holds of each element of the key holds of the one that is found.
  pub last_by-All {κ} :
      (P : A → Type κ) (xs : List A) (found : Option A) {a : A}
      → All (λ x. key x ≡ k → P x) xs
      → ((b : A) → found ≡ some b → P b)
      → last_by key k xs found ≡ some a
      → P a
  unfolding last_by
  last_by-All P [] found h f e = f _ e
  last_by-All P (x ∷ xs) found h f e = elim (Bool-cases (text_eq (key x) k)) [
    | inl t ↦
        last_by-All P xs (some x) h.1 (λ b s. subst P (some_eq s) (h.0 (text_eq_sound (key x) k t)))
          (rw t at e)
    | inr t ↦ last_by-All P xs found h.1 f (rw t at e)
  ]

pub lookup-Has {ℓ} :
    {V : Type ℓ} (k : Text) (m : Dict V) {v : V} → lookup k m ≡ some v → Has k (keys m)
unfolding lookup keys member
lookup-Has k [] h = absurd (none-ne-some h)
lookup-Has k ((j, w) ∷ m) h = elim (Bool-cases (text_eq j k)) [
  | inl t ↦ rw t refl
  | inr t ↦ rw t (lookup-Has k m (rw t at h))
]

pub All-Has {κ} : (P : Text → Type κ) (k : Text) (ks : List Text) → All P ks → Has k ks → P k
unfolding member
All-Has P k [] h m = cc
All-Has P k (j ∷ ks) h m = elim (Bool-cases (text_eq j k)) [
  | inl t ↦ subst P (text_eq_sound j k t) h.0
  | inr t ↦ All-Has P k ks h.1 (rw t at m)
]

pub flag_keys-any :
    (k : Text) (fs : List Flag) → member k (flag_keys fs) ≡ any (λ f. text_eq f.key k) fs
unfolding member flag_keys
flag_keys-any k [] = refl
flag_keys-any k (f ∷ fs) = rw (flag_keys-any k fs) refl

pub segment_keys-any :
    (k : Text) (ss : List Segment) → member k (segment_keys ss) ≡ any (λ s. text_eq s.key k) ss
unfolding member segment_keys
segment_keys-any k [] = refl
segment_keys-any k (s ∷ ss) = rw (segment_keys-any k ss) refl

pub is_unchanged-held {ℓ} :
    {A : Type ℓ} (same : A → A → Bool)
    → ((a b : A) → same a b ≡ true → a ≡ b)
    → (next : A) (previous : Option A) → is_unchanged same next previous ≡ true
    → previous ≡ some next
is_unchanged-held same sound next none h = cc
is_unchanged-held same sound next (some a) h = ap some (sound a next h)

pub unreferred :
    (segments : List Text) (rs : List Rule)
    → any (λ r. not (is_empty r.segment_key) && member r.segment_key segments) rs ≡ false
    → All (λ r. (is_empty r.segment_key ≡ true) ⊎ ¬ Has r.segment_key segments) rs
unreferred segments [] h = tt
unreferred segments (r ∷ rs) h = (
  elim (Bool-cases (is_empty r.segment_key)) [ inl e ↦ inl e | inr e ↦ inr (λ m. ground arith) ],
  unreferred segments rs (ground arith),
)

pub All-both {ℓ κ μ} :
    {A : Type ℓ} (P : A → Type κ) (Q : A → Type μ) (xs : List A)
    → All P xs
    → All Q xs
    → All (λ x. P x × Q x) xs
All-both P Q [] p q = tt
All-both P Q (x ∷ xs) p q = ((p.0, q.0), All-both P Q xs p.1 q.1)

pub unreferred_rules :
    (segments : List Text) (f : Flag)
    → refers_to segments f ≡ false
    → All (λ r. (is_empty r.segment_key ≡ true) ⊎ ¬ Has r.segment_key segments) f.rules
unfolding refers_to
unreferred_rules segments f h = unreferred segments f.rules h
