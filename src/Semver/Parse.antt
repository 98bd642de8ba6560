-- ===== src/Semver/Parse.antt =====
-- conditions.go, parseSemver: what it reads back, and what it ignores.
use mathlib.Core.List.{append-nil}
use featureflip_go.Base.{
  ℕ, ◌≡◌, refl, ◌≢◌, Bool, true, false, not, List, [], ◌∷◌, ◌++◌, none, some, Text, arith, all, any,
  leb, ◌&&◌, is_empty, is_digit, ◌==◌, ap, subst, ◌∙◌,
}
use featureflip_go.Semver.{
  SemverVersion, parse_parts, parse_core, parse_prerelease, is_all_digits, cut, split_dots, strip_v,
  parse_trimmed,
}

-- An ASCII byte that is neither a control character nor a space.
abbrev pub is_visible : ℕ → Bool
is_visible c = leb 33 c && leb c 126

-- No byte of the text is `c`.
abbrev pub lacks : ℕ → Text → Bool
lacks c = all (λ x. not (x == c))

cut-append : (c : ℕ) (s t : Text) → lacks c s ≡ true → cut c (s ++ c ∷ t) ≡ (s, some t)
unfolding cut
cut-append c [] t h = ground arith
cut-append c (x ∷ s) t h = ground (arith, cut-append c s t)

cut-lacks : (c : ℕ) (s : Text) → lacks c s ≡ true → cut c s ≡ (s, none)
unfolding cut
cut-lacks c [] h = refl
cut-lacks c (x ∷ s) h = ground (arith, cut-lacks c s)

-- The pieces with a dot between each two.
unfoldable pub join_dots : List Text → Text
join_dots [] = []
join_dots (p ∷ []) = p
join_dots (p ∷ q ∷ ps) = p ++ b'.' ∷ join_dots (q ∷ ps)

split_dots-lacks : (p : Text) → lacks b'.' p ≡ true → split_dots p ≡ p ∷ []
unfolding split_dots
split_dots-lacks [] h = refl
split_dots-lacks (c ∷ p) h = ground (arith, split_dots-lacks p)

split_dots-append :
    (p s : Text) → lacks b'.' p ≡ true → split_dots (p ++ b'.' ∷ s) ≡ p ∷ split_dots s
unfolding split_dots
split_dots-append [] s h = refl
split_dots-append (c ∷ p) s h = ground (arith, split_dots-append p s)

split_dots-join_dots :
    (ps : List Text) → ps ≢ [] → all (lacks b'.') ps ≡ true → split_dots (join_dots ps) ≡ ps
unfolding join_dots
split_dots-join_dots [] n h = absurd (n refl)
split_dots-join_dots (p ∷ []) n h = split_dots-lacks p (ground arith)
split_dots-join_dots (p ∷ q ∷ ps) n h =
    split_dots-append p (join_dots (q ∷ ps)) (ground arith)
    ∙ ap (◌∷◌ p) (split_dots-join_dots (q ∷ ps) (λ e. cc) (ground arith))

-- A version as it is written.
unfoldable pub print : SemverVersion → Text
print v = elim v.prerelease [
  | [] ↦ join_dots v.release
  | id ∷ ids ↦ join_dots v.release ++ b'-' ∷ join_dots (id ∷ ids)
]

-- What can be written: release segments of digits, at least one; prerelease identifiers that are
-- not empty and hold visible bytes, of which none is a dot or a plus sign.
pub record IsPrintable (v : SemverVersion) : Type 0 where
  pub has_release : v.release ≢ []
  pub release_digits : all is_all_digits v.release ≡ true
  pub named : any is_empty v.prerelease ≡ false
  pub dotless : all (lacks b'.') v.prerelease ≡ true
  pub plusless : all (lacks b'+') v.prerelease ≡ true
  pub visible : all (all is_visible) v.prerelease ≡ true

-- A byte that is no digit and no dot does not occur in the core.
digits-lacks : (c : ℕ) → is_digit c ≡ false → (s : Text) → is_all_digits s ≡ true → lacks c s ≡ true
unfolding is_all_digits
digits-lacks c n [] h = cc
digits-lacks c n (x ∷ s) h = rest (x ∷ s) h
  where
    rest : (s : Text) → all is_digit s ≡ true → lacks c s ≡ true
    rest [] h = refl
    rest (x ∷ s) h = ground (arith, rest s)

pub all-append :
    (f : ℕ → Bool) (s t : Text) → all f s ≡ true → all f t ≡ true → all f (s ++ t) ≡ true
all-append f [] t h k = k
all-append f (x ∷ s) t h k = ground (arith, all-append f s t)

pub all-join_dots :
    (f : ℕ → Bool)
    → f b'.' ≡ true
    → (ps : List Text) → all (all f) ps ≡ true
    → all f (join_dots ps) ≡ true
unfolding join_dots
all-join_dots f n [] h = refl
all-join_dots f n (p ∷ []) h = ground arith
all-join_dots f n (p ∷ q ∷ ps) h =
    all-append f p (b'.' ∷ join_dots (q ∷ ps)) (ground arith)
      (ground (arith, all-join_dots f n (q ∷ ps)))

join_dots-lacks :
    (c : ℕ)
    → (b'.' == c) ≡ false
    → (ps : List Text) → all (lacks c) ps ≡ true
    → lacks c (join_dots ps) ≡ true
join_dots-lacks c n ps h = all-join_dots (λ x. not (x == c)) (rw n refl) ps h

pub release-lacks :
    (c : ℕ)
    → is_digit c ≡ false
    → (ps : List Text) → all is_all_digits ps ≡ true
    → all (lacks c) ps ≡ true
release-lacks c n [] h = refl
release-lacks c n (p ∷ ps) h = ground (arith, digits-lacks c n p, release-lacks c n ps)

-- The text starts with a digit.
abbrev pub StartsWithDigit : Text → Type 0
StartsWithDigit [] = ⊥
StartsWithDigit (c ∷ s) = is_digit c ≡ true

pub core-StartsWithDigit :
    (ps : List Text) (t : Text)
    → ps ≢ []
    → all is_all_digits ps ≡ true
    → StartsWithDigit (join_dots ps ++ t)
unfolding join_dots is_all_digits
core-StartsWithDigit [] t n h = absurd (n refl)
core-StartsWithDigit ([] ∷ ps) t n h = ground arith
core-StartsWithDigit ((c ∷ p) ∷ []) t n h = ground arith
core-StartsWithDigit ((c ∷ p) ∷ q ∷ ps) t n h = ground arith

parse_trimmed_digit :
    (t : Text) → StartsWithDigit t → parse_trimmed t ≡ parse_parts (cut b'-' (cut b'+' t).0)
parse_trimmed_digit [] h = absurd h
parse_trimmed_digit (c ∷ s) h = unfold parse_trimmed in rw (kept c s h)
  where
    kept : (c : ℕ) (s : Text) → is_digit c ≡ true → strip_v (c ∷ s) ≡ c ∷ s
    kept c s h = ground arith

StartsWithDigit-nonempty : (t : Text) → StartsWithDigit t → is_empty t ≡ false
StartsWithDigit-nonempty [] h = absurd h
StartsWithDigit-nonempty (c ∷ s) h = refl

join_dots-nonempty :
    (q : Text) (qs : List Text)
    → any is_empty (q ∷ qs) ≡ false
    → is_empty (join_dots (q ∷ qs)) ≡ false
unfolding join_dots
join_dots-nonempty [] qs h = cc
join_dots-nonempty (c ∷ q) [] h = refl
join_dots-nonempty (c ∷ q) (r ∷ qs) h = refl

prerelease_parses :
    (q : Text) (qs : List Text)
    → any is_empty (q ∷ qs) ≡ false
    → all (lacks b'.') (q ∷ qs) ≡ true
    → parse_prerelease (some (join_dots (q ∷ qs))) ≡ some (q ∷ qs)
unfolding parse_prerelease
prerelease_parses q qs e d =
    rw (join_dots-nonempty q qs e, split_dots-join_dots (q ∷ qs) (λ h. cc) d, e)

module _ (rs : List Text) (n : rs ≢ []) (digits : all is_all_digits rs ≡ true) where
  core_dots : split_dots (join_dots rs) ≡ rs
  core_dots = split_dots-join_dots rs n (release-lacks b'.' refl rs digits)

  core_lacks : (c : ℕ) → is_digit c ≡ false → (b'.' == c) ≡ false → lacks c (join_dots rs) ≡ true
  core_lacks c h k = join_dots-lacks c k rs (release-lacks c h rs digits)

  core_nonempty : is_empty (join_dots rs) ≡ false
  core_nonempty =
      StartsWithDigit-nonempty (join_dots rs)
        (subst StartsWithDigit (append-nil (join_dots rs)) (core-StartsWithDigit rs [] n digits))

  core_parses :
      (qs : List Text)
      → parse_core (join_dots rs) qs ≡ some (record { release = rs; prerelease = qs })
  unfolding parse_core
  core_parses qs = rw (core_nonempty, core_dots, digits)

  release_parses : parse_trimmed (join_dots rs) ≡ some (record { release = rs; prerelease = [] })
  release_parses =
      parse_trimmed_digit (join_dots rs)
        (subst StartsWithDigit (append-nil (join_dots rs)) (core-StartsWithDigit rs [] n digits))
      ∙ rw (cut-lacks b'+' (join_dots rs) (core_lacks b'+' refl refl)) (
          rw (cut-lacks b'-' (join_dots rs) (core_lacks b'-' refl refl))
            (unfold parse_parts parse_prerelease in core_parses []))

  suffix_parses :
      (q : Text) (qs : List Text)
      → any is_empty (q ∷ qs) ≡ false
      → all (lacks b'.') (q ∷ qs) ≡ true
      → parse_parts (join_dots rs, some (join_dots (q ∷ qs)))
        ≡ some (record { release = rs; prerelease = q ∷ qs })
  unfolding parse_parts
  suffix_parses q qs e d = rw (prerelease_parses q qs e d, parse_parts) (core_parses (q ∷ qs))

  version_parses :
      (q : Text) (qs : List Text)
      → any is_empty (q ∷ qs) ≡ false
      → all (lacks b'.') (q ∷ qs) ≡ true
      → all (lacks b'+') (q ∷ qs) ≡ true
      → parse_trimmed (join_dots rs ++ b'-' ∷ join_dots (q ∷ qs))
        ≡ some (record { release = rs; prerelease = q ∷ qs })
  version_parses q qs e d p =
      parse_trimmed_digit (join_dots rs ++ b'-' ∷ join_dots (q ∷ qs))
        (core-StartsWithDigit rs (b'-' ∷ join_dots (q ∷ qs)) n digits)
      ∙ rw
          (cut-lacks b'+' (join_dots rs ++ b'-' ∷ join_dots (q ∷ qs)) (
            all-append (λ x. not (x == b'+')) (join_dots rs) (b'-' ∷ join_dots (q ∷ qs))
              (core_lacks b'+' refl refl) (join_dots-lacks b'+' refl (q ∷ qs) p)))
          (rw (cut-append b'-' (join_dots rs) (join_dots (q ∷ qs)) (core_lacks b'-' refl refl))
            (suffix_parses q qs e d))

parse_cases :
    (rs qs : List Text)
    → IsPrintable (record { release = rs; prerelease = qs })
    → parse_trimmed (print (record { release = rs; prerelease = qs }))
      ≡ some (record { release = rs; prerelease = qs })
unfolding print
parse_cases rs [] h = release_parses rs h.has_release h.release_digits
parse_cases rs (q ∷ qs) h =
    version_parses rs h.has_release h.release_digits q qs h.named h.dotless h.plusless

-- The round trip behind the call of strings.TrimSpace.
pub parse_trimmed-print : (v : SemverVersion) → IsPrintable v → parse_trimmed (print v) ≡ some v
parse_trimmed-print v h = parse_cases v.release v.prerelease h

-- What follows the first plus sign of a text that starts with another byte is ignored.
pub parse_trimmed_build :
    (c : ℕ) (s build : Text)
    → lacks b'+' (c ∷ s) ≡ true
    → parse_trimmed ((c ∷ s) ++ b'+' ∷ build) ≡ parse_trimmed (c ∷ s)
unfolding parse_trimmed
parse_trimmed_build c s build h = ground (
  arith,
  cut-append b'+' s build,
  cut-append b'+' (c ∷ s) build h,
  cut-lacks b'+' s,
  cut-lacks b'+' (c ∷ s) h,
)
