-- ===== src/Store/Laws.antt =====
-- store.go: what is held after an operation, and under which keys.
use featureflip_go.Base.{
  ◌↔◌, ◌≡◌, refl, sym, ap, ◌∙◌, true, false, List, [], ◌∷◌, Option, none, some, Text, none-ne-some,
  some_eq, text_eq, text_eq_sound, if◌then◌else◌, Bool-cases, if_rule, inl, inr,
}
use featureflip_go.Base.Dict.{Dict, lookup, insert, erase, values, lookup-insert, lookup-erase}
use featureflip_go.Models.{Flag, Segment}
use featureflip_go.Platform.{Platform}
use featureflip_go.Updates.{is_unchanged, member}
use featureflip_go.Updates.Closure.{Reaches, add_prerequisite_dependents-Reaches}
use featureflip_go.Updates.Sorting.{member-sorted_keys}
use featureflip_go.Store.{
  Store, fill_flags, set_all, single_change, set_flag, remove_flag, get_flag,
}

-- The last flag of the list that has the key.
unfoldable pub last_with_key : Text → List Flag → Option Flag → Option Flag
last_with_key k [] found = found
last_with_key k (f ∷ fs) found = last_with_key k fs (if text_eq f.key k then some f else found)

fill_flags-lookup :
    (k : Text) (fs : List Flag) (m : Dict Flag)
    → lookup k (fill_flags fs m) ≡ last_with_key k fs (lookup k m)
unfolding fill_flags last_with_key
fill_flags-lookup k [] m = refl
fill_flags-lookup k (f ∷ fs) m =
    fill_flags-lookup k fs (insert f.key f m) ∙ ap (last_with_key k fs) (lookup-insert f.key k f m)

-- A full snapshot replaces the store: a key gives the last flag of the snapshot that has it, and
-- nothing if none has.
pub get_flag-set_all :
    (go : Platform) (flags : List Flag) (segments : List Segment) (s : Store) (k : Text)
    → get_flag k (set_all go flags segments s).0 ≡ last_with_key k flags none
unfolding get_flag set_all
get_flag-set_all go flags segments s k = fill_flags-lookup k flags [] ∙ unfold lookup in refl

-- Every flag is held under its own key.
abbrev pub IsKeyed : Store → Type 0
IsKeyed s = (k : Text) (f : Flag) → lookup k s.flags ≡ some f → f.key ≡ k

insert-keyed :
    (m : Dict Flag) (flag : Flag)
    → ((k : Text) (f : Flag) → lookup k m ≡ some f → f.key ≡ k)
    → (k : Text) (f : Flag) → lookup k (insert flag.key flag m) ≡ some f
    → f.key ≡ k
insert-keyed m flag keyed k f h = elim (Bool-cases (text_eq flag.key k)) [
  | inl e ↦
      let same : flag ≡ f = some_eq (sym (lookup-insert flag.key k flag m ∙ rw e) ∙ h) in
      sym (ap (λ x. x.key) same) ∙ text_eq_sound flag.key k e
  | inr e ↦ keyed k f (sym (lookup-insert flag.key k flag m ∙ rw e) ∙ h)
]

erase-keyed :
    (m : Dict Flag) (key : Text)
    → ((k : Text) (f : Flag) → lookup k m ≡ some f → f.key ≡ k)
    → (k : Text) (f : Flag) → lookup k (erase key m) ≡ some f
    → f.key ≡ k
erase-keyed m key keyed k f h = elim (Bool-cases (text_eq key k)) [
  | inl e ↦ absurd (none-ne-some (sym (lookup-erase key k m ∙ rw e) ∙ h))
  | inr e ↦ keyed k f (sym (lookup-erase key k m ∙ rw e) ∙ h)
]

fill-keyed :
    (fs : List Flag) (m : Dict Flag)
    → ((k : Text) (f : Flag) → lookup k m ≡ some f → f.key ≡ k)
    → (k : Text) (f : Flag) → lookup k (fill_flags fs m) ≡ some f
    → f.key ≡ k
unfolding fill_flags
fill-keyed [] m keyed = keyed
fill-keyed (g ∷ fs) m keyed = fill-keyed fs (insert g.key g m) (insert-keyed m g keyed)

-- The operations that change the store.
pub data Op : Type 0 where
  sets_all : List Flag → List Segment → Op
  sets_flag : Flag → Op
  removes_flag : Text → Op

abbrev pub step : Platform → Op → Store → Store
step go (sets_all flags segments) s = (set_all go flags segments s).0
step go (sets_flag flag) s = (set_flag go flag s).0
step go (removes_flag key) s = (remove_flag key s).0

nothing-held : (k : Text) (f : Flag) → lookup k [] ≡ some f → f.key ≡ k
unfolding lookup
nothing-held k f h = absurd (none-ne-some h)

remove_flag-IsKeyed :
    (key : Text) (s : Store) (held : Option Flag)
    → lookup key s.flags ≡ held
    → IsKeyed s
    → IsKeyed (remove_flag key s).0
unfolding remove_flag lookup
remove_flag-IsKeyed key s none e keyed = rw (remove_flag, e) keyed
remove_flag-IsKeyed key s (some f) e keyed = rw (remove_flag, e) (erase-keyed s.flags key keyed)

set_flag-IsKeyed :
    (go : Platform) (flag : Flag) (s : Store) → IsKeyed s → IsKeyed (set_flag go flag s).0
unfolding set_flag
set_flag-IsKeyed go flag s keyed =
    if_rule {A = Store × List Text} (λ r. IsKeyed r.0)
      (is_unchanged go.flag_equal flag (lookup flag.key s.flags)) keyed
      (insert-keyed s.flags flag keyed)

-- Every operation keeps each flag under its own key.
pub step-IsKeyed : (go : Platform) (op : Op) (s : Store) → IsKeyed s → IsKeyed (step go op s)
step-IsKeyed go (sets_all flags segments) s keyed =
    unfold set_all in fill-keyed flags [] nothing-held
step-IsKeyed go (sets_flag flag) s keyed = set_flag-IsKeyed go flag s keyed
step-IsKeyed go (removes_flag key) s keyed =
    remove_flag-IsKeyed key s (lookup key s.flags) refl keyed

-- The keys that set_flag and remove_flag report, if any: those that depend on the changed key among
-- the flags that are then held, each once in the order.
pub set_flag-Reaches :
    (go : Platform) (flag : Flag) (s : Store) (k : Text)
    → is_unchanged go.flag_equal flag (lookup flag.key s.flags) ≡ false
    → (member k (set_flag go flag s).1 ≡ true)
      ↔ Reaches (values (set_flag go flag s).0.flags) (flag.key ∷ []) k
unfolding set_flag single_change
set_flag-Reaches go flag s k moved =
    rw (moved, member-sorted_keys)
      (add_prerequisite_dependents-Reaches (values (insert flag.key flag s.flags)) (flag.key ∷ [])
        k)
