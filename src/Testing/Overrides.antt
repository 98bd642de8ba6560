-- ===== src/Testing/Overrides.antt =====
-- testing.go with featureflip.go and evaluation.go: an override is what an accessor gives.
use featureflip_go.Base.{
  ◌≡◌, refl, sym, ap, ◌∙◌, Bool, false, List, [], ◌∷◌, ◌++◌, Option, none, some, Text, codes,
  text_eq, text_eq_refl, if◌then◌else◌, none-ne-some, Bool-cases, inl, inr,
}
use featureflip_go.Base.Dict.{Dict, lookup}
use featureflip_go.Models.{Value, Flag, Rule, EvaluationContext}
use featureflip_go.Platform.{Platform, Unmarshalled}
use featureflip_go.Store.{get_flag, new_store}
use featureflip_go.Store.Laws.{last_with_key, get_flag-set_all}
use featureflip_go.Evaluation.{World, evaluate, served}
use featureflip_go.Evaluation.Plain.{evaluate-plain}
use featureflip_go.Evaluation.Serve.{resolve_serve, resolve_variation_value, variation_exists}
use featureflip_go.Client.{Surroundings, GoType, evaluate_flag, checked, narrow, variation}
use featureflip_go.Client.Reads.{IsAssertion}
use featureflip_go.Testing.{override_flag, add_override, override_flags, for_testing}

abbrev taken : Text → Text → Value → Option Text → Option Flag → Option Flag
taken k key v none before = before
taken k key v (some raw) before = if text_eq key k then some (override_flag key v raw) else before

last_with_key-add :
    (k key : Text) (v : Value) (o : Option Text) (flags : List Flag) (before : Option Flag)
    → last_with_key k (add_override key v o flags) before
      ≡ last_with_key k flags (taken k key v o before)
unfolding last_with_key
last_with_key-add k key v none flags before = refl
last_with_key-add k key v (some raw) flags before = refl

taken-other :
    (k key : Text) (v : Value) (o : Option Text) (before : Option Flag)
    → text_eq key k ≡ false
    → taken k key v o before ≡ before
taken-other k key v none before e = refl
taken-other k key v (some raw) before e = rw e refl

module _ (marshal : Value → Option Text) where
  -- The entries of other keys do not matter.
  last_with_key-other :
      (k : Text) (overrides : Dict Value) (before : Option Flag)
      → lookup k overrides ≡ none
      → last_with_key k (override_flags marshal overrides) before ≡ before
  unfolding last_with_key override_flags lookup
  last_with_key-other k [] before h = refl
  last_with_key-other k ((j, v) ∷ rest) before h = elim (Bool-cases (text_eq j k)) [
    | inl e ↦ absurd (none-ne-some (sym (rw e at h)))
    | inr e ↦
        last_with_key-add k j v (marshal v) (override_flags marshal rest) before
        ∙ last_with_key-other k rest (taken k j v (marshal v) before) (rw e at h)
        ∙ taken-other k j v (marshal v) before e
  ]

  last_with_key-override :
      (k : Text) (v : Value) (raw : Text) (front back : Dict Value) (before : Option Flag)
      → marshal v ≡ some raw
      → lookup k back ≡ none
      → last_with_key k (override_flags marshal (front ++ (k, v) ∷ back)) before
        ≡ some (override_flag k v raw)
  unfolding override_flags
  last_with_key-override k v raw [] back before m h =
      last_with_key-add k k v (marshal v) (override_flags marshal back) before
      ∙ last_with_key-other k back (taken k k v (marshal v) before) h
      ∙ ap (λ o. taken k k v o before) m
      ∙ rw (text_eq_refl k) refl
  last_with_key-override k v raw ((j, u) ∷ front) back before m h =
      last_with_key-add k j u (marshal u) (override_flags marshal (front ++ (k, v) ∷ back)) before
      ∙ last_with_key-override k v raw front back (taken k j u (marshal u) before) m h

abbrev Decodes : Platform → (Value → Option Text) → Value → Text → Type 0
Decodes go marshal v raw = (marshal v ≡ some raw) × (go.unmarshal raw ≡ Unmarshalled.decoded v)

override_value :
    (w : World) (key : Text) (v : Value) (raw : Text) (seen : List Text)
    → ((less : Rule → Rule → Bool) → w.platform.sort_slice less [] ≡ [])
    → w.platform.unmarshal raw ≡ Unmarshalled.decoded v
    → (checked (override_flag key v raw) (evaluate w (override_flag key v raw) seen).0).value ≡ v
unfolding checked served resolve_serve resolve_variation_value variation_exists text_eq
override_value w key v raw seen sorts decodes =
    ap (λ d. (checked (override_flag key v raw) d).value)
      (evaluate-plain w sorts (override_flag key v raw) (codes "value") seen refl refl refl refl)
    ∙ rw decodes refl

-- A read of an override through a typed accessor of an open handle gives the override, whatever the
-- user's context: of an entry of the map, of which no later entry has the key, whose value json.Marshal
-- encodes and json.Unmarshal decodes again, and which is of the accessor's type. Of the platform:
-- sort.Slice leaves an empty slice empty.
pub variation-for_testing :
    {T : Type 0} (ty : GoType T) (here : Surroundings) (marshal : Value → Option Text) (key : Text)
    (ctx : EvaluationContext) (default_value t : T) (raw : Text) (front back : Dict Value)
    → IsAssertion ty
    → ((less : Rule → Rule → Bool) → here.platform.sort_slice less [] ≡ [])
    → marshal (ty.wrap t) ≡ some raw
    → here.platform.unmarshal raw ≡ Unmarshalled.decoded (ty.wrap t)
    → lookup key back ≡ none
    → (variation ty false here key ctx default_value
        (for_testing here.platform marshal (front ++ (key, ty.wrap t) ∷ back))).value
      ≡ t
unfolding variation for_testing evaluate_flag narrow
variation-for_testing ty here marshal key ctx default_value t raw front back asserts sorts encodes
      decodes last =
    let core = for_testing here.platform marshal (front ++ (key, ty.wrap t) ∷ back) in
    let held : get_flag key core.store ≡ some (override_flag key (ty.wrap t) raw) =
      get_flag-set_all here.platform (override_flags marshal (front ++ (key, ty.wrap t) ∷ back)) []
        new_store key
      ∙ last_with_key-override marshal key (ty.wrap t) raw front back none encodes last in
    let value : (evaluate_flag here.platform core.store key ctx (ty.wrap default_value) []).0.value
        ≡ ty.wrap t =
      rw (evaluate_flag, held) (override_value _ key (ty.wrap t) raw [] sorts decodes) in
    rw (narrow, value, asserts.complete t) refl
