-- ===== src/Samples/Equal.antt =====
-- Structural equality of flags and segments: it does what the code needs of reflect.DeepEqual.
use featureflip_go.Base.{
  Bool, true, false, not, ◌&&◌, List, [], ◌∷◌, ◌≡◌, refl, ap, text_eq, text_eq_sound, arith, ◌==◌,
}
use featureflip_go.Base.Int.{ℤ, pos, negsuc}
use featureflip_go.Models.{
  Flag, Rule, Segment, Prerequisite, ServeConfig, Variation, Condition, ConditionGroup,
  WeightedVariation,
}

both : (a b : Bool) → (a && b) ≡ true → (a ≡ true) × (b ≡ true)
both true b h = (refl, h)
both false b h = cc

-- A test that tells different values apart.
abbrev pub IsSoundTest {ℓ} : {A : Type ℓ} → (A → A → Bool) → Type ℓ
IsSoundTest same = (a b : _) → same a b ≡ true → a ≡ b

unfoldable pub list_eq {ℓ} : {A : Type ℓ} → (A → A → Bool) → List A → List A → Bool
list_eq same [] [] = true
list_eq same [] (b ∷ bs) = false
list_eq same (a ∷ as') [] = false
list_eq same (a ∷ as') (b ∷ bs) = same a b && list_eq same as' bs

list_eq_sound {ℓ} :
    {A : Type ℓ} (same : A → A → Bool) → IsSoundTest same → IsSoundTest (list_eq same)
unfolding list_eq
list_eq_sound same sound [] [] h = refl
list_eq_sound same sound [] (b ∷ bs) h = cc
list_eq_sound same sound (a ∷ as') [] h = cc
list_eq_sound same sound (a ∷ as') (b ∷ bs) h =
    let (x, y) = both (same a b) (list_eq same as' bs) h in
    λ i. sound a b x i ∷ list_eq_sound same sound as' bs y i

unfoldable pub bool_eq : Bool → Bool → Bool
bool_eq true b = b
bool_eq false b = not b

bool_eq_sound : IsSoundTest bool_eq
unfolding bool_eq
bool_eq_sound true true h = refl
bool_eq_sound true false h = cc
bool_eq_sound false true h = cc
bool_eq_sound false false h = refl

unfoldable pub int_eq : ℤ → ℤ → Bool
int_eq (pos m) (pos n) = m == n
int_eq (pos m) (negsuc n) = false
int_eq (negsuc m) (pos n) = false
int_eq (negsuc m) (negsuc n) = m == n

int_eq_sound : IsSoundTest int_eq
unfolding int_eq
int_eq_sound (pos m) (pos n) h = ap pos (ground arith)
int_eq_sound (pos m) (negsuc n) h = cc
int_eq_sound (negsuc m) (pos n) h = cc
int_eq_sound (negsuc m) (negsuc n) h = ap negsuc (ground arith)

unfoldable pub weighted_eq : WeightedVariation → WeightedVariation → Bool
weighted_eq a b = text_eq a.key b.key && int_eq a.weight b.weight

weighted_eq_sound : IsSoundTest weighted_eq
unfolding weighted_eq
weighted_eq_sound a b h =
    let (x, y) = both (text_eq a.key b.key) (int_eq a.weight b.weight) h in
    λ i. record { key = text_eq_sound a.key b.key x i; weight = int_eq_sound a.weight b.weight y i }

unfoldable pub serve_eq : ServeConfig → ServeConfig → Bool
serve_eq a b =
    text_eq a.serve_type b.serve_type
    && (text_eq a.variation b.variation
        && (text_eq a.bucket_by b.bucket_by
            && (text_eq a.salt b.salt && list_eq weighted_eq a.variations b.variations)))

serve_eq_sound : IsSoundTest serve_eq
unfolding serve_eq
serve_eq_sound a b h =
    let (e0, r0) =
      both (text_eq a.serve_type b.serve_type)
        (text_eq a.variation b.variation
          && (text_eq a.bucket_by b.bucket_by
              && (text_eq a.salt b.salt && list_eq weighted_eq a.variations b.variations)))
        h in
    let (e1, r1) =
      both (text_eq a.variation b.variation)
        (text_eq a.bucket_by b.bucket_by
          && (text_eq a.salt b.salt && list_eq weighted_eq a.variations b.variations))
        r0 in
    let (e2, r2) =
      both (text_eq a.bucket_by b.bucket_by)
        (text_eq a.salt b.salt && list_eq weighted_eq a.variations b.variations) r1 in
    let (e3, r3) =
      both (text_eq a.salt b.salt) (list_eq weighted_eq a.variations b.variations) r2 in
    λ i. record {
      serve_type = text_eq_sound a.serve_type b.serve_type e0 i;
      variation = text_eq_sound a.variation b.variation e1 i;
      bucket_by = text_eq_sound a.bucket_by b.bucket_by e2 i;
      salt = text_eq_sound a.salt b.salt e3 i;
      variations = list_eq_sound weighted_eq weighted_eq_sound a.variations b.variations r3 i;
    }

unfoldable pub condition_eq : Condition → Condition → Bool
condition_eq a b =
    text_eq a.attribute b.attribute
    && (text_eq a.operator b.operator
        && (list_eq text_eq a.values b.values && bool_eq a.negate b.negate))

condition_eq_sound : IsSoundTest condition_eq
unfolding condition_eq
condition_eq_sound a b h =
    let (e0, r0) =
      both (text_eq a.attribute b.attribute)
        (text_eq a.operator b.operator
          && (list_eq text_eq a.values b.values && bool_eq a.negate b.negate))
        h in
    let (e1, r1) =
      both (text_eq a.operator b.operator)
        (list_eq text_eq a.values b.values && bool_eq a.negate b.negate) r0 in
    let (e2, r2) = both (list_eq text_eq a.values b.values) (bool_eq a.negate b.negate) r1 in
    λ i. record {
      attribute = text_eq_sound a.attribute b.attribute e0 i;
      operator = text_eq_sound a.operator b.operator e1 i;
      values = list_eq_sound text_eq text_eq_sound a.values b.values e2 i;
      negate = bool_eq_sound a.negate b.negate r2 i;
    }

unfoldable pub group_eq : ConditionGroup → ConditionGroup → Bool
group_eq a b = text_eq a.operator b.operator && list_eq condition_eq a.conditions b.conditions

group_eq_sound : IsSoundTest group_eq
unfolding group_eq
group_eq_sound a b h =
    let (e0, r0) =
      both (text_eq a.operator b.operator) (list_eq condition_eq a.conditions b.conditions) h in
    λ i. record {
      operator = text_eq_sound a.operator b.operator e0 i;
      conditions = list_eq_sound condition_eq condition_eq_sound a.conditions b.conditions r0 i;
    }

unfoldable pub rule_eq : Rule → Rule → Bool
rule_eq a b =
    text_eq a.id b.id
    && (int_eq a.priority b.priority
        && (list_eq group_eq a.condition_groups b.condition_groups
            && (serve_eq a.serve b.serve && text_eq a.segment_key b.segment_key)))

rule_eq_sound : IsSoundTest rule_eq
unfolding rule_eq
rule_eq_sound a b h =
    let (e0, r0) =
      both (text_eq a.id b.id)
        (int_eq a.priority b.priority
          && (list_eq group_eq a.condition_groups b.condition_groups
              && (serve_eq a.serve b.serve && text_eq a.segment_key b.segment_key)))
        h in
    let (e1, r1) =
      both (int_eq a.priority b.priority)
        (list_eq group_eq a.condition_groups b.condition_groups
          && (serve_eq a.serve b.serve && text_eq a.segment_key b.segment_key))
        r0 in
    let (e2, r2) =
      both (list_eq group_eq a.condition_groups b.condition_groups)
        (serve_eq a.serve b.serve && text_eq a.segment_key b.segment_key) r1 in
    let (e3, r3) = both (serve_eq a.serve b.serve) (text_eq a.segment_key b.segment_key) r2 in
    λ i. record {
      id = text_eq_sound a.id b.id e0 i;
      priority = int_eq_sound a.priority b.priority e1 i;
      condition_groups =
          list_eq_sound group_eq group_eq_sound a.condition_groups b.condition_groups e2 i;
      serve = serve_eq_sound a.serve b.serve e3 i;
      segment_key = text_eq_sound a.segment_key b.segment_key r3 i;
    }

unfoldable pub variation_eq : Variation → Variation → Bool
variation_eq a b = text_eq a.key b.key && text_eq a.value b.value

variation_eq_sound : IsSoundTest variation_eq
unfolding variation_eq
variation_eq_sound a b h =
    let (e0, r0) = both (text_eq a.key b.key) (text_eq a.value b.value) h in
    λ i. record { key = text_eq_sound a.key b.key e0 i; value = text_eq_sound a.value b.value r0 i }

unfoldable pub prerequisite_eq : Prerequisite → Prerequisite → Bool
prerequisite_eq a b =
    text_eq a.prerequisite_flag_key b.prerequisite_flag_key
    && text_eq a.expected_variation_key b.expected_variation_key

prerequisite_eq_sound : IsSoundTest prerequisite_eq
unfolding prerequisite_eq
prerequisite_eq_sound a b h =
    let (e0, r0) =
      both (text_eq a.prerequisite_flag_key b.prerequisite_flag_key)
        (text_eq a.expected_variation_key b.expected_variation_key) h in
    λ i. record {
      prerequisite_flag_key = text_eq_sound a.prerequisite_flag_key b.prerequisite_flag_key e0 i;
      expected_variation_key = text_eq_sound a.expected_variation_key b.expected_variation_key r0 i;
    }

unfoldable pub segment_eq : Segment → Segment → Bool
segment_eq a b =
    text_eq a.key b.key
    && (int_eq a.version b.version
        && (list_eq condition_eq a.conditions b.conditions
            && text_eq a.condition_logic b.condition_logic))

pub segment_eq_sound : IsSoundTest segment_eq
unfolding segment_eq
segment_eq_sound a b h =
    let (e0, r0) =
      both (text_eq a.key b.key)
        (int_eq a.version b.version
          && (list_eq condition_eq a.conditions b.conditions
              && text_eq a.condition_logic b.condition_logic))
        h in
    let (e1, r1) =
      both (int_eq a.version b.version)
        (list_eq condition_eq a.conditions b.conditions
          && text_eq a.condition_logic b.condition_logic)
        r0 in
    let (e2, r2) =
      both (list_eq condition_eq a.conditions b.conditions)
        (text_eq a.condition_logic b.condition_logic) r1 in
    λ i. record {
      key = text_eq_sound a.key b.key e0 i;
      version = int_eq_sound a.version b.version e1 i;
      conditions = list_eq_sound condition_eq condition_eq_sound a.conditions b.conditions e2 i;
      condition_logic = text_eq_sound a.condition_logic b.condition_logic r2 i;
    }

unfoldable pub flag_eq : Flag → Flag → Bool
flag_eq a b =
    text_eq a.key b.key
    && (int_eq a.version b.version
        && (text_eq a.flag_type b.flag_type
            && (bool_eq a.enabled b.enabled
                && (list_eq variation_eq a.variations b.variations
                    && (list_eq rule_eq a.rules b.rules
                        && (serve_eq a.fallthrough b.fallthrough
                            && (text_eq a.off_variation b.off_variation
                                && list_eq prerequisite_eq a.prerequisites b.prerequisites)))))))

pub flag_eq_sound : IsSoundTest flag_eq
unfolding flag_eq
flag_eq_sound a b h =
    let (e0, r0) =
      both (text_eq a.key b.key)
        (int_eq a.version b.version
          && (text_eq a.flag_type b.flag_type
              && (bool_eq a.enabled b.enabled
                  && (list_eq variation_eq a.variations b.variations
                      && (list_eq rule_eq a.rules b.rules
                          && (serve_eq a.fallthrough b.fallthrough
                              && (text_eq a.off_variation b.off_variation
                                  && list_eq prerequisite_eq a.prerequisites b.prerequisites)))))))
        h in
    let (e1, r1) =
      both (int_eq a.version b.version)
        (text_eq a.flag_type b.flag_type
          && (bool_eq a.enabled b.enabled
              && (list_eq variation_eq a.variations b.variations
                  && (list_eq rule_eq a.rules b.rules
                      && (serve_eq a.fallthrough b.fallthrough
                          && (text_eq a.off_variation b.off_variation
                              && list_eq prerequisite_eq a.prerequisites b.prerequisites))))))
        r0 in
    let (e2, r2) =
      both (text_eq a.flag_type b.flag_type)
        (bool_eq a.enabled b.enabled
          && (list_eq variation_eq a.variations b.variations
              && (list_eq rule_eq a.rules b.rules
                  && (serve_eq a.fallthrough b.fallthrough
                      && (text_eq a.off_variation b.off_variation
                          && list_eq prerequisite_eq a.prerequisites b.prerequisites)))))
        r1 in
    let (e3, r3) =
      both (bool_eq a.enabled b.enabled)
        (list_eq variation_eq a.variations b.variations
          && (list_eq rule_eq a.rules b.rules
              && (serve_eq a.fallthrough b.fallthrough
                  && (text_eq a.off_variation b.off_variation
                      && list_eq prerequisite_eq a.prerequisites b.prerequisites))))
        r2 in
    let (e4, r4) =
      both (list_eq variation_eq a.variations b.variations)
        (list_eq rule_eq a.rules b.rules
          && (serve_eq a.fallthrough b.fallthrough
              && (text_eq a.off_variation b.off_variation
                  && list_eq prerequisite_eq a.prerequisites b.prerequisites)))
        r3 in
    let (e5, r5) =
      both (list_eq rule_eq a.rules b.rules)
        (serve_eq a.fallthrough b.fallthrough
          && (text_eq a.off_variation b.off_variation
              && list_eq prerequisite_eq a.prerequisites b.prerequisites))
        r4 in
    let (e6, r6) =
      both (serve_eq a.fallthrough b.fallthrough)
        (text_eq a.off_variation b.off_variation
          && list_eq prerequisite_eq a.prerequisites b.prerequisites)
        r5 in
    let (e7, r7) =
      both (text_eq a.off_variation b.off_variation)
        (list_eq prerequisite_eq a.prerequisites b.prerequisites) r6 in
    λ i. record {
      key = text_eq_sound a.key b.key e0 i;
      version = int_eq_sound a.version b.version e1 i;
      flag_type = text_eq_sound a.flag_type b.flag_type e2 i;
      enabled = bool_eq_sound a.enabled b.enabled e3 i;
      variations = list_eq_sound variation_eq variation_eq_sound a.variations b.variations e4 i;
      rules = list_eq_sound rule_eq rule_eq_sound a.rules b.rules e5 i;
      fallthrough = serve_eq_sound a.fallthrough b.fallthrough e6 i;
      off_variation = text_eq_sound a.off_variation b.off_variation e7 i;
      prerequisites =
          list_eq_sound prerequisite_eq prerequisite_eq_sound a.prerequisites b.prerequisites r7 i;
    }
