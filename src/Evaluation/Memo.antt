-- ===== src/Evaluation/Memo.antt =====
-- evaluation.go: the memo does not change what a flag evaluates to.
use mathlib.Core.Option
use featureflip_go.Base.{
  ℕ, zero, suc, ◌≤◌, ◌<◌, ◌≡◌, refl, ◌≢◌, sym, ap, ◌∙◌, subst, List, [], ◌∷◌, Option, none, some,
  Text, text_eq, text_eq_sound, All, arith, Option-cases, Bool-cases, inl, inr, some_eq,
  none-ne-some, if_true, if_false, All-map,
}
use featureflip_go.Base.Dict.{lookup, insert, lookup-insert}
use featureflip_go.Models.{Flag, Prerequisite, EvaluationDetail}
use featureflip_go.Evaluation.{
  State, World, Memo, serve_rules, resolve_prerequisite, prerequisite_verdict, or_continue,
  check_prerequisites, after_prerequisites, evaluate_internal, evaluate_with_shared_memo, evaluate,
  max_prerequisite_depth,
}
use featureflip_go.Evaluation.Reference.{
  IsRanked, reference, reference_verdict, or_rules, or_next, serve_rules_seen, result, result_step,
  reference_stable,
}

module _ (w : World) (rank : Text → ℕ) (ranked : IsRanked rank w.flags) where
  -- Every entry of the memo is the result of the flag that the store holds under its key.
  abbrev pub IsValid : Memo → Type 0
  IsValid m =
      (k : Text) (d : EvaluationDetail)
      → lookup k m ≡ some d
      → (f : Flag) × (lookup k w.flags ≡ some f) × (d ≡ result w rank ranked k f)

  insert-IsValid :
      (m : Memo) (k : Text) (f : Flag) (d : EvaluationDetail)
      → IsValid m
      → lookup k w.flags ≡ some f
      → d ≡ result w rank ranked k f
      → IsValid (insert k d m)
  insert-IsValid m k f d v h e j c l = elim (Bool-cases (text_eq k j)) [
    | inl same ↦
        let at : k ≡ j = text_eq_sound k j same in
        let held : d ≡ c = some_eq (sym (lookup-insert k j d m ∙ rw same) ∙ l) in
        (f, rw (← at) h, sym held ∙ e ∙ ap (λ i. result w rank ranked i f) at)
    | inr other ↦ v j c (sym (lookup-insert k j d m ∙ rw other) ∙ l)
  ]

  -- What an evaluation of a stored flag promises at some number of levels.
  abbrev IsFaithful : (Flag → State → EvaluationDetail × State) → ℕ → Type 0
  IsFaithful eval levels =
      (k : Text) (f : Flag) (s : State)
      → lookup k w.flags ≡ some f
      → rank k < levels
      → IsValid s.memo
      → ((eval f s).0 ≡ result w rank ranked k f) × IsValid (eval f s).1.memo

  resolve-IsFaithful :
      (eval : Flag → State → EvaluationDetail × State) (levels : ℕ)
      → IsFaithful eval levels
      → (p : Prerequisite) (s : State)
      → ((g : Flag)
          → lookup p.prerequisite_flag_key w.flags ≡ some g
          → rank p.prerequisite_flag_key < levels)
      → IsValid s.memo
      → ((resolve_prerequisite w eval p.prerequisite_flag_key s).0
          ≡ Option.map (λ g. result w rank ranked g.key g) (lookup p.prerequisite_flag_key w.flags))
        × IsValid (resolve_prerequisite w eval p.prerequisite_flag_key s).1.memo
  unfolding resolve_prerequisite
  resolve-IsFaithful eval levels faithful p s below v =
      elim (Option-cases (lookup p.prerequisite_flag_key s.memo)) [
        | inr (d, e) ↦ rw (e, resolve_prerequisite) (from_memo d e, v)
        | inl e ↦ elim (Option-cases (lookup p.prerequisite_flag_key w.flags)) [
          | inl n ↦ rw (e, resolve_prerequisite, n, resolve_prerequisite) (refl, v)
          | inr (g, h) ↦
              let (same, kept) = faithful p.prerequisite_flag_key g s h (below g h) v in
              rw (e, resolve_prerequisite, h, resolve_prerequisite)
                (
                  ap some (same ∙ at_own_key g h),
                  insert-IsValid (eval g s).1.memo p.prerequisite_flag_key g (eval g s).0 kept h
                      same,
                )
        ]
      ]
    where
      at_own_key :
          (g : Flag)
          → lookup p.prerequisite_flag_key w.flags ≡ some g
          → result w rank ranked p.prerequisite_flag_key g ≡ result w rank ranked g.key g
      at_own_key g h =
          ap (λ i. result w rank ranked i g) (sym (ranked.keyed p.prerequisite_flag_key g h))

      from_memo :
          (d : EvaluationDetail)
          → lookup p.prerequisite_flag_key s.memo ≡ some d
          → some d
            ≡ Option.map
                (λ g. result w rank ranked g.key g)
                (lookup p.prerequisite_flag_key w.flags)
      from_memo d e =
          let (g, h, same) = v p.prerequisite_flag_key d e in rw h (ap some (same ∙ at_own_key g h))

  or_continue-IsFaithful :
      (v : Option EvaluationDetail) {v' : Option EvaluationDetail}
      → v ≡ v'
      → (t : State) (rest : Option EvaluationDetail × State) {o : Option EvaluationDetail}
      → (rest.0 ≡ o) × IsValid rest.1.memo
      → IsValid t.memo
      → ((or_continue v t rest).0 ≡ or_next v' o) × IsValid (or_continue v t rest).1.memo
  or_continue-IsFaithful none e t rest h k = (rw (← e) h.0, h.1)
  or_continue-IsFaithful (some d) e t rest h k = (rw (← e), k)

  insert_own :
      (k : Text) (f : Flag) (d : EvaluationDetail) (m : Memo)
      → lookup k w.flags ≡ some f
      → IsValid m
      → d ≡ result w rank ranked k f
      → IsValid (insert f.key d m)
  insert_own k f d m h v e =
      subst (λ j. IsValid (insert j d m)) (sym (ranked.keyed k f h)) (insert-IsValid m k f d v h e)

  check-IsFaithful :
      (eval : Flag → State → EvaluationDetail × State) (levels : ℕ)
      → IsFaithful eval levels
      → (f : Flag) (ps : List Prerequisite) (s : State)
      → All
          (λ p.
            (g : Flag)
            → lookup p.prerequisite_flag_key w.flags ≡ some g
            → rank p.prerequisite_flag_key < levels)
          ps
      → IsValid s.memo
      → ((check_prerequisites w eval f ps s).0
          ≡ reference_verdict w (λ g. result w rank ranked g.key g) f ps)
        × IsValid (check_prerequisites w eval f ps s).1.memo
  unfolding check_prerequisites reference_verdict
  check-IsFaithful eval levels faithful f [] s below v = (refl, v)
  check-IsFaithful eval levels faithful f (p ∷ ps) s below v =
      let r = resolve_prerequisite w eval p.prerequisite_flag_key s in
      let (same, kept) = resolve-IsFaithful eval levels faithful p s below.0 v in
      or_continue-IsFaithful (prerequisite_verdict w.platform f p r.0)
        (ap (prerequisite_verdict w.platform f p) same) r.1 _
        (check-IsFaithful eval levels faithful f ps r.1 below.1 kept) kept

  after-IsFaithful :
      (k : Text) (f : Flag) (r : Option EvaluationDetail × State) (o : Option EvaluationDetail)
      → lookup k w.flags ≡ some f
      → r.0 ≡ o
      → or_rules w f o ≡ result w rank ranked k f
      → IsValid r.1.memo
      → ((after_prerequisites w f r).0 ≡ result w rank ranked k f)
        × IsValid (after_prerequisites w f r).1.memo
  unfolding after_prerequisites
  after-IsFaithful k f (some d, s) o h e same v =
      let at : d ≡ result w rank ranked k f = ap (or_rules w f) e ∙ same in
      (at, insert_own k f d s.memo h v at)
  after-IsFaithful k f (none, s) o h e same v =
      let at : (serve_rules w f s.seen).0 ≡ result w rank ranked k f =
        serve_rules_seen w f s.seen ∙ ap (or_rules w f) e ∙ same in
      (at, insert_own k f (serve_rules w f s.seen).0 s.memo h v at)

  evaluate_internal-IsFaithful : (levels : ℕ) → IsFaithful (evaluate_internal w levels) levels
  unfolding evaluate_internal
  evaluate_internal-IsFaithful zero k f s h l v = absurd (omega arith)
  evaluate_internal-IsFaithful (suc levels) k f s h l v = elim (Bool-cases f.enabled) [
    | inl on ↦
        let below =
          All-map (λ p q g e. below_levels p.prerequisite_flag_key (q g e)) f.prerequisites
            (ranked.falls k f h) in
        let (same, kept) =
          check-IsFaithful (evaluate_internal w levels) levels (evaluate_internal-IsFaithful levels)
            f f.prerequisites s below v in
        subst Promise (sym (if_true _ _ on)) (
          after-IsFaithful k f _ _ h same (sym (result_step w rank ranked k f h ∙ if_true _ _ on))
            kept)
    | inr off ↦
        subst Promise (sym (if_false _ _ off))
          (sym (result_step w rank ranked k f h ∙ if_false _ _ off), v)
  ]
    where
      Promise : EvaluationDetail × State → Type 0
      Promise r = (r.0 ≡ result w rank ranked k f) × IsValid r.1.memo

      below_levels : (j : Text) → rank j < rank k → rank j < levels
      below_levels j q = omega arith

empty_memo : (j : Text) (d : EvaluationDetail) → lookup j [] ≢ some d
unfolding lookup
empty_memo j d e = none-ne-some e

-- Where every flag stands under its key and above its prerequisites in a ranking, a stored flag of a
-- rank up to the maximum depth evaluates to what it evaluates to without a memo.
pub evaluate-reference :
    (w : World) (rank : Text → ℕ) (k : Text) (f : Flag) (seen : List Text)
    → IsRanked rank w.flags
    → lookup k w.flags ≡ some f
    → rank k ≤ max_prerequisite_depth
    → (evaluate w f seen).0 ≡ reference w (suc max_prerequisite_depth) f
unfolding evaluate
evaluate-reference w rank k f seen ranked h l =
    (evaluate_internal-IsFaithful w rank ranked (suc max_prerequisite_depth) k f _ h (omega arith)
      (λ j d e. absurd (empty_memo j d e))).0
    ∙ reference_stable w rank ranked (suc (rank k)) (suc max_prerequisite_depth) k f h (omega arith)
        (omega arith)

-- Under the same conditions, a memo shared by a sweep over many flags, each of whose entries is the
-- result of the stored flag of that key, gives a flag the result that it has on its own, and stays
-- such a memo.
pub evaluate_with_shared_memo-evaluate :
    (w : World) (rank : Text → ℕ) (k : Text) (f : Flag) (s : State) (seen : List Text)
    (ranked : IsRanked rank w.flags)
    → lookup k w.flags ≡ some f
    → rank k ≤ max_prerequisite_depth
    → IsValid w rank ranked s.memo
    → ((evaluate_with_shared_memo w f s).0 ≡ (evaluate w f seen).0)
      × IsValid w rank ranked (evaluate_with_shared_memo w f s).1.memo
unfolding evaluate_with_shared_memo
evaluate_with_shared_memo-evaluate w rank k f s seen ranked h l v =
    let (same, kept) =
      evaluate_internal-IsFaithful w rank ranked (suc max_prerequisite_depth) k f s h (omega arith)
        v in
    (
      same
          ∙ reference_stable w rank ranked (suc (rank k)) (suc max_prerequisite_depth) k f h
              (omega arith) (omega arith)
          ∙ sym (evaluate-reference w rank k f seen ranked h l),
      kept,
    )
