-- ===== src/Crm/Fsm/Evaluate.antt =====
-- What `evaluate` answers: when a class runtime is available, and which children it never deletes.
use oaa_s_io_t.Prelude.{
  ℕ, zero, suc, ◌+◌, ◌<◌, ◌≡◌, refl, ap, subst, ◌∙◌, List, [], ◌∷◌, Bool, true, false, not, ◌&&◌,
  ◌||◌, any_of, all_of, arith, if◌then◌else◌, Bool-cases, inl, inr,
}
use oaa_s_io_t.Std.Bytes.{bytes_ord}
use oaa_s_io_t.Std.Order.{key_eq, key_eq_refl, key_eq→eq}
use oaa_s_io_t.Crm.Names.{Chars}
use oaa_s_io_t.Crm.Fsm.{
  ChildStatus, ReadinessRule, TemplateDescriptor, FsmAction, delete_orphans, Phase, available,
  EvalInput, is_expected, rule_loop, orphan_loop, orphan_actions, without_children, judged, observe,
  evaluate,
}

abbrev pub is_available : Phase → Bool
is_available available = true
is_available other = false

abbrev pub has_children : List ChildStatus → Bool
has_children [] = false
has_children (c ∷ children) = true

-- A rule that does not count, or whose objects are ready.
abbrev pub satisfied : List ChildStatus → ReadinessRule → Bool
satisfied observed rule = not rule.contributes_to_available || (rule.evaluator observed).ready

rule_loop_lem :
    (observed : List ChildStatus) (rules : List ReadinessRule) (any all : Bool)
    → rule_loop observed rules any all ≡ (
      any || any_of (λ r. r.contributes_to_available) rules,
      all && all_of (satisfied observed) rules,
    )
unfolding rule_loop
rule_loop_lem observed [] any all = ground arith
rule_loop_lem observed (rule ∷ rules) any all = elim (Bool-cases rule.contributes_to_available) [
  | inl counts ↦
      rw
        (
          counts,
          rule_loop_lem observed rules true
              (if (rule.evaluator observed).ready then all else false),
        )
        (ground arith)
  | inr skipped ↦ rw (skipped, rule_loop_lem observed rules any all) (ground arith)
]

judged_lem :
    (flags : Bool × Bool) (actions : List FsmAction)
    → is_available (judged flags actions).phase ≡ flags.0 && flags.1
judged_lem (true, true) actions = refl
judged_lem (true, false) actions = refl
judged_lem (false, all) actions = refl

without_children_lem : (input : EvalInput) → is_available (without_children input).phase ≡ false
without_children_lem input = ground arith

observe_lem :
    (input : EvalInput) (children : List ChildStatus)
    → is_available (observe input children).phase
      ≡ has_children children
        && any_of (λ r. r.contributes_to_available) input.desc.readiness
        && all_of (satisfied input.observed) input.desc.readiness
observe_lem input [] = without_children_lem input
observe_lem input (c ∷ children) =
    judged_lem (rule_loop input.observed input.desc.readiness false true) _
    ∙ rw (rule_loop_lem input.observed input.desc.readiness false true) refl

-- A class runtime is available exactly when it is not being deleted, its generation did not change, it
-- has children, some readiness rule counts, and every rule that counts finds its objects ready.
pub evaluate_available :
    (input : EvalInput)
    → is_available (evaluate input).phase
      ≡ not input.is_deleting
        && not input.generation_changed
        && has_children input.observed
        && any_of (λ r. r.contributes_to_available) input.desc.readiness
        && all_of (satisfied input.observed) input.desc.readiness
unfolding evaluate
evaluate_available input = ground (arith, observe_lem input input.observed)

is_expected_lem :
    (desc : TemplateDescriptor) (class_name : Chars) (total n i k j : ℕ)
    → k < n
    → j ≡ i + k
    → is_expected desc class_name total n i (desc.function_namer class_name j total) ≡ true
unfolding is_expected
is_expected_lem desc class_name total zero i k j less e = ground (arith, less)
is_expected_lem desc class_name total (suc n) i zero j less e =
    let same : i ≡ j = omega (arith, e) in
    rw (ap (λ x. desc.function_namer class_name x total) same, key_eq_refl) refl
is_expected_lem desc class_name total (suc n) i (suc k) j less e = ground (
  arith,
  is_expected_lem desc class_name total n (i + 1) k j (omega (arith, less)) (omega (arith, e)),
)

-- Whether an action deletes the object with the name.
abbrev pub deletes : Chars → FsmAction → Bool
deletes name (delete_orphans names) = any_of (key_eq name) names
deletes name other = false

orphan_loop_lem :
    (input : EvalInput) (children : List ChildStatus) (name : Chars)
    → is_expected input.desc input.class_name input.functions_total input.functions_total 0 name
      ≡ true
    → any_of (key_eq name) (orphan_loop input children) ≡ false
unfolding orphan_loop
orphan_loop_lem input [] name h = refl
orphan_loop_lem input (c ∷ children) name h =
    let rest = orphan_loop_lem input children name h in
    elim (Bool-cases (key_eq name c.name)) [
      | inl hit ↦
          let known =
            subst
              (λ x.
                is_expected input.desc input.class_name input.functions_total input.functions_total
                  0 x
                ≡ true)
              (key_eq→eq name c.name hit) h in
          rw known (ground (arith, rest))
      | inr other ↦ ground (arith, rest, other)
    ]

orphan_actions_lem :
    (name : Chars) (names : List Chars)
    → any_of (deletes name) (orphan_actions names) ≡ any_of (key_eq name) names
orphan_actions_lem name [] = refl
orphan_actions_lem name (n ∷ names) = ground arith

judged-actions :
    (flags : Bool × Bool) (actions : List FsmAction) → (judged flags actions).actions ≡ actions
judged-actions (true, true) actions = refl
judged-actions (true, false) actions = refl
judged-actions (false, all) actions = refl

observe_keeps :
    (input : EvalInput) (children : List ChildStatus) (name : Chars)
    → is_expected input.desc input.class_name input.functions_total input.functions_total 0 name
      ≡ true
    → any_of (deletes name) (observe input children).actions ≡ false
observe_keeps input [] name h = ground arith
observe_keeps input (c ∷ children) name h =
    ap (any_of (deletes name)) (
      judged-actions (rule_loop input.observed input.desc.readiness false true)
        (orphan_actions (orphan_loop input (c ∷ children))))
    ∙ orphan_actions_lem name (orphan_loop input (c ∷ children))
    ∙ orphan_loop_lem input (c ∷ children) name h

-- `evaluate` never deletes the object of a function: of no function of the class is the name among the
-- orphans to delete.
pub evaluate_keeps :
    (input : EvalInput) (i : ℕ)
    → i < input.functions_total
    → any_of
        (deletes (input.desc.function_namer input.class_name i input.functions_total))
        (evaluate input).actions
      ≡ false
unfolding evaluate
evaluate_keeps input i less = ground (
  arith,
  observe_keeps input input.observed _ (
      is_expected_lem input.desc input.class_name input.functions_total input.functions_total 0 i i
        less (omega arith)),
)
