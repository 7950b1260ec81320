-- ===== src/Crm/Fsm.antt =====
-- The state machine of a class runtime: `evaluate` of
-- control-plane/oprc-crm/src/controller/fsm/evaluator.rs with the types of actions.rs, descriptor.rs
-- and observed.rs. A text is the list of its characters' code points.
pub mod Evaluate
pub mod Builtin
mod Examples
use oaa_s_io_t.Prelude.{
  ℕ, ◌+◌, zero, suc, List, [], ◌∷◌, Bool, true, false, not, ◌&&◌, ◌||◌, Option, none, some, any_of,
  drop, length, ◌-◌, leb, if◌then◌else◌,
}
use oaa_s_io_t.Std.Bytes.{bytes_ord}
use oaa_s_io_t.Std.Order.{key_eq}
use oaa_s_io_t.Crm.Names.{Chars}

pub data ManagedKind : Type 0 where
  deployment service knative_service odgm_deployment odgm_service hpa : ManagedKind

pub data FsmAction : Type 0 where
  apply_workload ensure_metrics_targets : FsmAction
  delete_orphans : List Chars → FsmAction
  enforce_replicas : ℕ → FsmAction

pub record ChildStatus : Type 0 where
  pub name : Chars
  pub kind : Chars
  pub ready : Bool
  pub reason : Option Chars
  pub message : Option Chars

pub record ReadinessResult : Type 0 where
  pub ready : Bool
  pub reason : Option Chars
  pub message : Option Chars

-- `Observed` is the list of the children.
pub record ReadinessRule : Type 0 where
  pub kind : ManagedKind
  pub contributes_to_available : Bool
  pub evaluator : List ChildStatus → ReadinessResult

pub record TemplateDescriptor : Type 0 where
  pub id : Chars
  pub managed : List ManagedKind
  pub readiness : List ReadinessRule
  pub function_namer : Chars → ℕ → ℕ → Chars
  pub label_selector : Chars → Chars × Chars
  pub supports_odgm : Bool

pub data Phase : Type 0 where
  pending applying progressing available degraded deleting : Phase

pub record EvalInput : Type 0 where
  pub phase : Option Phase
  pub desc : TemplateDescriptor
  pub observed : List ChildStatus
  pub is_deleting : Bool
  pub generation_changed : Bool
  pub class_name : Chars
  pub functions_total : ℕ

pub record EvalOutput : Type 0 where
  pub phase : Phase
  pub actions : List FsmAction

abbrev pub b_deployment : Chars
b_deployment = b'D' ∷ b'e' ∷ b'p' ∷ b'l' ∷ b'o' ∷ b'y' ∷ b'm' ∷ b'e' ∷ b'n' ∷ b't' ∷ []

abbrev pub b_service : Chars
b_service = b'S' ∷ b'e' ∷ b'r' ∷ b'v' ∷ b'i' ∷ b'c' ∷ b'e' ∷ []

abbrev pub b_knative_service : Chars
b_knative_service = b'K' ∷ b'n' ∷ b'a' ∷ b't' ∷ b'i' ∷ b'v' ∷ b'e' ∷ b_service

abbrev pub b_odgm : Chars
b_odgm = b'-' ∷ b'o' ∷ b'd' ∷ b'g' ∷ b'm' ∷ []

abbrev pub b_odgm_svc : Chars
b_odgm_svc = b'-' ∷ b'o' ∷ b'd' ∷ b'g' ∷ b'm' ∷ b'-' ∷ b's' ∷ b'v' ∷ b'c' ∷ []

abbrev pub ends_with : Chars → Chars → Bool
ends_with suffix s =
    leb (length suffix) (length s) && key_eq (drop (length s - length suffix) s) suffix

-- The names in `expected`, those of the functions from `i` on.
unfoldable pub is_expected : TemplateDescriptor → Chars → ℕ → ℕ → ℕ → Chars → Bool
is_expected desc class_name total zero i name = false
is_expected desc class_name total (suc n) i name =
    key_eq (desc.function_namer class_name i total) name
    || is_expected desc class_name total n (i + 1) name

abbrev pub is_workload : ManagedKind → Chars → Bool
is_workload deployment kind = key_eq b_deployment kind
is_workload service kind = key_eq b_service kind
is_workload knative_service kind = key_eq b_knative_service kind
is_workload odgm_deployment kind = false
is_workload odgm_service kind = false
is_workload hpa kind = false

abbrev pub is_function_kind : TemplateDescriptor → Chars → Bool
is_function_kind desc kind = any_of (λ k. is_workload k kind) desc.managed

-- The flags `any_contributing` and `all_ready` after the loop over the rules.
unfoldable pub rule_loop : List ChildStatus → List ReadinessRule → Bool → Bool → Bool × Bool
rule_loop observed [] any_contributing all_ready = (any_contributing, all_ready)
rule_loop observed (rule ∷ rules) any_contributing all_ready =
    let skipped = rule_loop observed rules any_contributing all_ready in
    let counted =
      rule_loop observed rules true
        (if (rule.evaluator observed).ready then all_ready else false) in
    if not rule.contributes_to_available then skipped else counted

-- The children that are pushed to `orphans`.
unfoldable pub orphan_loop : EvalInput → List ChildStatus → List Chars
unfolding is_expected
orphan_loop input [] = []
orphan_loop input (c ∷ children) =
    let rest = orphan_loop input children in
    if ends_with b_odgm c.name || ends_with b_odgm_svc c.name
    then rest
    else if is_function_kind input.desc c.kind
        && not (
            is_expected input.desc input.class_name input.functions_total input.functions_total 0
              c.name)
    then c.name ∷ rest
    else rest

abbrev pub orphan_actions : List Chars → List FsmAction
orphan_actions [] = []
orphan_actions (name ∷ names) = delete_orphans (name ∷ names) ∷ []

abbrev pub waits : Option Phase → Bool
waits (some applying) = true
waits (some progressing) = true
waits other = false

abbrev pub without_children : EvalInput → EvalOutput
without_children input =
    if waits input.phase && not input.generation_changed
    then record { phase = applying; actions = [] }
    else record { phase = applying; actions = apply_workload ∷ [] }

abbrev pub judged : Bool × Bool → List FsmAction → EvalOutput
judged (any_contributing, all_ready) actions =
    if any_contributing && all_ready
    then record { phase = available; actions = actions }
    else record { phase = progressing; actions = actions }

abbrev pub observe : EvalInput → List ChildStatus → EvalOutput
observe input [] = without_children input
observe input (c ∷ children) =
    judged (rule_loop input.observed input.desc.readiness false true)
      (orphan_actions (orphan_loop input (c ∷ children)))

unfoldable pub evaluate : EvalInput → EvalOutput
unfolding rule_loop orphan_loop
evaluate input =
    if input.is_deleting
    then record { phase = deleting; actions = [] }
    else if input.generation_changed
    then record { phase = applying; actions = apply_workload ∷ [] }
    else observe input input.observed
