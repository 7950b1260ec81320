-- ===== src/Crm/Fsm/Examples.antt =====
-- `evaluate` at work on the built-in descriptor of plain deployments: the ready deployment of a class
-- with one function, and a deployment that no function has.
use oaa_s_io_t.Prelude.{
  ◌≡◌, refl, [], ◌∷◌, true, false, not, ◌&&◌, none, some, any_of, all_of, arith,
}
use oaa_s_io_t.Crm.Fsm.{EvalInput, progressing, b_deployment, evaluate, available, delete_orphans}
use oaa_s_io_t.Std.Bytes.{bytes_ord}
use oaa_s_io_t.Crm.Names
use oaa_s_io_t.Crm.Fsm.Builtin.{descriptor_k8s}
use oaa_s_io_t.Crm.Fsm.Evaluate.{
  is_available, has_children, satisfied, deletes, evaluate_available, evaluate_keeps,
}

abbrev input : EvalInput
input = record {
  phase = some progressing;
  desc = descriptor_k8s;
  observed =
      record { name = b'c' ∷ []; kind = b_deployment; ready = true; reason = none; message = none }
      ∷ record {
        name = b'o' ∷ [];
        kind = b_deployment;
        ready = true;
        reason = none;
        message = none;
      }
      ∷ [];
  is_deleting = false;
  generation_changed = false;
  class_name = b'C' ∷ [];
  functions_total = 1;
}

evaluate-input :
    evaluate input ≡ record { phase = available; actions = delete_orphans ((b'o' ∷ []) ∷ []) ∷ [] }
unfolding evaluate descriptor_k8s Names.function_service_name bytes_ord
evaluate-input = refl

evaluate_available_example :
    is_available (evaluate input).phase
    ≡ not input.is_deleting
      && not input.generation_changed
      && has_children input.observed
      && any_of (λ r. r.contributes_to_available) input.desc.readiness
      && all_of (satisfied input.observed) input.desc.readiness
evaluate_available_example = evaluate_available input

evaluate_keeps_example :
    any_of
      (deletes (input.desc.function_namer input.class_name 0 input.functions_total))
      (evaluate input).actions
    ≡ false
evaluate_keeps_example = evaluate_keeps input 0 (omega arith)
