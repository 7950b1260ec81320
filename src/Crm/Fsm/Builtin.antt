-- ===== src/Crm/Fsm/Builtin.antt =====
-- The built-in descriptors: control-plane/oprc-crm/src/controller/fsm/descriptors_builtin.rs.
use oaa_s_io_t.Prelude.{List, [], ◌∷◌, true, false, none, some, filter, all_of}
use oaa_s_io_t.Std.Bytes.{bytes_ord}
use oaa_s_io_t.Std.Order.{key_eq}
use oaa_s_io_t.Crm.Names.{Chars, function_service_name}
use oaa_s_io_t.Crm.Fsm.{
  ChildStatus, ReadinessResult, TemplateDescriptor, deployment, service, knative_service,
  odgm_deployment, odgm_service, b_deployment, b_knative_service,
}

abbrev pub kind_ready : Chars → List ChildStatus → ReadinessResult
kind_ready nothing [] = record { ready = false; reason = some nothing; message = none }
kind_ready nothing (c ∷ children) = record {
  ready = all_of (λ c. c.ready) (c ∷ children);
  reason = none;
  message = none;
}

abbrev no_deployments : Chars
no_deployments =
    b'N' ∷ b'o' ∷ b'D' ∷ b'e' ∷ b'p' ∷ b'l' ∷ b'o' ∷ b'y' ∷ b'm' ∷ b'e' ∷ b'n' ∷ b't' ∷ b's' ∷ []

abbrev no_knative_services : Chars
no_knative_services =
    b'N' ∷ b'o' ∷ b'K' ∷ b'n' ∷ b'a' ∷ b't' ∷ b'i' ∷ b'v' ∷ b'e' ∷ b'S' ∷ b'e' ∷ b'r' ∷ b'v' ∷ b'i'
    ∷ b'c' ∷ b'e' ∷ b's' ∷ []

unfoldable pub deployments_ready : List ChildStatus → ReadinessResult
deployments_ready children =
    kind_ready no_deployments (filter (λ c. key_eq c.kind b_deployment) children)

unfoldable pub knative_services_ready : List ChildStatus → ReadinessResult
knative_services_ready children =
    kind_ready no_knative_services (filter (λ c. key_eq c.kind b_knative_service) children)

abbrev pub owner_label : Chars
owner_label =
    b'o' ∷ b'a' ∷ b'a' ∷ b's' ∷ b'.' ∷ b'i' ∷ b'o' ∷ b'/' ∷ b'o' ∷ b'w' ∷ b'n' ∷ b'e' ∷ b'r' ∷ []

unfoldable pub descriptor_k8s : TemplateDescriptor
unfolding deployments_ready
descriptor_k8s = record {
  id =
      b'k' ∷ b'8' ∷ b's' ∷ b'_' ∷ b'd' ∷ b'e' ∷ b'p' ∷ b'l' ∷ b'o' ∷ b'y' ∷ b'm' ∷ b'e' ∷ b'n'
      ∷ b't' ∷ [];
  managed = deployment ∷ service ∷ odgm_deployment ∷ odgm_service ∷ [];
  readiness =
      record { kind = deployment; contributes_to_available = true; evaluator = deployments_ready }
      ∷ [];
  function_namer = function_service_name;
  label_selector = λ class_name. (owner_label, class_name);
  supports_odgm = true;
}

unfoldable pub descriptor_knative : TemplateDescriptor
unfolding knative_services_ready
descriptor_knative = record {
  id = b'k' ∷ b'n' ∷ b'a' ∷ b't' ∷ b'i' ∷ b'v' ∷ b'e' ∷ [];
  managed = knative_service ∷ odgm_deployment ∷ odgm_service ∷ [];
  readiness =
      record {
        kind = knative_service;
        contributes_to_available = true;
        evaluator = knative_services_ready;
      }
      ∷ [];
  function_namer = function_service_name;
  label_selector = λ class_name. (owner_label, class_name);
  supports_odgm = true;
}
