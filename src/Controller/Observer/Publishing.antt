-- ===== src/Controller/Observer/Publishing.antt =====
-- What a published outcome does to the escalation of the anomaly's context.
use self_healing_kubernetes.Base.{string_Eq}
use self_healing_kubernetes.Controller.Escalation.{key_Eq}
