-- ===== src/Agent/Kept/Recoveries.antt =====
-- A recovery and a termination on request keep what the steps keep.
use greenference_node.Base.{String, true, none, some, List, [], ◌∷◌}
use greenference_node.Protocol.{Runtime, RuntimeStatus}
use greenference_node.Agent.Exec.{Agent, Raised, http_error}
use greenference_node.Agent.Host.{Host}
use greenference_node.Agent.Keeps.{Keeps, keeps_rules, Keeps-raise, Keeps-pure, Keeps-bind}
use greenference_node.Agent.Recovery
use greenference_node.Agent.Recovery.{Answer, Tally, unreachable, says}
use greenference_node.Agent.Parts.{get_runtime}
use greenference_node.Agent.Kept.{IsKept, terminate_runtime-Keeps}

module _ {W : Type 0} {P : Agent W → Type 0} (k : IsKept P) (host : Host W) where
  open k use {local.{inner}}

  is_unreachable-Keeps : (e : Raised) → Keeps P (Recovery.is_unreachable host e)
  unfolding Recovery.is_unreachable
  is_unreachable-Keeps http_error = Keeps-pure unreachable
  is_unreachable-Keeps e = Keeps-raise e

  ask-Keeps : (d : String) → Keeps P (Recovery.ask host d)
  unfolding Recovery.ask
  ask-Keeps d = search (keeps_rules, inner, is_unreachable-Keeps)

  settle-Keeps : (rt : Runtime) (answer : Answer) → Keeps P (Recovery.settle host rt answer)
  unfolding Recovery.settle
  settle-Keeps rt unreachable = Keeps-pure true
  settle-Keeps rt (says none) = search (keeps_rules, terminate_runtime-Keeps k.local host)
  settle-Keeps rt (says (some state)) = search (keeps_rules, terminate_runtime-Keeps k.local host)

  examine-Keeps :
      (d : String) (rt : Runtime) (status : RuntimeStatus) (t : Tally)
      → Keeps P (Recovery.examine host d rt status t)
  unfolding Recovery.examine
  examine-Keeps d rt RuntimeStatus.terminated t = Keeps-pure t
  examine-Keeps d rt RuntimeStatus.failed t = Keeps-pure t
  examine-Keeps d rt _ t = search (keeps_rules, ask-Keeps, settle-Keeps)

  recover_items-Keeps :
      (l : List (String × Runtime)) (t : Tally) → Keeps P (Recovery.recover_items host l t)
  unfolding Recovery.recover_items
  recover_items-Keeps [] t = Keeps-pure t
  recover_items-Keeps ((d, rt) ∷ l) t =
      Keeps-bind _ _ (examine-Keeps d rt rt.status t) (λ t'. recover_items-Keeps l t')

  pub recover_runtime_state-Keeps : Keeps P (Recovery.recover_runtime_state host)
  unfolding Recovery.recover_runtime_state
  recover_runtime_state-Keeps = search (keeps_rules, inner, recover_items-Keeps) depth 8

  pub terminate_deployment-Keeps : (d : String) → Keeps P (Recovery.terminate_deployment host d)
  unfolding Recovery.terminate_deployment get_runtime
  terminate_deployment-Keeps d = search (keeps_rules, terminate_runtime-Keeps k.local host) depth 8
