-- ===== src/Web/Examples.antt =====
-- Tests of the routes, on the node of the service's examples.
use greenference_node.Base.{◌≡◌, ◌⊎◌, refl, ℕ, String, some, none, [], ◌∷◌, true, false}
use greenference_node.Dict.{lookup, insert, erase}
use greenference_node.Devices.{mem, of_list, add, union, diff, range}
use greenference_node.Allocator.{
  new_allocator, allocate, usable, free_devices, allocated_devices, collect, assign, get_allocation,
  release,
}
use greenference_node.Allocator.Invariant.{holds}
use greenference_node.Repository
use greenference_node.Repository.{open_repository, save}
use greenference_node.Access.Redaction.{dict, member, no_member, leaf}
use greenference_node.Access.Security.{Secrets, validate_auth, effective_agent_secret}
use greenference_node.Agent.Exec.{
  Agent, returned, raised, http_error, pure, raise, gets, call, try_, modify, ◌>>=◌, continue,
  recover, match_option,
}
use greenference_node.Agent.Parts.{
  codecs, untouched, get_runtime, upsert_runtime, release_gpus, send, note_sent, log_any, log_http,
}
use greenference_node.Agent.Lifecycle.{
  terminate_runtime, stop_backend, terminated_record, report_state,
}
use greenference_node.Agent.Reconcile.{accepted_record}
use greenference_node.Agent.Recovery.{terminate_deployment}
use greenference_node.Agent.Examples.{cut_off, settings, node, one_held-IsSound}
use greenference_node.Web.Wire.{Wire, refuse}
use greenference_node.Web.Routes.{
  terminate, list_runtimes, is_sensitive, Server, handler, on_service, handle, handle_all,
}
use greenference_node.Web.Refusal.{IsEntitled, handle-decided}
use greenference_node.Web.Shown.{IsShown, handle-IsShown}
use greenference_node.Web.Exclusion.{requests_exclusive}

abbrev wire : Wire String Unit
wire = record {
  register_miner = λ p w. (returned p, w);
  update_capacity = λ p w. (returned p, w);
  record_heartbeat = λ p w. (returned p, w);
  invoke = λ rt p w. (returned p, w);
  post_upstream = λ url p w. (raised http_error, w);
  collect_pod_stats = λ c l w. (returned "{}", w);
  model_dump = λ rt. dict (member "ssh_private_key" (leaf "key") no_member);
  runtime_url = λ rt. none;
}

abbrev secrets : Secrets
secrets = record {
  agent_auth_secret = some "sesame";
  inference_auth_secret = none;
  compute_auth_secret = none;
}

abbrev server : Server Unit
server = record { settings = some secrets; service = some node }

handle-decided_example :
    (IsEntitled (effective_agent_secret secrets) true (some "guess")
      × (handle wire cut_off settings 10 (terminate "d1") (some "guess") server
          ≡ on_service wire cut_off settings 10 server
              (handler wire cut_off settings 10 (terminate "d1"))
              (some node)))
    ⊎ (¬ IsEntitled (effective_agent_secret secrets) true (some "guess"))
      × ((code : ℕ) × (handle wire cut_off settings 10 (terminate "d1") (some "guess") server
            ≡ (refuse code, server))
          × ((code ≡ 401) ⊎ (code ≡ 503)))
unfolding is_sensitive
handle-decided_example =
    handle-decided wire cut_off settings 10 (terminate "d1") (some "guess") server secrets refl

handle-IsShown_example :
    IsShown false (handle wire cut_off settings 10 list_runtimes (some "sesame") server).0
handle-IsShown_example =
    handle-IsShown wire cut_off settings 10 list_runtimes (some "sesame") server

abbrev node_after : Agent Unit
node_after = (terminate_deployment cut_off "d1" node).1

terminated_over :
    (handle_all wire cut_off settings 10 ((terminate "d1", some "sesame") ∷ []) server).service
    ≡ some node_after
unfolding handle_all validate_auth effective_agent_secret terminate_deployment get_runtime gets
    ◌>>=◌ continue match_option terminate_runtime release_gpus modify try_ recover stop_backend call
    upsert_runtime terminated_record report_state send note_sent log_any log_http pure raise codecs
    untouched save insert lookup erase mem get_allocation release allocate usable free_devices
    allocated_devices collect assign new_allocator range diff of_list add union accepted_record
    open_repository Repository.get_runtime Repository.upsert_runtime
terminated_over = refl

still_held : holds "d2" 1 node_after.gpu_allocator ≡ true
unfolding terminate_deployment get_runtime gets ◌>>=◌ continue match_option terminate_runtime
    release_gpus modify try_ recover stop_backend call upsert_runtime terminated_record report_state
    send note_sent log_any log_http pure raise codecs untouched save insert lookup erase mem
    get_allocation release allocate usable free_devices allocated_devices collect assign
    new_allocator range diff of_list add union accepted_record open_repository
    Repository.get_runtime Repository.upsert_runtime
still_held = refl

requests_exclusive_example : ◌≡◌ {A = String} "d2" "d2"
requests_exclusive_example =
    requests_exclusive wire cut_off settings 10 ((terminate "d1", some "sesame") ∷ []) server node
      node_after "d2" "d2" 1 refl one_held-IsSound terminated_over still_held still_held
