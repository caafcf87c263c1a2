-- ===== src/Multinode/Parsing.antt =====
-- What the parser of a distributed payload gives, and when it lets an exception out.
use greenference_node.Base.{
  arith, ◌≡◌, refl, ap, ◌∙◌, arith, *ℤ_comm, ◌*ℤ◌, String, Bool, true, false, Option, none, some,
  [], ◌∷◌, ℤ, pos, if◌then◌else◌, str_eq,
}
use mathlib.Core.Path.{subst, ap₂}
use greenference_node.Dict.{Dict, lookup}
use greenference_node.Text.{same, lower, codes}
use greenference_node.Multinode.Payload.{
  Reads-if, Value, null, text, number, Reading, read, refused, overflowed, to_int, to_str, truth,
  IsFinite, Reads, Reads-bind, to_int-Reads, Reads-if, Reads-map,
}
use greenference_node.Multinode.Params.{
  MultiNodeParams, world_size, total_gpus, role_of, required, get_default, int_or, parse_raw,
  parse_multi_node_params,
}

abbrev pub AllFinite : Dict Value → Type 0
AllFinite [] = Unit
AllFinite ((k, v) ∷ raw) = IsFinite v × AllFinite raw

-- The payload leaves the degree out, or gives null, zero or an empty text.
abbrev pub IsDefaulted : String → Dict Value → Type 0
IsDefaulted key raw = truth (get_default key null raw) ≡ false

-- A rank is a share of the topology's own size where the degrees are left out.
abbrev pub HasDefaults : Dict Value → MultiNodeParams → Type 0
HasDefaults raw p =
    (IsDefaulted "tensor_parallel_size" raw → p.tensor_parallel_size ≡ p.gpus_per_node)
    × (IsDefaulted "pipeline_parallel_size" raw → p.pipeline_parallel_size ≡ p.node_count)

-- What a lookup may find in a dict that has no infinite number.
abbrev MayFind : Option Value → Type 0
MayFind none = Unit
MayFind (some v) = IsFinite v

either :
    (b : Bool) (v : Value) (o : Option Value)
    → IsFinite v
    → MayFind o
    → MayFind (if b then some v else o)
either true v o h k = h
either false v o h k = k

lookup-MayFind : (key : String) (raw : Dict Value) → AllFinite raw → MayFind (lookup key raw)
unfolding lookup
lookup-MayFind key [] h = tt
lookup-MayFind key ((k, v) ∷ raw) h =
    either (str_eq k key) v (lookup key raw) h.0 (lookup-MayFind key raw h.1)

get_default-IsFinite :
    (key : String) (default : Value) (raw : Dict Value)
    → IsFinite default
    → AllFinite raw
    → IsFinite (get_default key default raw)
unfolding get_default
get_default-IsFinite key default raw d h = go (lookup key raw) (lookup-MayFind key raw h)
  where
    go : (o : Option Value) → MayFind o → IsFinite (elim o [ none ↦ default | some v ↦ v ])
    go none m = d
    go (some v) m = m

module _ (raw : Dict Value) where
  Escapes : Type 0
  Escapes = AllFinite raw → ⊥

  int-Reads : (v : Value) → (AllFinite raw → IsFinite v) → Reads (λ n. Unit {0}) Escapes (to_int v)
  unfolding Escapes
  int-Reads v h = Reads-map (to_int v) (λ n q. q) (λ bad all. bad (h all)) (to_int-Reads v)

  role-Reads : (s : String) → Reads (λ r. Unit {0}) Escapes (role_of s)
  unfolding role_of
  role-Reads s =
      Reads-if (same (lower (codes s)) (codes "head")) _ _ (record { at = tt })
        (Reads-if (same (lower (codes s)) (codes "worker")) _ _ (record { at = tt })
          (record { at = tt }))

  required-Reads :
      (key : String) → Reads (λ v. AllFinite raw → IsFinite v) Escapes (required key raw)
  unfolding required
  required-Reads key = go (lookup key raw) (lookup-MayFind key raw)
    where
      go :
          (o : Option Value)
          → (AllFinite raw → MayFind o)
          → Reads
              (λ v. AllFinite raw → IsFinite v)
              Escapes
              (elim o [ none ↦ refused | some v ↦ read v ])
      go none m = record { at = tt }
      go (some v) m = record { at = m }

  int_or-Reads :
      (key : String) (default : ℤ)
      → Reads (λ n. IsDefaulted key raw → n ≡ default) Escapes (int_or key default raw)
  unfolding int_or
  int_or-Reads key default =
      go (truth v) (to_int v) (int-Reads v (get_default-IsFinite key null raw tt))
    where
      v : Value
      v = get_default key null raw

      go :
          (b : Bool) (r : Reading ℤ)
          → Reads (λ n. Unit {0}) Escapes r
          → Reads (λ n. b ≡ false → n ≡ default) Escapes (if b then r else read default)
      go true r h = Reads-map r (λ n _ e. ground arith) (λ o. o) h
      go false r h = record { at = λ e. refl }

  parse_raw-Reads : Reads (HasDefaults raw) Escapes (parse_raw raw)
  unfolding parse_raw
  parse_raw-Reads =
      Reads-bind _ _ (role-Reads (to_str (get_default "role" (text "") raw))) (λ role _.
        Reads-bind _ _ (required-Reads "node_count") (λ raw_nodes nodes_finite.
          Reads-bind _ _ (int-Reads raw_nodes nodes_finite) (λ node_count _.
            Reads-bind _ _ (required-Reads "gpus_per_node") (λ raw_gpus gpus_finite.
              Reads-bind _ _ (int-Reads raw_gpus gpus_finite) (λ gpus_per_node _.
                Reads-bind _ _
                  (int-Reads (get_default "rank" (number (pos 0)) raw)
                    (get_default-IsFinite "rank" (number (pos 0)) raw tt))
                  (λ rank _.
                    Reads-bind _ _ (int_or-Reads "tensor_parallel_size" gpus_per_node)
                      (λ tp tp_default.
                        Reads-bind _ _ (int_or-Reads "pipeline_parallel_size" node_count)
                          (λ pp pp_default.
                            Reads-bind _ _ (int_or-Reads "head_port" (pos 6379)) (λ port _.
                              Reads-bind _ _ (int_or-Reads "cluster_wait_seconds" (pos 1800))
                                (λ wait _. record { at = (tp_default, pp_default) }))))))))))

-- The parser raises for a payload only if one of its numbers is infinite: everything else that is
-- malformed gives None or parameters.
parse-raises :
    (raw : Dict Value) → parse_multi_node_params (some raw) ≡ overflowed → ¬ AllFinite raw
unfolding parse_multi_node_params Escapes
parse-raises raw e h = go (parse_raw raw) (parse_raw-Reads raw) e
  where
    go :
        (r : Reading MultiNodeParams)
        → Reads (HasDefaults raw) (AllFinite raw → ⊥) r
        → elim r [ read p ↦ read (some p) | refused ↦ read none | overflowed ↦ overflowed ]
          ≡ overflowed
        → ⊥
    go (read p) q e = ground arith
    go refused q e = ground arith
    go overflowed q e = q.at h

-- Where the payload leaves both degrees out, the parameters that are read shard each node's model
-- over its own GPUs and make one stage of each node, so they use all the GPUs that are reserved.
parse-defaults :
    (raw : Dict Value) (p : MultiNodeParams)
    → parse_multi_node_params (some raw) ≡ read (some p)
    → IsDefaulted "tensor_parallel_size" raw
    → IsDefaulted "pipeline_parallel_size" raw
    → (p.tensor_parallel_size ≡ p.gpus_per_node)
      × (p.pipeline_parallel_size ≡ p.node_count)
      × (world_size p ≡ total_gpus p)
unfolding parse_multi_node_params world_size total_gpus
parse-defaults raw p e tp pp =
    let h = go (parse_raw raw) (parse_raw-Reads raw) e in
    (h.0 tp, h.1 pp, ap₂ ◌*ℤ◌ (h.0 tp) (h.1 pp) ∙ *ℤ_comm p.gpus_per_node p.node_count)
  where
    params_or : MultiNodeParams → Reading (Option MultiNodeParams) → MultiNodeParams
    params_or q (read (some r)) = r
    params_or q (read none) = q
    params_or q refused = q
    params_or q overflowed = q

    go :
        (r : Reading MultiNodeParams)
        → Reads (HasDefaults raw) (Escapes raw) r
        → elim r [ read q ↦ read (some q) | refused ↦ read none | overflowed ↦ overflowed ]
          ≡ read (some p)
        → HasDefaults raw p
    go (read q) h e = subst (HasDefaults raw) (ap (params_or q) e) h.at
    go refused h e = ground arith
    go overflowed h e = ground arith
