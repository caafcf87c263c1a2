-- ===== src/Multinode/Topology.antt =====
-- validate_params
use greenference_node.Base.{
  negate-le, ◌∙◌, mul-negate, negate, suc, negsuc, ◌*ℤ◌, eq_iff, eq_ℤ_iff, ltb_ℤ_iff, arith, ◌≤ℤ◌,
  ◌↔◌, ℕ, arith, ◌<◌, ◌≤◌, ◌*◌, ap, ◌≡◌, ◌≢◌, refl, String, Bool, true, false, not, ◌&&◌, List, [],
  ◌∷◌, ◌++◌, ℤ, pos, eq_ℤ, ltb_ℤ, if◌then◌else◌,
}
use greenference_node.Text.Words.{is_empty}
use greenference_node.Multinode.Params.{
  leads, Role, head, worker, MultiNodeParams, is_head, world_size, total_gpus,
}

pub data Problem : Type 0 where
  too_few_nodes too_few_gpus world_size_differs tensor_parallel_spans_nodes no_head_host
        head_not_rank_zero rank_zero_is_reserved :
      Problem

problem_if : Bool → Problem → List Problem
problem_if b problem = if b then problem ∷ [] else []

unfoldable pub validate_params : MultiNodeParams → List Problem
unfolding problem_if world_size total_gpus is_head is_empty
validate_params p =
    problem_if (ltb_ℤ p.node_count (pos 2)) too_few_nodes
    ++ problem_if (ltb_ℤ p.gpus_per_node (pos 1)) too_few_gpus
    ++ problem_if (not (eq_ℤ (world_size p) (total_gpus p))) world_size_differs
    ++ problem_if (ltb_ℤ p.gpus_per_node p.tensor_parallel_size) tensor_parallel_spans_nodes
    ++ problem_if (not (is_head p) && is_empty p.head_host) no_head_host
    ++ problem_if (is_head p && not (eq_ℤ p.rank (pos 0))) head_not_rank_zero
    ++ problem_if (not (is_head p) && eq_ℤ p.rank (pos 0)) rank_zero_is_reserved

no_problem :
    (b : Bool) (problem : Problem) (rest : List Problem)
    → (problem_if b problem ++ rest ≡ []) ↔ ((b ≡ false) × (rest ≡ []))
unfolding problem_if
no_problem false problem rest = (λ e. (refl, e), λ h. h.1)
no_problem true problem rest = ground arith

-- What the validation asks of the numbers; degrees that are both negative can meet it.
IsAdmitted : MultiNodeParams → Type 0
unfolding world_size total_gpus
IsAdmitted p =
    (pos 2 ≤ℤ p.node_count)
    × (pos 1 ≤ℤ p.gpus_per_node)
    × (world_size p ≡ total_gpus p)
    × (p.tensor_parallel_size ≤ℤ p.gpus_per_node)
    × ((p.role ≡ worker) → p.head_host ≢ "")
    × ((p.role ≡ head) ↔ (p.rank ≡ pos 0))

all_clear :
    (few_nodes few_gpus differs spans no_host not_zero reserved : Bool)
    → (problem_if few_nodes too_few_nodes
          ++ problem_if few_gpus too_few_gpus
          ++ problem_if differs world_size_differs
          ++ problem_if spans tensor_parallel_spans_nodes
          ++ problem_if no_host no_head_host
          ++ problem_if not_zero head_not_rank_zero
          ++ problem_if reserved rank_zero_is_reserved
        ≡ [])
      ↔ ((few_nodes ≡ false)
          × (few_gpus ≡ false)
          × (differs ≡ false)
          × (spans ≡ false)
          × (no_host ≡ false)
          × (not_zero ≡ false)
          × (reserved ≡ false))
unfolding problem_if
all_clear few_nodes few_gpus differs spans no_host not_zero reserved = ground arith

is_empty_iff : (s : String) → (is_empty s ≡ false) ↔ (s ≢ "")
unfolding is_empty
is_empty_iff s = ground (arith, eq_iff s "")

host_and_rank :
    (role : Role) (host : String) (rank : ℤ)
    → ((not (leads role) && is_empty host ≡ false)
        × (leads role && not (eq_ℤ rank (pos 0)) ≡ false)
        × (not (leads role) && eq_ℤ rank (pos 0) ≡ false))
      ↔ (((role ≡ worker) → host ≢ "") × ((role ≡ head) ↔ (rank ≡ pos 0)))
unfolding leads
host_and_rank head host rank = ground (arith, is_empty_iff host, eq_ℤ_iff rank (pos 0))
host_and_rank worker host rank = ground (arith, is_empty_iff host, eq_ℤ_iff rank (pos 0))

true_of : (b : Bool) → not b ≡ false → b ≡ true
true_of b e = ground arith

validate_params-IsAdmitted : (p : MultiNodeParams) → (validate_params p ≡ []) ↔ IsAdmitted p
unfolding validate_params is_head IsAdmitted
validate_params-IsAdmitted p =
    let clear =
      all_clear (ltb_ℤ p.node_count (pos 2)) (ltb_ℤ p.gpus_per_node (pos 1))
        (not (eq_ℤ (world_size p) (total_gpus p))) (ltb_ℤ p.gpus_per_node p.tensor_parallel_size)
        (not (is_head p) && is_empty p.head_host) (is_head p && not (eq_ℤ p.rank (pos 0)))
        (not (is_head p) && eq_ℤ p.rank (pos 0)) in
    let nodes = ltb_ℤ_iff p.node_count (pos 2) in
    let gpus = ltb_ℤ_iff p.gpus_per_node (pos 1) in
    let sizes = eq_ℤ_iff (world_size p) (total_gpus p) in
    let spans = ltb_ℤ_iff p.gpus_per_node p.tensor_parallel_size in
    let rest = host_and_rank p.role p.head_host p.rank in
    (
      λ e.
          let c = clear.0 e in
          let r = rest.0 (c.4, c.5, c.6) in
          (
            nodes.0 c.0,
            gpus.0 c.1,
            sizes.0 (true_of (eq_ℤ (world_size p) (total_gpus p)) c.2),
            spans.0 c.3,
            r.0,
            r.1,
          ),
      λ h.
          let r = rest.1 (h.4, h.5) in
          clear.1 (nodes.1 h.0, gpus.1 h.1, ap not (sizes.1 h.2), spans.1 h.3, r.0, r.1, r.2),
    )

mul_lt : (t p n g : ℕ) → 1 ≤ t → t ≤ g → p < n → t * p < n * g
mul_lt t p n g ht hg hp = grind arith

mul-pos : (t p : ℕ) → 1 ≤ t → 1 ≤ t * suc p
mul-pos t p ht = grind arith

covers : (t p n g : ℤ) → pos 1 ≤ℤ t → pos 2 ≤ℤ n → t ≤ℤ g → t *ℤ p ≡ n *ℤ g → n ≤ℤ p
unfolding ◌*ℤ◌
covers (pos t) (pos p) (pos n) (pos g) ht hn hg e = ground (arith, mul_lt t p n g)
covers (pos t) (pos p) (pos n) (negsuc g) ht hn hg e = ground arith
covers (pos t) (negsuc p) (pos n) (pos g) ht hn hg e = ground (arith, mul-pos t p)
covers (pos t) (negsuc p) (pos n) (negsuc g) ht hn hg e = ground arith
covers (pos t) p (negsuc n) g ht hn hg e = ground arith
covers (negsuc t) p n g ht hn hg e = ground arith

-- In a share that passes with a positive tensor parallel degree, the pipeline has at least one
-- stage for every node, and so at least two.
pub stages_cover_nodes :
    (p : MultiNodeParams)
    → validate_params p ≡ []
    → pos 1 ≤ℤ p.tensor_parallel_size
    → (p.node_count ≤ℤ p.pipeline_parallel_size) × (pos 2 ≤ℤ p.pipeline_parallel_size)
unfolding IsAdmitted world_size total_gpus
stages_cover_nodes p valid ht =
    let c = (validate_params-IsAdmitted p).0 valid in
    let cover =
      covers p.tensor_parallel_size p.pipeline_parallel_size p.node_count p.gpus_per_node ht c.0 c.3
        c.2 in
    (cover, omega (arith, c.0, cover))

-- A share that passes with a tensor parallel degree of at least 0 still passes when both degrees
-- are negated.
pub negative_degrees_pass :
    (p : MultiNodeParams)
    → validate_params p ≡ []
    → pos 0 ≤ℤ p.tensor_parallel_size
    → validate_params (record p {
      tensor_parallel_size = negate p.tensor_parallel_size;
      pipeline_parallel_size = negate p.pipeline_parallel_size;
    })
      ≡ []
unfolding IsAdmitted world_size total_gpus
negative_degrees_pass p valid ht =
    let c = (validate_params-IsAdmitted p).0 valid in
    let q = record p {
      tensor_parallel_size = negate p.tensor_parallel_size;
      pipeline_parallel_size = negate p.pipeline_parallel_size;
    } in
    (validate_params-IsAdmitted q).1 (
      c.0,
      c.1,
      mul-negate p.tensor_parallel_size p.pipeline_parallel_size ∙ c.2,
      negate-le p.tensor_parallel_size p.gpus_per_node ht c.1,
      c.4,
      c.5,
    )
