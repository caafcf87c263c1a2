-- ===== src/Multinode/Flags.antt =====
-- What the rewritten commands say to docker and to the server.
use greenference_node.Base.{
  ◌≡◌, refl, ap, ◌∙◌, arith, String, Bool, Option, none, some, true, false, ◌&&◌, List, [], ◌∷◌,
  ◌++◌, str_eq, if◌then◌else◌,
}
use greenference_node.Text.Words.{one_of}
use greenference_node.Multinode.Params.{MultiNodeParams}
use greenference_node.Multinode.Options.{
  keep, after_docker_run, strip_flags, set_shm_size, strip_port_publish, strip_parallelism_flags,
  docker_network_flags, docker_ulimit_flags, build_distributed_vllm_flags,
}
use greenference_node.Multinode.Commands.{rank_flags}
use Prim.Native.String.{◌++◌ as append}

-- No word of `drop` stands in a command.
abbrev pub IsFree : List String → List String → Type 0
IsFree drop [] = Unit
IsFree drop (flag ∷ flags) = (one_of flag drop ≡ false) × IsFree drop flags

-- The values that a command gives a flag, read from the left as a parser of options does that
-- knows the flags of `takes`, each with one value; `pending` is the flag that waits for its value.
found_value : Bool → String → List String → List String
found_value true word values = word ∷ values
found_value false word values = values

unfoldable pub given : List String → String → Option String → List String → List String
unfolding found_value
given takes key pending [] = []
given takes key (some flag) (word ∷ words) =
    found_value (str_eq flag key) word (given takes key none words)
given takes key none (word ∷ words) =
    given takes key (if one_of word takes then some word else none) words

module _ (drop : List String) where
  strip_flags-IsFree :
      (skip : Bool) (flags : List String) → IsFree drop (strip_flags drop skip flags)
  unfolding strip_flags keep
  strip_flags-IsFree skip [] = tt
  strip_flags-IsFree true (flag ∷ flags) = strip_flags-IsFree false flags
  strip_flags-IsFree false (flag ∷ flags) =
      kept (one_of flag drop) refl (strip_flags drop (one_of flag drop) flags)
        (strip_flags-IsFree (one_of flag drop) flags)
    where
      kept :
          (b : Bool)
          → one_of flag drop ≡ b
          → (rest : List String) → IsFree drop rest
          → IsFree drop (keep b flag rest)
      kept true e rest h = h
      kept false e rest h = (e, h)

  strip_flags-free :
      (flags : List String) → IsFree drop flags → strip_flags drop false flags ≡ flags
  unfolding strip_flags keep
  strip_flags-free [] h = refl
  strip_flags-free (flag ∷ flags) h = ground (arith, h.0, strip_flags-free flags h.1)

  strip_flags-idempotent :
      (flags : List String)
      → strip_flags drop false (strip_flags drop false flags) ≡ strip_flags drop false flags
  strip_flags-idempotent flags =
      strip_flags-free (strip_flags drop false flags) (strip_flags-IsFree false flags)

IsFree-append :
    (drop xs ys : List String) → IsFree drop xs → IsFree drop ys → IsFree drop (xs ++ ys)
IsFree-append drop [] ys h k = k
IsFree-append drop (x ∷ xs) ys h k = (h.0, IsFree-append drop xs ys h.1 k)

given-free :
    (takes : List String) (key : String) (xs ys : List String)
    → IsFree takes xs
    → given takes key none (xs ++ ys) ≡ given takes key none ys
unfolding given
given-free takes key [] ys h = refl
given-free takes key (x ∷ xs) ys h = rw (given, h.0) (given-free takes key xs ys h.1)

-- The words that start the server on the head, after those of its entry.
abbrev pub server_words : List String → List String → MultiNodeParams → List String
server_words entry serve_argv p =
    entry ++ (strip_parallelism_flags serve_argv ++ build_distributed_vllm_flags p)

strip_flags-keeps-IsFree :
    (drop other : List String) (skip : Bool) (flags : List String)
    → IsFree drop flags
    → IsFree drop (strip_flags other skip flags)
unfolding strip_flags keep
strip_flags-keeps-IsFree drop other skip [] h = h
strip_flags-keeps-IsFree drop other true (flag ∷ flags) h =
    strip_flags-keeps-IsFree drop other false flags h.1
strip_flags-keeps-IsFree drop other false (flag ∷ flags) h =
    kept (one_of flag other) (strip_flags-keeps-IsFree drop other (one_of flag other) flags h.1)
  where
    kept :
        (b : Bool)
        → IsFree drop (strip_flags other b flags)
        → IsFree drop (keep b flag (strip_flags other b flags))
    kept true k = k
    kept false k = (h.0, k)

abbrev pub ports : List String
ports = "-p" ∷ "--publish" ∷ []

abbrev pub shm : List String
shm = "--shm-size" ∷ []

after_docker_run-IsFree :
    (out : List String) → IsFree ports out → IsFree ports (after_docker_run "32g" out)
unfolding after_docker_run one_of
after_docker_run-IsFree [] h = (refl, (refl, tt))
after_docker_run-IsFree (a ∷ []) h = (refl, (refl, h))
after_docker_run-IsFree (a ∷ b ∷ out) h = by_case (str_eq a "docker" && str_eq b "run")
  where
    by_case :
        (c : Bool)
        → IsFree ports
            (if c then a ∷ b ∷ "--shm-size" ∷ "32g" ∷ out else "--shm-size" ∷ "32g" ∷ a ∷ b ∷ out)
    by_case true = (h.0, (h.1.0, (refl, (refl, h.1.1))))
    by_case false = (refl, (refl, h))

after_docker_run-given :
    (out rest : List String)
    → IsFree shm out
    → given shm "--shm-size" none (after_docker_run "32g" out ++ rest)
      ≡ "32g" ∷ given shm "--shm-size" none rest
unfolding after_docker_run given one_of
after_docker_run-given [] rest h = refl
after_docker_run-given (a ∷ []) rest h =
    ap (λ r. "32g" ∷ r) (given-free shm "--shm-size" (a ∷ []) rest h)
after_docker_run-given (a ∷ b ∷ out) rest h = by_case (str_eq a "docker" && str_eq b "run")
  where
    passed :
        (xs ys : List String)
        → IsFree shm xs
        → given shm "--shm-size" none (xs ++ ys) ≡ given shm "--shm-size" none ys
    passed xs ys = given-free shm "--shm-size" xs ys

    by_case :
        (c : Bool)
        → given shm "--shm-size" none (
            (if c then a ∷ b ∷ "--shm-size" ∷ "32g" ∷ out else "--shm-size" ∷ "32g" ∷ a ∷ b ∷ out)
            ++ rest)
          ≡ "32g" ∷ given shm "--shm-size" none rest
    by_case true =
        passed (a ∷ b ∷ []) ("--shm-size" ∷ "32g" ∷ out ++ rest) (h.0, (h.1.0, tt))
        ∙ ap (λ r. "32g" ∷ r) (passed out rest h.1.1)
    by_case false = ap (λ r. "32g" ∷ r) (passed (a ∷ b ∷ out) rest h)

-- A rank's docker run publishes no port, whatever the single-node run published, and sizes its
-- shared memory once.
pub rank_flags-given :
    (docker_flags : List String)
    → IsFree ports (rank_flags docker_flags)
      × (given shm "--shm-size" none (rank_flags docker_flags) ≡ "32g" ∷ [])
unfolding rank_flags set_shm_size strip_port_publish docker_network_flags docker_ulimit_flags given
    one_of
rank_flags-given docker_flags =
    let published = strip_flags ports false docker_flags in
    let added = docker_network_flags ++ (docker_ulimit_flags ++ ("--entrypoint" ∷ "sh" ∷ [])) in
    let out = strip_flags shm false published in
    (
      IsFree-append ports (after_docker_run "32g" out) added
          (after_docker_run-IsFree out (
            strip_flags-keeps-IsFree ports shm false published
              (strip_flags-IsFree ports false docker_flags)))
          (refl, (refl, (refl, (refl, (refl, (refl, tt)))))),
      after_docker_run-given out added (strip_flags-IsFree shm false published),
    )
