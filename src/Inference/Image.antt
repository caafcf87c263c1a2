-- ===== src/Inference/Image.antt =====
-- _pick_vllm_image, _vllm_image_uses_json_mm_limit and _looks_like_vision_model, on ASCII.
-- A compute capability is counted in thousandths, cut off; nvidia-smi prints digits and a point.
use greenference_node.Base.{
  ℕ, zero, suc, ◌+◌, ◌-◌, ◌*◌, String, Bool, true, false, ◌&&◌, ◌||◌, Option, none, some, List, [],
  ◌∷◌, ℤ, pos, ltb_ℤ, eq_ℤ, not, ltb, leb, ◌==◌, if◌then◌else◌,
}
use greenference_node.Text.{codes, lower, contains}
use greenference_node.Text.Words.{strip_text, split}
use greenference_node.Multinode.Payload.{text, to_int, read, refused, overflowed}

pub data VllmImage : Type 0 where
  cu130 cu12 : VllmImage

-- The digits at the head of a text: how many, their number, and what follows.
abbrev Digits : Type 0
Digits = ℕ × ℕ × List ℕ

digits_from : ℕ → ℕ → List ℕ → Digits
digits_from count value [] = (count, value, [])
digits_from count value (c ∷ s) =
    let more = digits_from (suc count) (value * 10 + (c - b'0')) s in
    if leb b'0' c && leb c b'9' then more else (count, value, c ∷ s)

-- A number of thousandths, of the first three decimals.
thousandths : ℕ → ℕ → List ℕ → Option ℕ
thousandths whole zero [] = some whole
thousandths whole (suc n) [] = thousandths (whole * 10) n []
thousandths whole places (c ∷ s) =
    if leb b'0' c && leb c b'9'
    then elim places [
      | zero ↦ thousandths whole zero s
      | suc n ↦ thousandths (whole * 10 + (c - b'0')) n s
    ]
    else none

decimals : Digits → Option ℕ
unfolding thousandths
decimals (zero, value, rest) = none
decimals (suc count, value, []) = thousandths value 3 []
decimals (suc count, value, c ∷ rest) = if c == b'.' then thousandths value 3 rest else none

-- `float(s)`: digits, with decimals after a point
capability : String → Option ℕ
unfolding digits_from decimals
capability s = decimals (digits_from 0 0 (codes s))

pub record Gpu : Type 0 where
  pub capability : ℕ
  pub driver_major : ℤ

first : List String → String
first [] = ""
first (p ∷ pieces) = p

-- `int(parts[1].split(".")[0])`
driver : String → Option ℤ
unfolding first split to_int
driver s = elim (to_int (text (first (split b'.' s)))) [
  | read n ↦ some n
  | refused ↦ none
  | overflowed ↦ none
]

-- A line that does not parse is passed over.
parsed_line : List String → Option Gpu
unfolding capability driver
parsed_line (a ∷ b ∷ parts) = elim (capability (strip_text a)) [
  | none ↦ none
  | some cc ↦ elim (driver (strip_text b)) [
    | none ↦ none
    | some d ↦ some (record { capability = cc; driver_major = d })
  ]
]
parsed_line parts = none

parsed : List String → List Gpu
unfolding parsed_line split
parsed [] = []
parsed (line ∷ lines) = elim (parsed_line (split b',' line)) [
  | none ↦ parsed lines
  | some gpu ↦ gpu ∷ parsed lines
]

-- `max_compute`, `min_compute` and `min_driver_major` after the loop.
pub record Extremes : Type 0 where
  pub max_compute : ℕ
  pub min_compute : ℕ
  pub min_driver_major : ℤ

unfoldable pub see : Extremes → Gpu → Extremes
see e gpu = record {
  max_compute = if ltb e.max_compute gpu.capability then gpu.capability else e.max_compute;
  min_compute = if ltb gpu.capability e.min_compute then gpu.capability else e.min_compute;
  min_driver_major =
      if ltb_ℤ gpu.driver_major e.min_driver_major then gpu.driver_major else e.min_driver_major;
}

unfoldable pub see_all : Extremes → List Gpu → Extremes
unfolding see
see_all e [] = e
see_all e (gpu ∷ gpus) = see_all (see e gpu) gpus

unfoldable pub choose_image : Extremes → VllmImage
choose_image e =
    if leb 12000 e.max_compute
    then cu130
    else if ltb e.min_compute 8900
    then cu12
    else if ltb_ℤ e.min_driver_major (pos 580) && not (eq_ℤ e.min_driver_major (pos 9999))
    then cu12
    else cu130

unfoldable pub pick_from : List Gpu → VllmImage
unfolding see_all choose_image
pick_from gpus =
    choose_image
      (see_all (record { max_compute = 0; min_compute = 999000; min_driver_major = pos 9999 }) gpus)

unfoldable pub pick_vllm_image : String → VllmImage
unfolding parsed pick_from
pick_vllm_image nvidia_smi_csv = pick_from (parsed (split b'\n' nvidia_smi_csv))

minor_version : ℕ → Digits → Option (ℕ × ℕ)
minor_version major (zero, minor, end) = none
minor_version major (suc m, minor, end) = some (major, minor)

major_version : Digits → Option (ℕ × ℕ)
unfolding minor_version digits_from
major_version (zero, major, rest) = none
major_version (suc n, major, []) = none
major_version (suc n, major, c ∷ rest) =
    if c == b'.' then minor_version major (digits_from 0 0 rest) else none

-- A match of `v?(\d+)\.(\d+)` at the head of a text.
version_here : List ℕ → Option (ℕ × ℕ)
unfolding digits_from major_version
version_here s = major_version (digits_from 0 0 s)

or_else : Option (ℕ × ℕ) → Option (ℕ × ℕ) → Option (ℕ × ℕ)
or_else none o = o
or_else (some v) o = some v

-- The first match; the optional letter changes neither number.
find_version : List ℕ → Option (ℕ × ℕ)
unfolding version_here or_else
find_version [] = none
find_version (c ∷ s) = or_else (version_here (c ∷ s)) (find_version s)

-- `(major, minor) >= (0, 10)`
unfoldable pub uses_json_mm_limit : String → Bool
unfolding find_version
uses_json_mm_limit image = elim (find_version (codes image)) [
  | none ↦ true
  | some (major, minor) ↦ ltb 0 major || leb 10 minor
]

contains_any : List ℕ → List String → Bool
unfolding contains
contains_any s [] = false
contains_any s (k ∷ markers) = contains s (codes k) || contains_any s markers

unfoldable pub looks_like_vision_model : String → Bool
unfolding lower contains_any
looks_like_vision_model model_id = contains_any (lower (codes model_id)) (
    "-vl-" ∷ "-vl/" ∷ "vl-instruct" ∷ "vision-instruct" ∷ "-vision-" ∷ "vision-chat"
    ∷ "phi-3-vision" ∷ "phi-3.5-vision" ∷ "llava" ∷ "idefics" ∷ "cogvlm" ∷ [])
