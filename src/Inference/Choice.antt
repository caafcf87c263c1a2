-- ===== src/Inference/Choice.antt =====
-- Which image a host gets.
use greenference_node.Base.{
  ◌≡◌, ◌∙◌, arith, Bool, false, ◌||◌, List, [], ◌∷◌, pos, ltb_ℤ, ltb, leb, if◌then◌else◌,
}
use greenference_node.Inference.Image.{
  VllmImage, cu130, cu12, Gpu, Extremes, see, see_all, choose_image, pick_from,
}

abbrev pub any : (Gpu → Bool) → List Gpu → Bool
any f [] = false
any f (gpu ∷ gpus) = f gpu || any f gpus

-- What the image must be: cu130 where a GPU is of the Blackwell generation, cu12 where none is and
-- some GPU is older than Ada or some driver is older than 580, and cu130 on any other host.
unfoldable pub required_image : List Gpu → VllmImage
required_image gpus =
    if any (λ g. leb 12000 g.capability) gpus
    then cu130
    else if any (λ g. ltb g.capability 8900) gpus || any (λ g. ltb_ℤ g.driver_major (pos 580)) gpus
    then cu12
    else cu130

see_all-max :
    (e : Extremes) (gpus : List Gpu)
    → leb 12000 (see_all e gpus).max_compute
      ≡ leb 12000 e.max_compute || any (λ g. leb 12000 g.capability) gpus
unfolding see_all see
see_all-max e [] = ground arith
see_all-max e (gpu ∷ gpus) = see_all-max (see e gpu) gpus ∙ ground arith

see_all-min :
    (e : Extremes) (gpus : List Gpu)
    → ltb (see_all e gpus).min_compute 8900
      ≡ ltb e.min_compute 8900 || any (λ g. ltb g.capability 8900) gpus
unfolding see_all see
see_all-min e [] = ground arith
see_all-min e (gpu ∷ gpus) = see_all-min (see e gpu) gpus ∙ ground arith

see_all-driver :
    (e : Extremes) (gpus : List Gpu)
    → ltb_ℤ (see_all e gpus).min_driver_major (pos 580)
      ≡ ltb_ℤ e.min_driver_major (pos 580) || any (λ g. ltb_ℤ g.driver_major (pos 580)) gpus
unfolding see_all see
see_all-driver e [] = ground arith
see_all-driver e (gpu ∷ gpus) = see_all-driver (see e gpu) gpus ∙ ground arith

choose_image-decided :
    (e : Extremes) (new old outdated : Bool)
    → leb 12000 e.max_compute ≡ new
    → ltb e.min_compute 8900 ≡ old
    → ltb_ℤ e.min_driver_major (pos 580) ≡ outdated
    → choose_image e ≡ (if new then cu130 else if old || outdated then cu12 else cu130)
unfolding choose_image
choose_image-decided e new old outdated n o d = ground arith

-- The running extremes choose the image that the host's GPUs and drivers require, one by one.
pub pick_from-required : (gpus : List Gpu) → pick_from gpus ≡ required_image gpus
unfolding pick_from required_image
pick_from-required gpus =
    choose_image-decided (see_all start gpus) _ _ _ (see_all-max start gpus)
      (see_all-min start gpus) (see_all-driver start gpus)
  where
    start : Extremes
    start = record { max_compute = 0; min_compute = 999000; min_driver_major = pos 9999 }
