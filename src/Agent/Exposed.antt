-- ===== src/Agent/Exposed.antt =====
-- The ports that a pod exposes: what is asked for, and which host ports are handed out.
use greenference_node.Base.{
  ℕ, ◌≤◌, ◌<◌, ◌≡◌, ◌≢◌, refl, true, false, List, [], ◌∷◌, ◌++◌, length, leb, arith, length-append,
  Bool-cases, inl, inr,
}
use greenference_node.Devices.{mem}
use greenference_node.Protocol.{RequestedPort, port, not_a_number}
use greenference_node.Agent.Exec.{}
use greenference_node.Agent.Ports.{wanted, normalize, requested_ports}

abbrev pub IsDistinct : List ℕ → Type 0
IsDistinct [] = Unit
IsDistinct (x ∷ l) = (mem x l ≡ false) × IsDistinct l

-- A port that may be exposed; 22 is the pod's own SSH port.
abbrev pub IsExposable : ℕ → Type 0
IsExposable p = (1 ≤ p) × (p ≤ 65535) × (p ≢ 22)

abbrev pub AreExposable : List ℕ → Type 0
AreExposable [] = Unit
AreExposable (p ∷ l) = IsExposable p × AreExposable l

pub mem-snoc : (x p : ℕ) (l : List ℕ) → mem x l ≡ false → x ≢ p → mem x (l ++ p ∷ []) ≡ false
unfolding mem
mem-snoc x p [] h ne = ground arith
mem-snoc x p (y ∷ l) h ne = ground (arith, mem-snoc x p l)

pub IsDistinct-snoc :
    (p : ℕ) (l : List ℕ) → IsDistinct l → mem p l ≡ false → IsDistinct (l ++ p ∷ [])
unfolding mem
IsDistinct-snoc p [] d h = (refl, tt)
IsDistinct-snoc p (y ∷ l) d h =
    (mem-snoc y p l d.0 (ground arith), IsDistinct-snoc p l d.1 (ground arith))

AreExposable-snoc :
    (p : ℕ) (l : List ℕ) → AreExposable l → IsExposable p → AreExposable (l ++ p ∷ [])
AreExposable-snoc p [] a e = (e, tt)
AreExposable-snoc p (y ∷ l) a e = (a.0, AreExposable-snoc p l a.1 e)

pub record IsPortList (l : List ℕ) : Type 0 where
  pub few : length l ≤ 10
  pub exposable : AreExposable l
  pub distinct : IsDistinct l

wanted-IsPortList :
    (p : ℕ) (l : List ℕ)
    → IsPortList l
    → length l < 10
    → wanted p l ≡ true
    → IsPortList (l ++ p ∷ [])
wanted-IsPortList p l ok room w = record {
  few = omega (arith, length-append l (p ∷ []));
  exposable = AreExposable-snoc p l ok.exposable (ground arith, ground arith, ground arith);
  distinct = IsDistinct-snoc p l ok.distinct (ground arith);
}

normalize-IsPortList :
    (raw : List RequestedPort) (l : List ℕ)
    → IsPortList l
    → length l < 10
    → IsPortList (normalize raw l)
unfolding normalize
normalize-IsPortList [] l ok room = ok
normalize-IsPortList (not_a_number ∷ rest) l ok room = normalize-IsPortList rest l ok room
normalize-IsPortList (port p ∷ rest) l ok room = elim (Bool-cases (wanted p l)) [
  | inl w ↦
      let ok' = wanted-IsPortList p l ok room w in
      elim (Bool-cases (leb 10 (length (l ++ p ∷ [])))) [
        | inl full ↦ rw (w, full) ok'
        | inr more ↦ rw (w, more) (normalize-IsPortList rest (l ++ p ∷ []) ok' (ground arith))
      ]
  | inr u ↦ elim (Bool-cases (leb 10 (length l))) [
    | inl full ↦ rw (u, full) ok
    | inr more ↦ rw (u, more) (normalize-IsPortList rest l ok room)
  ]
]

-- Whatever a workload lists, the ports that its pod asks for are at most ten, differ, and lie in
-- 1..65535 without 22.
pub requested_ports-IsPortList : (raw : List RequestedPort) → IsPortList (requested_ports raw)
unfolding requested_ports
requested_ports-IsPortList raw =
    normalize-IsPortList raw [] (record { few = omega arith; exposable = tt; distinct = tt })
      (omega arith)
