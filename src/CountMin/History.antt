-- ===== src/CountMin/History.antt =====
-- What the sketch is measured against: the observations that were inserted, and their totals.
use go2net_spectra.Base.{
  ℕ, suc, ◌+◌, ◌^◌, ◌≤◌, ◌<◌, ◌≡◌, refl, arith, Bytes, bytes_eq, not, ◌&&◌, ◌==◌, if◌then◌else◌,
  length, List, [], ◌∷◌, All,
}
use go2net_spectra.CountMin.{new_count_min, CountMin, index, insert_flow}
use go2net_spectra.CountMin.Shape.{IsValid, insert_flow-IsValid}

-- The arguments of one call of `Insert`.
pub record Observation : Type 0 where
  pub flow : Bytes
  pub elem : Bytes
  pub size : ℕ

-- The sketch after a history of insertions, the latest first.
abbrev pub after : CountMin → List Observation → CountMin
after t [] = t
after t (o ∷ past) = insert_flow (after t past) o.flow o.elem o.size

-- A sketch that `NewCountMin` made, after a history.
abbrev pub used : (ℕ → ℕ) → ℕ → ℕ → ℕ → ℕ → ℕ → List Observation → CountMin
used rand width depth st ct fs past = after (new_count_min rand width depth st ct fs) past

-- Flow keys have the sketch's key length, and sizes are 32-bit words.
abbrev pub Fits : ℕ → Observation → Type 0
Fits fs o = (length o.flow ≡ fs) × (o.size < 2 ^ 32)

-- How often a flow was inserted.
abbrev pub occurrences : Bytes → List Observation → ℕ
occurrences f [] = 0
occurrences f (o ∷ past) =
    if bytes_eq o.flow f then suc (occurrences f past) else occurrences f past

-- How many bytes were inserted for it.
abbrev pub total_size : Bytes → List Observation → ℕ
total_size f [] = 0
total_size f (o ∷ past) =
    if bytes_eq o.flow f then o.size + total_size f past else total_size f past

-- How many insertions of other flows fell in the flow's bucket of the row with the seed `s`.
abbrev pub rivals : ℕ → ℕ → Bytes → List Observation → ℕ
rivals w s f [] = 0
rivals w s f (o ∷ past) =
    if not (bytes_eq o.flow f) && (index w o.flow s == index w f s)
    then suc (rivals w s f past)
    else rivals w s f past

pub occurrences-le-length : (f : Bytes) (past : List Observation) → occurrences f past ≤ length past
occurrences-le-length f [] = omega arith
occurrences-le-length f (o ∷ past) = ground (arith, occurrences-le-length f past)

-- A well-formed sketch stays so through any history, and keeps its seeds and its width.
pub after-IsValid :
    (fs : ℕ) (t : CountMin) (past : List Observation)
    → All (Fits fs) past
    → IsValid fs t
    → IsValid fs (after t past)
after-IsValid fs t [] a v = v
after-IsValid fs t (o ∷ past) (h, a) v =
    insert_flow-IsValid fs (after t past) o.flow o.elem o.size h.1 (after-IsValid fs t past a v)

pub after-w : (t : CountMin) (past : List Observation) → (after t past).w ≡ t.w
unfolding insert_flow
after-w t [] = refl
after-w t (o ∷ past) = after-w t past

pub after-seed : (t : CountMin) (past : List Observation) → (after t past).seed ≡ t.seed
unfolding insert_flow
after-seed t [] = refl
after-seed t (o ∷ past) = after-seed t past
