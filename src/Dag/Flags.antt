-- ===== src/Dag/Flags.antt =====
-- The flags `scheduled` of layer_into_waves: counting and marking.
use gwead.Prelude.{
  ℕ, zero, suc, ◌+◌, ◌≤◌, ◌<◌, ◌≡◌, ◌≢◌, refl, sym, ap, ◌∙◌, subst, ◌↔◌, ◌⊎◌, inl, inr, Bool, true,
  false, List, [], ◌∷◌, length, length-set, get_or, set, All, In, arith, Bool-cases, ◌==◌, ==_iff,
}
use gwead.Dag.{mark}

abbrev pub Increasing : ℕ → List ℕ → Type 0
Increasing lo [] = Unit
Increasing lo (j ∷ w) = (lo ≤ j) × Increasing (suc j) w

pub All-map : {P Q : ℕ → Type 0} (xs : List ℕ) → ((x : ℕ) → P x → Q x) → All P xs → All Q xs
All-map [] f h = tt
All-map (x ∷ xs) f h = (f x h.0, All-map xs f h.1)

pub Increasing-lower : (lo lo' : ℕ) (w : List ℕ) → lo' ≤ lo → Increasing lo w → Increasing lo' w
Increasing-lower lo lo' [] h k = tt
Increasing-lower lo lo' (j ∷ w) h k = (omega arith, k.1)

unfoldable pub open_count : List Bool → ℕ
open_count [] = 0
open_count (true ∷ bs) = open_count bs
open_count (false ∷ bs) = suc (open_count bs)

pub open_count-set :
    (flags : List Bool) (j : ℕ)
    → j < length flags
    → get_or flags j false ≡ false
    → suc (open_count (set flags j true)) ≡ open_count flags
unfolding open_count
open_count-set [] j lt e = absurd (omega arith)
open_count-set (true ∷ bs) zero lt e = cc
open_count-set (false ∷ bs) zero lt e = refl
open_count-set (true ∷ bs) (suc j) lt e = open_count-set bs j (omega arith) e
open_count-set (false ∷ bs) (suc j) lt e = ap suc (open_count-set bs j (omega arith) e)

pub open_count_zero :
    (flags : List Bool)
    → ((j : ℕ) → j < length flags → get_or flags j false ≡ true)
    → open_count flags ≡ 0
unfolding open_count
open_count_zero [] h = refl
open_count_zero (true ∷ bs) h = open_count_zero bs (λ j lt. h (suc j) (omega arith))
open_count_zero (false ∷ bs) h = cc (h 0 (omega arith))

pub zero_open_count :
    (flags : List Bool) (j : ℕ)
    → open_count flags ≡ 0
    → j < length flags
    → get_or flags j false ≡ true
unfolding open_count
zero_open_count [] j e lt = absurd (omega arith)
zero_open_count (true ∷ bs) zero e lt = refl
zero_open_count (true ∷ bs) (suc j) e lt = zero_open_count bs j e (omega arith)
zero_open_count (false ∷ bs) j e lt = absurd (omega arith)

pub get_or-set_self :
    (flags : List Bool) (i : ℕ) → i < length flags → get_or (set flags i true) i false ≡ true
get_or-set_self [] i lt = absurd (omega arith)
get_or-set_self (b ∷ bs) zero lt = refl
get_or-set_self (b ∷ bs) (suc i) lt = get_or-set_self bs i (omega arith)

pub get_or-set_ne :
    (flags : List Bool) (i j : ℕ) → i ≢ j → get_or (set flags i true) j false ≡ get_or flags j false
get_or-set_ne [] i j h = refl
get_or-set_ne (b ∷ bs) zero zero h = absurd (h refl)
get_or-set_ne (b ∷ bs) zero (suc j) h = refl
get_or-set_ne (b ∷ bs) (suc i) zero h = refl
get_or-set_ne (b ∷ bs) (suc i) (suc j) h = get_or-set_ne bs i j (λ e. h (ap suc e))

abbrev pub Open : List Bool → ℕ → Type 0
Open flags j = (j < length flags) × (get_or flags j false ≡ false)

-- the flags above `j` are not touched by setting that of `j`
pub Open-set :
    (flags : List Bool) (j : ℕ) (w : List ℕ)
    → Increasing (suc j) w
    → All (Open flags) w
    → All (Open (set flags j true)) w
Open-set flags j [] k h = tt
Open-set flags j (x ∷ w) k h = (
  (
    omega (arith, length-set flags j true, h.0.0),
    get_or-set_ne flags j x (omega (arith, k.0)) ∙ h.0.1,
  ),
  Open-set flags j w (Increasing-lower (suc x) (suc j) w (omega (arith, k.0)) k.1) h.1,
)

pub length-mark : (w : List ℕ) (flags : List Bool) → length (mark w flags) ≡ length flags
unfolding mark
length-mark [] flags = refl
length-mark (j ∷ w) flags = length-mark w (set flags j true) ∙ length-set flags j true

pub open_count-mark :
    (lo : ℕ) (w : List ℕ) (flags : List Bool)
    → Increasing lo w
    → All (Open flags) w
    → open_count (mark w flags) + length w ≡ open_count flags
unfolding mark
open_count-mark lo [] flags k h = omega arith
open_count-mark lo (j ∷ w) flags k h = omega (
  arith,
  open_count-mark (suc j) w (set flags j true) k.1 (Open-set flags j w k.1 h.1),
  open_count-set flags j h.0.0 h.0.1,
)

-- A flag is set by `mark` exactly for the steps of the wave.
pub get_or-mark :
    (w : List ℕ) (flags : List Bool) (i : ℕ)
    → All (λ j. j < length flags) w
    → (get_or (mark w flags) i false ≡ true) ↔ (In i w ⊎ (get_or flags i false ≡ true))
unfolding mark
get_or-mark [] flags i h = (λ e. inr e, elim [ inl x ↦ absurd x | inr e ↦ e ])
get_or-mark (j ∷ w) flags i h =
    let ih =
      get_or-mark w (set flags j true) i
        (All-map w (λ x lt. omega (arith, length-set flags j true)) h.1) in
    elim (Bool-cases (j == i)) [
      | inl p ↦
          let same = (==_iff j i).0 p in
          (
            λ e. inl (inl (sym same)),
            λ e. ih.1 (
                inr (
                  subst (λ x. get_or (set flags j true) x false ≡ true) same
                    (get_or-set_self flags j h.0))),
          )
      | inr p ↦
          let other = get_or-set_ne flags j i (ground arith) in
          (
            λ e. elim (ih.0 e) [ inl x ↦ inl (inr x) | inr y ↦ inr (sym other ∙ y) ],
            elim [
              | inl (inl x) ↦ absurd (ground arith)
              | inl (inr x) ↦ ih.1 (inl x)
              | inr y ↦ ih.1 (inr (other ∙ y))
            ],
          )
    ]
