-- ===== src/Database/Queries/Pages.antt =====
-- About the pages of GetWorkflowRunsPaginated (internal/database/workflow.go).
use live_actions.Base.{
  ℕ, zero, suc, ◌+◌, ◌*◌, ◌%◌, ◌^◌, ◌<◌, ◌≤◌, ◌≡◌, refl, ap, sym, ◌∙◌, true, false, List, [], ◌∷◌,
  length, take, drop, ltb, arith, if◌then◌else◌,
}
use live_actions.Database.{RunRow}
use live_actions.Database.Queries.{newer_run, offset}

pub newer_run_total : (a b : ℕ × RunRow) → newer_run a b ≡ false → newer_run b a ≡ true
unfolding newer_run
newer_run_total (i, a) (j, b) h = ground arith

drop_nil {ℓ} : {A : Type ℓ} (n : ℕ) → drop {A = A} n [] ≡ []
drop_nil zero = refl
drop_nil (suc n) = refl

pub drop-drop {ℓ} : {A : Type ℓ} (k n : ℕ) (xs : List A) → drop n (drop k xs) ≡ drop (k + n) xs
drop-drop zero n xs = ap (λ i. drop i xs) {x = n} (omega arith)
drop-drop (suc k) n [] = drop_nil n ∙ sym (drop_nil (suc k + n))
drop-drop (suc k) n (x ∷ xs) =
    drop-drop k n xs ∙ ap (λ i. drop i (x ∷ xs)) {x = suc (k + n)} (omega arith)

pub take_all {ℓ} : {A : Type ℓ} (n : ℕ) (xs : List A) → length xs ≤ n → take n xs ≡ xs
take_all zero [] h = refl
take_all zero (x ∷ xs) h = absurd (omega (arith, h))
take_all (suc n) [] h = refl
take_all (suc n) (x ∷ xs) h = ap (λ ys. x ∷ ys) (take_all n xs (omega (arith, h)))

in_64 : (o : ℕ) → o < 2 ^ 63 → (if ltb (o % 2 ^ 64) (2 ^ 63) then o % 2 ^ 64 else 0) ≡ o
in_64 o h = ground arith

pub offset_lem : (p limit : ℕ) → p * limit < 2 ^ 63 → offset (suc p) limit ≡ p * limit
unfolding offset
offset_lem p limit h =
    ap (λ i. if ltb (i * limit % 2 ^ 64) (2 ^ 63) then i * limit % 2 ^ 64 else 0) {y = p}
      (omega arith)
    ∙ in_64 (p * limit) h
