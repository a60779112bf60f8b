-- ===== src/Frontend/Pages/Playbooks/Progress.antt =====
-- Which steps are completed, and how many.
use trust_vault.Prelude.{
  ℕ, zero, suc, ◌+◌, ◌-◌, ◌≤◌, ◌<◌, ◌==◌, ltb, ◌≡◌, refl, sym, ap, ◌∙◌, Bool, true, false, not,
  List, [], ◌∷◌, ◌++◌, Text, All, filter, length, arith, if◌then◌else◌, Bool-cases, inl, inr,
}
use trust_vault.Frontend.Pages.Playbooks.{
  PlaybooksPage, handle_select_issue, has, toggled, toggle_step, completed_count,
}

abbrev pub toggle_all : List ℕ → PlaybooksPage → PlaybooksPage
toggle_all [] page = page
toggle_all (i ∷ steps) page = toggle_all steps (toggle_step i page)

abbrev count : ℕ → List ℕ → ℕ
count i [] = 0
count i (j ∷ js) = (if j == i then 1 else 0) + count i js

-- 1 if a step is in the list an odd number of times, from 1 or 0 on, and 0 otherwise.
abbrev pub parity : ℕ → ℕ → List ℕ → ℕ
parity i p [] = p
parity i p (j ∷ js) = parity i (if j == i then 1 - p else p) js

abbrev pub sum_below : ℕ → (ℕ → ℕ) → ℕ
sum_below zero f = 0
sum_below (suc n) f = f n + sum_below n f

has-count : (i : ℕ) (js : List ℕ) → has i js ≡ not (count i js == 0)
has-count i [] = refl
has-count i (j ∷ js) = ground (arith, has-count i js)

count-filter :
    (i k : ℕ) (js : List ℕ)
    → count i (filter (λ j. not (j == k)) js) ≡ (if k == i then 0 else count i js)
count-filter i k [] = ground arith
count-filter i k (j ∷ js) = ground (arith, count-filter i k js)

count-append :
    (i k : ℕ) (js : List ℕ) → count i (js ++ (k ∷ [])) ≡ count i js + (if k == i then 1 else 0)
count-append i k [] = ground arith
count-append i k (j ∷ js) = ground (arith, count-append i k js)

count-same : (i k : ℕ) (js : List ℕ) → k ≡ i → count k js ≡ count i js
count-same i k js e = ap (λ n. count n js) e

count-toggled :
    (i k : ℕ) (js : List ℕ)
    → count k js ≤ 1
    → count i (toggled k js) ≡ (if k == i then 1 - count i js else count i js)
count-toggled i k js h = elim (Bool-cases (has k js)) [
  | inl e ↦ ground (arith, e, h, has-count k js, count-filter i k js, count-same i k js)
  | inr e ↦ ground (arith, e, h, has-count k js, count-append i k js, count-same i k js)
]

AreBelow : ℕ → List ℕ → Type 0
AreBelow n steps = All (λ i. i < n) steps

AreBelow-if :
    (n j : ℕ) (js : List ℕ) (b : Bool)
    → j < n
    → AreBelow n js
    → AreBelow n (if b then j ∷ js else js)
unfolding AreBelow
AreBelow-if n j js true h k = (h, k)
AreBelow-if n j js false h k = k

AreBelow-filter : (n : ℕ) (p : ℕ → Bool) (js : List ℕ) → AreBelow n js → AreBelow n (filter p js)
unfolding AreBelow
AreBelow-filter n p [] h = tt
AreBelow-filter n p (j ∷ js) h = AreBelow-if n j _ (p j) h.0 (AreBelow-filter n p js h.1)

AreBelow-append : (n j : ℕ) (js : List ℕ) → j < n → AreBelow n js → AreBelow n (js ++ (j ∷ []))
unfolding AreBelow
AreBelow-append n j [] h k = (h, tt)
AreBelow-append n j (i ∷ js) h k = (k.0, AreBelow-append n j js h k.1)

AreBelow-toggled : (n j : ℕ) (js : List ℕ) → j < n → AreBelow n js → AreBelow n (toggled j js)
AreBelow-toggled n j js h k = either (has j js)
  where
    either : (b : Bool) → AreBelow n (if b then filter (λ i. not (i == j)) js else js ++ (j ∷ []))
    either true = AreBelow-filter n (λ i. not (i == j)) js k
    either false = AreBelow-append n j js h k

sum-add : (n : ℕ) (f g : ℕ → ℕ) → sum_below n (λ i. f i + g i) ≡ sum_below n f + sum_below n g
sum-add zero f g = refl
sum-add (suc n) f g = omega (arith, sum-add n f g)

sum_one : (n j : ℕ) → sum_below n (λ i. if j == i then 1 else 0) ≡ (if ltb j n then 1 else 0)
sum_one zero j = ground arith
sum_one (suc n) j = ground (arith, sum_one n j)

sum_none : (n : ℕ) → sum_below n (λ i. 0) ≡ 0
sum_none zero = refl
sum_none (suc n) = omega (arith, sum_none n)

sum-count : (n : ℕ) (js : List ℕ) → AreBelow n js → sum_below n (λ i. count i js) ≡ length js
unfolding AreBelow
sum-count n [] h = sum_none n
sum-count n (j ∷ js) h =
    sum-add n (λ i. if j == i then 1 else 0) (λ i. count i js)
    ∙ ground (arith, sum_one n j, sum-count n js h.1, h.0)

sum_same : (n : ℕ) (f g : ℕ → ℕ) → ((i : ℕ) → f i ≡ g i) → sum_below n f ≡ sum_below n g
sum_same zero f g h = refl
sum_same (suc n) f g h = omega (arith, h n, sum_same n f g h)

sum_bounded : (n : ℕ) (f : ℕ → ℕ) → ((i : ℕ) → f i ≤ 1) → sum_below n f ≤ n
sum_bounded zero f h = omega arith
sum_bounded (suc n) f h = omega (arith, h n, sum_bounded n f h)

AreBelow-toggle_all :
    (n : ℕ) (steps : List ℕ) (page : PlaybooksPage)
    → AreBelow n steps
    → AreBelow n page.completed_steps
    → AreBelow n (toggle_all steps page).completed_steps
unfolding AreBelow toggle_step
AreBelow-toggle_all n [] page h k = k
AreBelow-toggle_all n (j ∷ steps) page h k =
    AreBelow-toggle_all n steps (toggle_step j page) h.1
      (AreBelow-toggled n j page.completed_steps h.0 k)

count-toggle_all :
    (steps : List ℕ) (page : PlaybooksPage)
    → ((i : ℕ) → count i page.completed_steps ≤ 1)
    → (i : ℕ)
    → (count i (toggle_all steps page).completed_steps
        ≡ parity i (count i page.completed_steps) steps)
      × (count i (toggle_all steps page).completed_steps ≤ 1)
unfolding toggle_step
count-toggle_all [] page h i = (refl, h i)
count-toggle_all (j ∷ steps) page h i =
    let js = page.completed_steps in
    let step : (k : ℕ) → count k (toggled j js) ≡ (if j == k then 1 - count k js else count k js) =
      λ k. count-toggled k j js (h j) in
    let rest = count-toggle_all steps (toggle_step j page) (λ k. ground (arith, step k, h k)) i in
    (rest.0 ∙ ap (λ p. parity i p steps) (step i), rest.1)

-- After a playbook of n steps was selected and some of its steps were clicked, a step is completed
-- exactly if it was clicked an odd number of times; the number of completed steps is the number of those,
-- and it is at most n.
pub toggle_all-handle_select_issue :
    (n : ℕ) (issue : Text) (steps : List ℕ) (page : PlaybooksPage)
    → All (λ i. i < n) steps
    → let after = toggle_all steps (handle_select_issue issue page) in
      ((i : ℕ) → has i after.completed_steps ≡ (parity i 0 steps == 1))
      × (completed_count after ≡ sum_below n (λ i. parity i 0 steps))
      × (completed_count after ≤ n)
unfolding handle_select_issue AreBelow
toggle_all-handle_select_issue n issue steps page h =
    let after = toggle_all steps (handle_select_issue issue page) in
    let counts = count-toggle_all steps (handle_select_issue issue page) (λ i. omega arith) in
    let total : sum_below n (λ i. count i after.completed_steps) ≡ completed_count after =
      sum-count n after.completed_steps
        (AreBelow-toggle_all n steps (handle_select_issue issue page) h tt) in
    (
      λ i. ground (arith, has-count i after.completed_steps, (counts i).0, (counts i).1),
      sym total ∙ sum_same n _ (λ i. parity i 0 steps) (λ i. (counts i).0),
      omega (arith, total, sum_bounded n (λ i. count i after.completed_steps) (λ i. (counts i).1)),
    )
