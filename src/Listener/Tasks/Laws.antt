-- ===== src/Listener/Tasks/Laws.antt =====
-- What the tasks of listener/src/connection_tasks.rs agree on.
use casper_sidecar.Prelude.{
  length, length-append, All, ℕ, zero, suc, ◌+◌, ◌≤◌, ◌<◌, ◌≡◌, refl, sym, ◌∙◌, subst, ◌⊎◌, Bool,
  true, false, some, List, [], ◌∷◌, ◌++◌, arith,
}
use casper_sidecar.Listener.Tasks.{
  ConnectionTasks, new, Task, counted, connecting, stored, failed, entering, loading, parked, woken,
  returned, run_task, System, repeat, initial, Step, run, Reach, here, next,
}

-- The task has made its connection; the task has failed to.
abbrev pub has_connected : Task → ℕ
has_connected connecting = 0
has_connected stored = 0
has_connected failed = 0
has_connected _ = 1

abbrev pub has_failed : Task → ℕ
has_failed stored = 1
has_failed failed = 1
has_failed _ = 0

abbrev pub sum : (Task → ℕ) → List Task → ℕ
sum f [] = 0
sum f (t ∷ l) = f t + sum f l

pub sum-append :
    (f : Task → ℕ) (l : List Task) (t : Task) (k : List Task)
    → sum f (l ++ t ∷ k) ≡ sum f l + f t + sum f k
sum-append f [] t k = omega arith
sum-append f (x ∷ l) t k = omega (arith, sum-append f l t k)

-- What a task has returned is so.
abbrev pub Fits : ConnectionTasks → Task → Type 0
Fits s (returned true) = s.total ≤ s.successes
Fits s (returned false) = s.failure ≡ true
Fits s _ = Unit {0}

-- A step of a task changes the shared counts as it changes the task, and only up.
pub record Counts (s later : ConnectionTasks) (t t' : Task) : Type 0 where
  pub total_kept : later.total ≡ s.total
  pub successes_counted : later.successes + has_connected t ≡ s.successes + has_connected t'
  pub successes_grow : s.successes ≤ later.successes
  pub failure_kept : s.failure ≡ true → later.failure ≡ true
  pub failure_told : later.failure ≡ true → (s.failure ≡ true) ⊎ (0 < has_failed t')
  pub failed_kept : has_failed t ≤ has_failed t'
  pub failed_told : has_failed t < has_failed t' → later.failure ≡ true
  pub connected_kept : has_connected t ≤ has_connected t'
  pub returned_fits : Fits later t'

pub run_task-Counts :
    (connects : Bool) (s later : ConnectionTasks) (t t' : Task)
    → run_task connects s t ≡ some (later, t')
    → Counts s later t t'
unfolding run_task
run_task-Counts true s later connecting t' h = ground arith
run_task-Counts false s later connecting t' h = ground arith
run_task-Counts c s later (counted n) t' h = ground arith
run_task-Counts c s later stored t' h = ground arith
run_task-Counts c s later failed t' h = cc
run_task-Counts c s later entering t' h = ground arith
run_task-Counts c s later loading t' h = ground arith
run_task-Counts c s later parked t' h = ground arith
run_task-Counts c s later woken t' h = ground arith
run_task-Counts c s later (returned b) t' h = cc

-- What holds between two steps.
pub record Inv (s : System) : Type 0 where
  pub total_is : s.shared.total ≡ length s.tasks
  pub successes_is : s.shared.successes ≡ sum has_connected s.tasks
  pub failure_is : s.shared.failure ≡ true → 0 < sum has_failed s.tasks
  pub failed_is : 0 < sum has_failed s.tasks → s.shared.failure ≡ true
  pub fit : All (Fits s.shared) s.tasks

Fits-later :
    (s later : ConnectionTasks) (t t' u : Task) → Counts s later t t' → Fits s u → Fits later u
Fits-later s later t t' (returned true) k h = omega arith
Fits-later s later t t' (returned false) k h = k.failure_kept h
Fits-later s later t t' (counted n) k h = tt
Fits-later s later t t' _ k h = tt

All-later :
    (s later : ConnectionTasks) (t t' : Task) (l : List Task)
    → Counts s later t t'
    → All (Fits s) l
    → All (Fits later) l
All-later s later t t' [] k h = tt
All-later s later t t' (x ∷ l) k (h, hs) =
    (Fits-later s later t t' x k h, All-later s later t t' l k hs)

-- One task of the list is replaced.
All-replaced :
    (s later : ConnectionTasks) (t t' : Task) (before after : List Task)
    → Counts s later t t'
    → All (Fits s) (before ++ t ∷ after)
    → All (Fits later) (before ++ t' ∷ after)
All-replaced s later t t' [] after k (h, hs) = (k.returned_fits, All-later s later t t' after k hs)
All-replaced s later t t' (x ∷ before) after k (h, hs) =
    (Fits-later s later t t' x k h, All-replaced s later t t' before after k hs)

length-replaced :
    (before after : List Task) (t t' : Task)
    → length (before ++ t' ∷ after) ≡ length (before ++ t ∷ after)
length-replaced before after t t' =
    length-append before (t' ∷ after) ∙ sym (length-append before (t ∷ after))

replaced-Inv :
    (s later : ConnectionTasks) (t t' : Task) (before after : List Task)
    → Counts s later t t'
    → Inv (record { shared = s; tasks = before ++ t ∷ after })
    → Inv (record { shared = later; tasks = before ++ t' ∷ after })
replaced-Inv s later t t' before after k i =
    let c = sum-append has_connected before t after in
    let c' = sum-append has_connected before t' after in
    let f = sum-append has_failed before t after in
    let f' = sum-append has_failed before t' after in
    record {
      total_is = k.total_kept ∙ i.total_is ∙ sym (length-replaced before after t t');
      successes_is = omega arith;
      failure_is = λ h. ground arith;
      failed_is = λ h. ground arith;
      fit = All-replaced s later t t' before after k i.fit;
    }

Step-Inv : {s s' : System} → Step s s' → Inv s → Inv s'
Step-Inv {s} {s'} (run connects before t after later t' e r e') i =
    let k = run_task-Counts connects s.shared later t t' r in
    let j = subst (λ l. Inv (record { shared = s.shared; tasks = l })) e i in
    subst Inv (sym e') (replaced-Inv s.shared later t t' before after k j)

length-repeat : (n : ℕ) → length (repeat connecting n) ≡ n
length-repeat zero = refl
length-repeat (suc n) = omega (arith, length-repeat n)

sum-repeat : (f : Task → ℕ) (n : ℕ) → f connecting ≡ 0 → sum f (repeat connecting n) ≡ 0
sum-repeat f zero h = refl
sum-repeat f (suc n) h = omega (arith, sum-repeat f n h)

All-repeat : (s : ConnectionTasks) (n : ℕ) → All (Fits s) (repeat connecting n)
All-repeat s zero = tt
All-repeat s (suc n) = (tt, All-repeat s n)

initial-Inv : (n : ℕ) → Inv (initial n)
unfolding new
initial-Inv n = record {
  total_is = sym (length-repeat n);
  successes_is = sym (sum-repeat has_connected n refl);
  failure_is = λ h. cc;
  failed_is = λ h. absurd (omega (arith, sum-repeat has_failed n refl));
  fit = All-repeat (new n) n;
}

Reach-Inv : {s s' : System} → Inv s → Reach s s' → Inv s'
Reach-Inv i here = i
Reach-Inv i (next r step) = Step-Inv step (Reach-Inv i r)

pub initial-Reach-Inv : (n : ℕ) {s : System} → Reach (initial n) s → Inv s
initial-Reach-Inv n r = Reach-Inv (initial-Inv n) r

All-at :
    (s : ConnectionTasks) (before : List Task) (t : Task) (after : List Task)
    → All (Fits s) (before ++ t ∷ after)
    → Fits s t
All-at s [] t after (h, hs) = h
All-at s (x ∷ before) t after (h, hs) = All-at s before t after hs

-- No task has both connected and failed.
pub one_of_both : (t : Task) → has_connected t + has_failed t ≤ 1
one_of_both (counted n) = omega arith
one_of_both (returned b) = omega arith
one_of_both _ = omega arith

pub sums-le-length : (l : List Task) → sum has_connected l + sum has_failed l ≤ length l
sums-le-length [] = omega arith
sums-le-length (t ∷ l) = omega (arith, one_of_both t, sums-le-length l)

returned-Fits :
    {s : System}
    → Inv s
    → (before : List Task) (t : Task) (after : List Task) → s.tasks ≡ before ++ t ∷ after
    → Fits s.shared t
returned-Fits {s} i before t after e =
    All-at s.shared before t after (subst (All (Fits s.shared)) e i.fit)

abbrev Agreed : (s : System) (x y : Bool) → Type 0
Agreed s x y =
    (x ≡ y)
    × (x ≡ true → (sum has_connected s.tasks ≡ length s.tasks) × (sum has_failed s.tasks ≡ 0))
    × (x ≡ false → 0 < sum has_failed s.tasks)

Fits-Agreed :
    (s : System) (x y : Bool)
    → Inv s
    → Fits s.shared (returned x)
    → Fits s.shared (returned y)
    → Agreed s x y
Fits-Agreed s true true i h k = let l = sums-le-length s.tasks in (refl, λ e. omega arith, λ e. cc)
Fits-Agreed s true false i h k = let l = sums-le-length s.tasks in absurd (ground arith)
Fits-Agreed s false true i h k = let l = sums-le-length s.tasks in absurd (ground arith)
Fits-Agreed s false false i h k = (refl, λ e. cc, λ e. i.failure_is h)

-- However the steps of the tasks interleave, all that have returned from `wait` have returned the
-- same: true only if every connection was made and none failed, and false only if one failed.
pub wait-agrees :
    (n : ℕ) (s : System) (x y : Bool) (before after before' after' : List Task)
    → Reach (initial n) s
    → s.tasks ≡ before ++ returned x ∷ after
    → s.tasks ≡ before' ++ returned y ∷ after'
    → (x ≡ y)
      × (x ≡ true → (sum has_connected s.tasks ≡ length s.tasks) × (sum has_failed s.tasks ≡ 0))
      × (x ≡ false → 0 < sum has_failed s.tasks)
wait-agrees n s x y before after before' after' r e e' =
    let i = initial-Reach-Inv n r in
    Fits-Agreed s x y i (returned-Fits i before (returned x) after e)
      (returned-Fits i before' (returned y) after' e')
