-- ===== src/Listener/Tasks/Progress.antt =====
-- That no task of listener/src/connection_tasks.rs waits for ever.
use mathlib.Core.List.{append_assoc}
use casper_sidecar.Prelude.{
  leb, ◌==◌, if◌then◌else◌, Bool-cases, Option-cases, length, All, ℕ, ◌+◌, ◌≤◌, ◌<◌, ◌≡◌, refl, sym,
  ◌∙◌, subst, ◌⊎◌, inl, inr, Bool, true, false, none, some, List, [], ◌∷◌, ◌++◌, arith,
}
use casper_sidecar.Listener.Tasks.{
  ConnectionTasks, new, Task, counted, connecting, stored, failed, entering, loading, parked, woken,
  returned, run_task, System, initial, Step, run, Reach, here, next,
}
use casper_sidecar.Listener.Tasks.Laws.{
  has_connected, has_failed, sum, sum-append, Inv, initial-Reach-Inv,
}

-- The task will give a permit without waiting.
abbrev pub will_notify : (total : ℕ) → Task → ℕ
will_notify total (counted n) = if leb total n then 1 else 0
will_notify total stored = 1
will_notify total woken = 1
will_notify total _ = 0

-- The overall result is there.
abbrev pub IsKnown : ConnectionTasks → Type 0
IsKnown s = (s.failure ≡ true) ⊎ (s.total ≤ s.successes)

-- A permit is there, or will be.
abbrev pub IsTold : ConnectionTasks → (pending : ℕ) → Type 0
IsTold s pending = (s.permit ≡ true) ⊎ (0 < pending)

-- How a step of a task bears on the permit.
record Passes (s later : ConnectionTasks) (t t' : Task) : Type 0 where
  total_same : later.total ≡ s.total
  known_before : IsKnown later → IsKnown s ⊎ (0 < will_notify s.total t')
  still_told : IsTold s (will_notify s.total t) → IsTold later (will_notify s.total t')

run_task-Passes :
    (connects : Bool) (s later : ConnectionTasks) (t t' : Task)
    → run_task connects s t ≡ some (later, t')
    → Passes s later t t'
unfolding run_task
run_task-Passes true s later connecting t' h = ground arith
run_task-Passes false s later connecting t' h = ground arith
run_task-Passes c s later (counted n) t' h = ground arith
run_task-Passes c s later stored t' h = ground arith
run_task-Passes c s later failed t' h = cc
run_task-Passes c s later entering t' h = ground arith
run_task-Passes c s later loading t' h = ground arith
run_task-Passes c s later parked t' h = ground arith
run_task-Passes c s later woken t' h = ground arith
run_task-Passes c s later (returned b) t' h = cc

-- Once the result is there, so is a permit, or a task that will give one, if there are tasks.
abbrev Wakes : System → Type 0
Wakes s =
    0 < s.shared.total
    → IsKnown s.shared
    → IsTold s.shared (sum (will_notify s.shared.total) s.tasks)

pending_or_permit :
    (s later : ConnectionTasks) (t t' : Task) (before after : List Task)
    → Passes s later t t'
    → IsTold s (sum (will_notify s.total) (before ++ t ∷ after)) ⊎ (0 < will_notify s.total t')
    → IsTold later (sum (will_notify s.total) (before ++ t' ∷ after))
pending_or_permit s later t t' before after p h =
    let f = sum-append (will_notify s.total) before t after in
    let f' = sum-append (will_notify s.total) before t' after in ground arith

replaced-Wakes :
    (s later : ConnectionTasks) (t t' : Task) (before after : List Task)
    → Passes s later t t'
    → Wakes (record { shared = s; tasks = before ++ t ∷ after })
    → Wakes (record { shared = later; tasks = before ++ t' ∷ after })
replaced-Wakes s later t t' before after p w pos known =
    let same = p.total_same in
    subst (λ n. IsTold later (sum (will_notify n) (before ++ t' ∷ after))) (sym same)
      (pending_or_permit s later t t' before after p
        (elim (p.known_before known) [ inl k ↦ inl (w (omega arith) k) | inr new ↦ inr new ]))

Step-Wakes : {s s' : System} → Step s s' → Wakes s → Wakes s'
Step-Wakes {s} {s'} (run connects before t after later t' e r e') w =
    let p = run_task-Passes connects s.shared later t t' r in
    let v = subst (λ l. Wakes (record { shared = s.shared; tasks = l })) e w in
    subst Wakes (sym e') (replaced-Wakes s.shared later t t' before after p v)

initial-Wakes : (n : ℕ) → Wakes (initial n)
unfolding new
initial-Wakes n pos known = absurd (ground arith)

Reach-Wakes : {s s' : System} → Wakes s → Reach s s' → Wakes s'
Reach-Wakes w here = w
Reach-Wakes w (next r step) = Step-Wakes step (Reach-Wakes w r)

-- The task has come to its end.
abbrev pub HasEnded : Task → Type 0
HasEnded failed = Unit {0}
HasEnded (returned b) = Unit {0}
HasEnded _ = ⊥

-- The task cannot take a step.
abbrev IsBlocked : ConnectionTasks → Task → Type 0
IsBlocked s t = (connects : Bool) → run_task connects s t ≡ none

-- No task can take a step.
abbrev pub IsStuck : System → Type 0
IsStuck s = (s' : System) → ¬ Step s s'

record Blocked (s : ConnectionTasks) (t : Task) : Type 0 where
  settled : has_connected t + has_failed t ≡ 1
  quiet : will_notify s.total t ≡ 0
  ended_or_parked : s.permit ≡ true → HasEnded t

IsBlocked-Blocked : (s : ConnectionTasks) (t : Task) → IsBlocked s t → Blocked s t
unfolding run_task
IsBlocked-Blocked s connecting h = let stuck = h true in cc
IsBlocked-Blocked s (counted n) h = let stuck = h true in cc
IsBlocked-Blocked s stored h = let stuck = h true in cc
IsBlocked-Blocked s entering h = let stuck = h true in cc
IsBlocked-Blocked s loading h = let stuck = h true in cc
IsBlocked-Blocked s woken h = let stuck = h true in cc
IsBlocked-Blocked s parked h =
    let stuck = h true in
    record { settled = refl; quiet = refl; ended_or_parked = λ p. ground arith }
IsBlocked-Blocked s failed h = record { settled = refl; quiet = refl; ended_or_parked = λ p. tt }
IsBlocked-Blocked s (returned b) h = record {
  settled = refl;
  quiet = refl;
  ended_or_parked = λ p. tt;
}

All-Blocked :
    (s : System)
    → IsStuck s
    → (before l : List Task) → s.tasks ≡ before ++ l
    → All (Blocked s.shared) l
All-Blocked s stuck before [] e = tt
All-Blocked s stuck before (t ∷ l) e = (
  IsBlocked-Blocked s.shared t λ connects. elim (Option-cases (run_task connects s.shared t)) [
    | inl blocked ↦ blocked
    | inr (x, moved) ↦ absurd (stuck _ (run connects before t l x.0 x.1 e moved refl))
  ],
  All-Blocked s stuck (before ++ t ∷ []) l (e ∙ sym (append_assoc before (t ∷ []) l)),
)

Blocked-sums :
    (s : ConnectionTasks) (l : List Task)
    → All (Blocked s) l
    → (sum has_connected l + sum has_failed l ≡ length l)
      × (sum (will_notify s.total) l ≡ 0)
      × (s.permit ≡ true → All HasEnded l)
Blocked-sums s [] h = (refl, refl, λ p. tt)
Blocked-sums s (t ∷ l) (h, hs) =
    let (settled, quiet, ended) = Blocked-sums s l hs in
    (omega arith, omega arith, λ p. (h.ended_or_parked p, ended p))

empty-HasEnded : (l : List Task) → length l ≡ 0 → All HasEnded l
empty-HasEnded [] h = tt
empty-HasEnded (t ∷ l) h = absurd (omega arith)

-- Once every task has connected or failed, the overall result is there.
settled-IsKnown :
    (s : System)
    → Inv s
    → sum has_connected s.tasks + sum has_failed s.tasks ≡ length s.tasks
    → IsKnown s.shared
settled-IsKnown s i settled = elim (Bool-cases s.shared.failure) [
  | inl yes_failed ↦ inl yes_failed
  | inr none_failed ↦ inr (ground arith)
]

told-permit : (s : ConnectionTasks) (pending : ℕ) → pending ≡ 0 → IsTold s pending → s.permit ≡ true
told-permit s pending e (inl h) = h
told-permit s pending e (inr h) = absurd (omega arith)

-- No wake-up is lost: however the steps of the tasks have interleaved, if no task can take another
-- step, then every task has come to its end, having failed or returned from `wait`.
pub stuck-HasEnded : (n : ℕ) (s : System) → Reach (initial n) s → IsStuck s → All HasEnded s.tasks
stuck-HasEnded n s r stuck =
    let i = initial-Reach-Inv n r in
    let w = Reach-Wakes (initial-Wakes n) r in
    let (settled, quiet, ended) =
      Blocked-sums s.shared s.tasks (All-Blocked s stuck [] s.tasks refl) in
    elim (Bool-cases (s.shared.total == 0)) [
      | inl zero_tasks ↦ empty-HasEnded s.tasks (ground arith)
      | inr some_tasks ↦
          let known = settled-IsKnown s i settled in
          ended (told-permit s.shared _ quiet (w (ground arith) known))
    ]
