-- ===== src/Orchestration/Orchestrator/Results.antt =====
-- Statements about a result that may be missing.
use ai_employee_os.Common.{Option, none, some, string_eq}
use ai_employee_os.Common.Json.{Fields}
use ai_employee_os.Planning.Models.{PlanStep, TaskPlan}
use ai_employee_os.Planning.Executor.{Registry}
use ai_employee_os.Orchestration.Safety.{IsSound}
use ai_employee_os.Orchestration.NodeRuns.{and_then, Session}

-- What holds of a result, if there is one
abbrev pub OnSome : {A : Type 0} → (A → Type 0) → Option A → Type 0
OnSome P none = Unit
OnSome P (some a) = P a

pub and_then-OnSome :
    {A B : Type 0} (P : A → Type 0) (Q : B → Type 0) (o : Option A) (f : A → Option B)
    → OnSome P o
    → ((a : A) → P a → OnSome Q (f a))
    → OnSome Q (and_then o f)
and_then-OnSome P Q none f h k = tt
and_then-OnSome P Q (some a) f h k = k a h

pub OnSome-map :
    {A : Type 0} (P Q : A → Type 0) (o : Option A) → ((a : A) → P a → Q a) → OnSome P o → OnSome Q o
OnSome-map P Q none f h = tt
OnSome-map P Q (some a) f h = f a h

pub always-OnSome :
    {A B : Type 0} (Q : B → Type 0) (o : Option A) (f : A → Option B)
    → ((a : A) → OnSome Q (f a))
    → OnSome Q (and_then o f)
always-OnSome Q none f k = tt
always-OnSome Q (some a) f k = k a

-- A session whose graph is sound
unfoldable pub IsSoundIn :
    {World : Type 0} {registry : Registry World} {payload_of : PlanStep → TaskPlan → Fields}
    → Session registry payload_of
    → Type 0
IsSoundIn s = IsSound s.stored.graph.nodes
