-- ===== src/TaskQueue/Models.antt =====
-- backend/app/task_queue/models.py, and the state that the queue's coroutines share.
-- A datetime is a number of microseconds. `priority` is a natural number,
-- since `Field(ge=0)` refuses any other.
use ai_employee_os.Common.{ℕ, String, Bool, true, false, Option}
use ai_employee_os.Common.Dict.{Dict}
use ai_employee_os.Common.Json.{Fields}
pub use ai_employee_os.Common.Json.{Uuid}

pub data BackgroundTaskStatus : Type 0 where
  queued running completed failed cancelled : BackgroundTaskStatus

pub record BackgroundTask : Type 0 where
  pub id : Uuid
  pub task_type : String
  pub status : BackgroundTaskStatus
  pub priority : ℕ
  pub payload : Fields
  pub retry_count : ℕ
  pub created_at : ℕ
  pub started_at : Option ℕ
  pub finished_at : Option ℕ
  pub metadata : Fields
  pub error : Option String
  pub result : Option Fields

-- `status == QUEUED`, and `status in {COMPLETED, CANCELLED}`, and so on
abbrev pub is_queued : BackgroundTaskStatus → Bool
is_queued BackgroundTaskStatus.queued = true
is_queued _ = false

abbrev pub is_cancelled : BackgroundTaskStatus → Bool
is_cancelled BackgroundTaskStatus.cancelled = true
is_cancelled _ = false

abbrev pub is_completed_or_cancelled : BackgroundTaskStatus → Bool
is_completed_or_cancelled BackgroundTaskStatus.completed = true
is_completed_or_cancelled BackgroundTaskStatus.cancelled = true
is_completed_or_cancelled _ = false

abbrev pub is_active : BackgroundTaskStatus → Bool
is_active BackgroundTaskStatus.queued = true
is_active BackgroundTaskStatus.running = true
is_active _ = false

-- The repository's `_tasks`, and the clock that `datetime.now()` reads.
pub record QueueState : Type 0 where
  pub tasks : Dict Uuid BackgroundTask
  pub now : ℕ

-- A coroutine returns or raises, in the state that it leaves. An exception is its text.
pub data Result {ℓ} (A : Type ℓ) : Type ℓ where
  return : A → Result A
  raise : String → Result A

abbrev pub Action {ℓ} : Type ℓ → Type ℓ
Action A = QueueState → Result A × QueueState

infixl 5 ◌>>=◌ ◌>>◌
abbrev pub and_then {ℓ κ} :
    {A : Type ℓ} {B : Type κ} → Result A → (A → Action B) → QueueState → Result B × QueueState
and_then (return a) f s = f a s
and_then (raise e) f s = (raise e, s)

abbrev pub ◌>>=◌ {ℓ κ} : {A : Type ℓ} {B : Type κ} → Action A → (A → Action B) → Action B
◌>>=◌ m f s = let (r, s') = m s in and_then r f s'

abbrev pub ◌>>◌ {ℓ κ} : {A : Type ℓ} {B : Type κ} → Action A → Action B → Action B
m >> k = m >>= λ _. k

abbrev pub pure {ℓ} : {A : Type ℓ} → A → Action A
pure a s = (return a, s)

abbrev pub throw {ℓ} : {A : Type ℓ} → String → Action A
throw e s = (raise e, s)

abbrev pub or_handle {ℓ} :
    {A : Type ℓ} → Result A → (String → Action A) → QueueState → Result A × QueueState
or_handle (return a) h s = (return a, s)
or_handle (raise e) h s = h e s

-- `try: … except Exception as exc: …`
abbrev pub try_except {ℓ} : {A : Type ℓ} → Action A → (String → Action A) → Action A
try_except m h s = let (r, s') = m s in or_handle r h s'

abbrev pub datetime_now : Action ℕ
datetime_now s = (return s.now, s)

-- What a bind and a handler keep of the state.
pub and_then_keeps {ℓ} :
    {A B : Type 0} (P : QueueState → Type ℓ) (r : Result A) (f : A → Action B) (s : QueueState)
    → P s
    → ((a : A) → P (f a s).1)
    → P (and_then r f s).1
and_then_keeps P (return a) f s p k = k a
and_then_keeps P (raise e) f s p k = p

pub or_handle_keeps {ℓ} :
    {A : Type 0} (P : QueueState → Type ℓ) (r : Result A) (h : String → Action A) (s : QueueState)
    → P s
    → ((e : String) → P (h e s).1)
    → P (or_handle r h s).1
or_handle_keeps P (return a) h s p k = p
or_handle_keeps P (raise e) h s p k = k e
