-- ===== src/Channel/Laws.antt =====
-- Predicates on the outcome of an execution, and their rule for a sequence of steps.
use chaosblade_exec_os.Prelude.{◌≡◌, refl, String, some, true}
use chaosblade_exec_os.Channel.{Env, Outcome, returned, panicked, hung, Trace, bind_outcome, M}

-- The calls made so far.
abbrev pub trace_of : {A : Type 0} → Outcome A → Trace
trace_of (returned a t) = t
trace_of (panicked t) = t
trace_of (hung t) = t

-- The outcome returns, and its value and trace have the property.
abbrev pub Returns : {A : Type 0} → (A → Trace → Type 0) → Outcome A → Type 0
Returns P (returned a t) = P a t
Returns P (panicked t) = ⊥
Returns P (hung t) = ⊥

pub Returns-bind :
    {A B : Type 0} (P : A → Trace → Type 0) (Q : B → Trace → Type 0) (o : Outcome A) (f : A → M B)
    → Returns P o
    → ((a : A) (t : Trace) → P a t → Returns Q (f a t))
    → Returns Q (bind_outcome o f)
Returns-bind P Q (returned a t) f h k = k a t h
Returns-bind P Q (panicked t) f h k = absurd h
Returns-bind P Q (hung t) f h k = absurd h

-- Every command that succeeds answers with a text, as the channels of chaosblade-spec-go do.
abbrev pub AnswersTexts : Env → Type 0
AnswersTexts env =
    (t : Trace) (script args : String)
    → (env.answer t script args).success ≡ true
    → (s : String) × ((env.answer t script args).result ≡ some s)

-- An outcome that returns on the trace it began with.
pub Returns-same :
    {A : Type 0} (P : A → Type 0) (t : Trace) (o : Outcome A)
    → Returns (λ a t'. (t' ≡ t) × P a) o
    → (a : A) × (o ≡ returned a t) × P a
Returns-same P t (returned a t') (e, p) = (a, rw e refl, p)
Returns-same P t (panicked t') h = absurd h
Returns-same P t (hung t') h = absurd h

pub Returns-weaken :
    {A : Type 0} (P Q : A → Trace → Type 0) (o : Outcome A)
    → Returns P o
    → ((a : A) (t : Trace) → P a t → Q a t)
    → Returns Q o
Returns-weaken P Q (returned a t) h k = k a t h
Returns-weaken P Q (panicked t) h k = absurd h
Returns-weaken P Q (hung t) h k = absurd h

-- What returns has a value and a trace.
pub Returns-value :
    {A : Type 0} (P : A → Trace → Type 0) (o : Outcome A)
    → Returns P o
    → (a : A) × ((t : Trace) × ((o ≡ returned a t) × P a t))
Returns-value P (returned a t) h = (a, (t, (refl, h)))
Returns-value P (panicked t) h = absurd h
Returns-value P (hung t) h = absurd h
