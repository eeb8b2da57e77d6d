-- ===== src/Thread/Start.antt =====
-- Thread::Thread and Thread::run (components/thread.cpp): the constructor waits on a semaphore of
-- count 0 until the new thread has set itself up. Each step is a statement of one side.
use web_framework.Base.{
  ℕ, suc, ◌+◌, ◌≡◌, refl, sym, subst, ◌⊎◌, inl, Bool, true, false, Text, codes, Option, none, some,
  is_empty, if◌then◌else◌, arith,
}

-- Where the constructor stands: before pthread_create, before the wait, returned, or thrown.
pub data Constructor : Type 0 where
  creating waiting constructed failed : Constructor

-- Where Thread::run stands, before the statement named.
pub data Runner : Type 0 where
  not_started setting_this setting_id setting_name swapping notifying calling : Runner

-- m_id = -1 is `none`; `this_set` and `local_name` are the new thread's t_thread and t_thread_name;
-- `permits` is the count of m_semaphore.
pub record Thread : Type 0 where
  pub constructor : Constructor
  pub runner : Runner
  pub id : Option ℕ
  pub name : Text
  pub this_set : Bool
  pub local_name : Text
  pub callback_left : Bool
  pub permits : ℕ

-- `if (name.empty()) m_name = "UNKNOWN"; m_name = name;`
unfoldable pub set_default : Text → Text → Text
set_default name m_name = if is_empty name then codes "UNKNOWN" else m_name

abbrev overwrite : Text → Text → Text
overwrite m_name name = name

unfoldable pub new_thread : Text → Thread
unfolding set_default
new_thread name = record {
  constructor = creating;
  runner = not_started;
  id = none;
  name = overwrite (set_default name (codes "")) name;
  this_set = false;
  local_name = codes "UNKNOWN";
  callback_left = true;
  permits = 0;
}

-- Thread::SetName, called on the new thread.
unfoldable pub set_name : Text → Thread → Thread
set_name name t = record t { name = if t.this_set then name else t.name; local_name = name }

-- One statement of Thread::run; `tid` is what GetThreadId gives. The kernel's name of the thread is
-- left out, and the callback itself is the user's.
unfoldable pub run_step : ℕ → Runner → Thread → Thread
unfolding set_name
run_step tid setting_this t = record t { this_set = true; runner = setting_id }
run_step tid setting_id t = record t { id = some tid; runner = setting_name }
run_step tid setting_name t = record (set_name t.name t) { runner = swapping }
run_step tid swapping t = record t { callback_left = false; runner = notifying }
run_step tid notifying t = record t { permits = t.permits + 1; runner = calling }
run_step tid _ t = t

-- A step of either thread.
pub data Step (tid : ℕ) (t u : Thread) : Type 0 where
  create :
      t.constructor ≡ creating
      → u ≡ record t { constructor = waiting; runner = setting_this }
      → Step tid t u
  create_fails : t.constructor ≡ creating → u ≡ record t { constructor = failed } → Step tid t u
  wait :
      (n : ℕ)
      → t.constructor ≡ waiting
      → t.permits ≡ suc n
      → u ≡ record t { constructor = constructed; permits = n }
      → Step tid t u
  run : u ≡ run_step tid t.runner t → Step tid t u

pub data Reach (tid : ℕ) (s : Thread) : Thread → Type 0 where
  start : Reach tid s s
  next : {t u : Thread} → Reach tid s t → Step tid t u → Reach tid s u

-- The new thread is set up: t_thread, m_id, the names, and the callback moved out.
abbrev pub IsReady : ℕ → Thread → Type 0
IsReady tid t =
    (t.runner ≡ calling)
    × (t.this_set ≡ true)
    × (t.id ≡ some tid)
    × (t.local_name ≡ t.name)
    × (t.callback_left ≡ false)

-- What is known where the new thread stands.
abbrev Facts : ℕ → Runner → Thread → Type 0
Facts tid not_started t = t.permits ≡ 0
Facts tid setting_this t = (t.permits ≡ 0) × (t.constructor ≡ waiting)
Facts tid setting_id t = (t.permits ≡ 0) × (t.constructor ≡ waiting) × (t.this_set ≡ true)
Facts tid setting_name t =
    (t.permits ≡ 0) × (t.constructor ≡ waiting) × (t.this_set ≡ true) × (t.id ≡ some tid)
Facts tid swapping t =
    (t.permits ≡ 0)
    × (t.constructor ≡ waiting)
    × (t.this_set ≡ true)
    × (t.id ≡ some tid)
    × (t.local_name ≡ t.name)
Facts tid notifying t =
    (t.permits ≡ 0)
    × (t.constructor ≡ waiting)
    × (t.this_set ≡ true)
    × (t.id ≡ some tid)
    × (t.local_name ≡ t.name)
    × (t.callback_left ≡ false)
Facts tid calling t = IsReady tid t × ((t.constructor ≡ waiting) ⊎ (t.constructor ≡ constructed))

record Inv (tid : ℕ) (t : Thread) : Type 0 where
  facts : Facts tid t.runner t
  unstarted : t.runner ≡ not_started → (t.constructor ≡ creating) ⊎ (t.constructor ≡ failed)

run_step-Inv :
    (tid : ℕ) (r : Runner) (t : Thread)
    → t.runner ≡ r
    → Facts tid r t
    → Inv tid t
    → Inv tid (run_step tid r t)
unfolding run_step
run_step-Inv tid setting_this t e f v = ground arith
run_step-Inv tid setting_id t e f v = ground arith
run_step-Inv tid setting_name t e f v = ground arith
run_step-Inv tid swapping t e f v = ground arith
run_step-Inv tid notifying t e f v = ground arith
run_step-Inv tid _ t e f v = v

create-Inv :
    (tid : ℕ) (r : Runner) (t : Thread)
    → t.runner ≡ r
    → Facts tid r t
    → t.constructor ≡ creating
    → Inv tid (record t { constructor = waiting; runner = setting_this })
create-Inv tid not_started t e f c = ground arith
create-Inv tid _ t e f c = ground arith

create_fails-Inv :
    (tid : ℕ) (r : Runner) (t : Thread)
    → t.runner ≡ r
    → Facts tid r t
    → t.constructor ≡ creating
    → Inv tid (record t { constructor = failed })
create_fails-Inv tid not_started t e f c = ground arith
create_fails-Inv tid _ t e f c = ground arith

wait-Inv :
    (tid n : ℕ) (r : Runner) (t : Thread)
    → t.runner ≡ r
    → Facts tid r t
    → t.constructor ≡ waiting
    → t.permits ≡ suc n
    → Inv tid (record t { constructor = constructed; permits = n })
wait-Inv tid n calling t e f c p = ground arith
wait-Inv tid n _ t e f c p = ground arith

Step-Inv : {tid : ℕ} {t u : Thread} → Step tid t u → Inv tid t → Inv tid u
Step-Inv {tid} {t} (create c e) v =
    subst (Inv tid) (sym e) (create-Inv tid t.runner t refl v.facts c)
Step-Inv {tid} {t} (create_fails c e) v =
    subst (Inv tid) (sym e) (create_fails-Inv tid t.runner t refl v.facts c)
Step-Inv {tid} {t} (wait n c p e) v =
    subst (Inv tid) (sym e) (wait-Inv tid n t.runner t refl v.facts c p)
Step-Inv {tid} {t} (run e) v = subst (Inv tid) (sym e) (run_step-Inv tid t.runner t refl v.facts v)

Reach-Inv : {tid : ℕ} {s t : Thread} → Inv tid s → Reach tid s t → Inv tid t
Reach-Inv v start = v
Reach-Inv v (next r st) = Step-Inv st (Reach-Inv v r)

new_thread-Inv : (tid : ℕ) (name : Text) → Inv tid (new_thread name)
unfolding new_thread
new_thread-Inv tid name = record { facts = refl; unstarted = λ _. inl refl }

Facts-IsReady :
    (tid : ℕ) (r : Runner) (t : Thread)
    → t.runner ≡ r
    → Facts tid r t
    → Inv tid t
    → t.constructor ≡ constructed
    → IsReady tid t
Facts-IsReady tid calling t e f v c = f.0
Facts-IsReady tid not_started t e f v c = ground (arith, v.unstarted e)
Facts-IsReady tid _ t e f v c = ground arith

-- However the two threads interleave, once the constructor of Thread has returned the new thread has
-- set t_thread, its id and its names, has moved the callback out of the object, and is at its call.
pub constructed-IsReady :
    (tid : ℕ) (name : Text) {t : Thread}
    → Reach tid (new_thread name) t
    → t.constructor ≡ constructed
    → IsReady tid t
constructed-IsReady tid name {t} r c =
    let v = Reach-Inv (new_thread-Inv tid name) r in Facts-IsReady tid t.runner t refl v.facts v c
