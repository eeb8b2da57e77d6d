-- ===== src/Scheduler/Locals.antt =====
-- The thread-local pointers t_scheduler and t_fiber of components/scheduler.cpp, as the thread that
-- makes a scheduler sees them: t_fiber is `main` of the thread's fibers.
use web_framework.Base.{
  ℕ, ◌+◌, ◌≡◌, ◌≢◌, refl, ap, Bool, true, false, not, ◌∷◌, Option, none, some, get_elem?, set, [],
  if◌then◌else◌, ◌==◌, is_some, arith, get_elem?-set_known, get_elem?-append_length, Bool-cases,
  ◌-◌, ◌%◌, ◌^◌, inl, inr,
}
use web_framework.Fiber.{
  Fiber, Thread, Result, ok, assertion_failed, assert, ◌>>=◌, ◌>>◌, is_idle, points_to, new_fiber,
  destroy, get_this,
}
use web_framework.Scheduler.{Scheduler, new_scheduler, destroy_scheduler}

pub record Locals : Type 0 where
  pub scheduler : Option ℕ
  pub thread : Thread

abbrev or_assertion {ℓ} : {A : Type ℓ} → Option A → Result A
or_assertion none = assertion_failed
or_assertion (some a) = ok a

-- Scheduler::Scheduler; `run` is the callback that it binds, `configured` the stack size that the
-- configuration gives, and `this` the number of the scheduler.
unfoldable pub construct : ℕ → ℕ → Locals → ℕ → ℕ → Bool → ℕ → Result (Locals × Scheduler)
unfolding get_this new_fiber new_scheduler
construct configured run l this thread_num true tid = do
  assert (not (thread_num == 0))
  let t = (get_this l.thread).0
  assert (not (is_some l.scheduler))
  let (t', root) = new_fiber configured t (some run) 0 true
  s ← or_assertion (new_scheduler thread_num true tid root)
  ok (record { scheduler = some this; thread = record t' { main = some root } }, s)
construct configured run l this thread_num false tid = do
  s ← or_assertion (new_scheduler thread_num false tid 0)
  ok (l, s)

-- The release of m_rootFiber, which no one else holds.
abbrev release : Locals → Option ℕ → Result Locals
release l none = ok l
release l (some root) = do t ← destroy l.thread root; ok (record l { thread = t })

-- Scheduler::~Scheduler with the destructors of the members.
unfoldable pub destruct : Locals → ℕ → Scheduler → Result Locals
unfolding destroy_scheduler destroy
destruct l this s = do
  reset ← or_assertion (destroy_scheduler (points_to l.scheduler this) s)
  release (if reset then record l { scheduler = none } else l) s.root_fiber

-- The start of Scheduler::run: setThis, and t_fiber on a thread that is not m_rootThread.
unfoldable pub begin_run : Locals → ℕ → ℕ → Scheduler → Locals
unfolding get_this
begin_run l this tid s = by_root (points_to s.root_thread tid)
  where
    by_root : Bool → Locals
    by_root true = record l { scheduler = some this }
    by_root false =
        let (t, i) = get_this l.thread in
        record { scheduler = some this; thread = record t { main = some i } }

-- Scheduler::GetThis and Scheduler::GetMainFiber
unfoldable pub get_scheduler : Locals → Option ℕ
get_scheduler l = l.scheduler

unfoldable pub get_main_fiber : Locals → Option ℕ
get_main_fiber l = l.thread.main

abbrev freed : Locals → ℕ → ℕ → Fiber → Locals
freed l this root f = record {
  scheduler = if points_to l.scheduler this then none else l.scheduler;
  thread = record l.thread {
    fibers = set l.thread.fibers root (record f { stack = false });
    fiber_count = (l.thread.fiber_count + 2 ^ 64 - 1) % 2 ^ 64;
  };
}

destroy-ok :
    (t : Thread) (root : ℕ) (f : Fiber)
    → get_elem? t.fibers root ≡ some f
    → f.stack ≡ true
    → is_idle f.state ≡ true
    → destroy t root
      ≡ ok (record t {
        fibers = set t.fibers root (record f { stack = false });
        fiber_count = (t.fiber_count + 2 ^ 64 - 1) % 2 ^ 64;
      })
unfolding destroy
destroy-ok t root f at stack idle = rw at (rw stack (rw idle refl))

destruct-freed :
    (l : Locals) (this root : ℕ) (s : Scheduler) (f : Fiber)
    → s.stopping ≡ true
    → s.root_fiber ≡ some root
    → get_elem? l.thread.fibers root ≡ some f
    → f.stack ≡ true
    → is_idle f.state ≡ true
    → destruct l this s ≡ ok (freed l this root f)
unfolding destruct destroy_scheduler
destruct-freed l this root s f stopped has at stack idle =
    let done = destroy-ok l.thread root f at stack idle in
    elim (Bool-cases (points_to l.scheduler this)) [
      | inl mine ↦
          rw (stopped, mine, has)
            (ap (λ t. t >>= λ u. ok (record { scheduler = none; thread = u })) done)
      | inr other ↦
          rw (stopped, other, has) (ap (λ t. t >>= λ u. ok (record l { thread = u })) done)
    ]

-- The destructor of a stopped scheduler whose root fiber does not run frees that fiber, and
-- leaves t_fiber pointing to it: GetMainFiber, which each later swapIn and swapOut on that
-- thread calls, gives a fiber that is gone.
pub get_main_fiber-destruct :
    (l : Locals) (this root : ℕ) (s : Scheduler) (f : Fiber)
    → s.stopping ≡ true
    → s.root_fiber ≡ some root
    → get_main_fiber l ≡ some root
    → get_elem? l.thread.fibers root ≡ some f
    → f.stack ≡ true
    → is_idle f.state ≡ true
    → (l' : Locals) × (destruct l this s ≡ ok l')
      × (get_main_fiber l' ≡ some root)
      × (get_elem? l'.thread.fibers root ≡ some (record f { stack = false }))
unfolding get_main_fiber
get_main_fiber-destruct l this root s f stopped has main at stack idle = (
  freed l this root f,
  destruct-freed l this root s f stopped has at stack idle,
  main,
  get_elem?-set_known l.thread.fibers root (record f { stack = false }) at,
)

-- What new_scheduler makes for the thread `tid`.
abbrev pub made_for : ℕ → ℕ → ℕ → Scheduler
made_for n tid root = record {
  fibers = [];
  threads = 0;
  thread_ids = tid ∷ [];
  thread_count = n - 1;
  active = 0;
  idle = 0;
  stopping = true;
  auto_stop = false;
  root_thread = some tid;
  root_fiber = some root;
}

refuses :
    (k : ℕ) (next : Result (Locals × Scheduler))
    → next ≡ assertion_failed
    → assert (not (k == 0)) >> next ≡ assertion_failed
refuses k next fails = elim (Bool-cases (k == 0)) [
  | inl none_asked ↦ rw none_asked refl
  | inr some_asked ↦ rw some_asked fails
]

-- A thread has one scheduler that uses it: on a thread without a scheduler the constructor
-- returns, given at least one thread; then the constructor of a second fails its assertion,
-- whatever its number of threads; once the first is destroyed, not having started, there is
-- none.
pub one_scheduler :
    (configured run a b n tid : ℕ) (l : Locals)
    → n ≢ 0
    → l.scheduler ≡ none
    → (l' : Locals) × (s : Scheduler) × (construct configured run l a n true tid ≡ ok (l', s))
      × ((k : ℕ) → construct configured run l' b k true tid ≡ assertion_failed)
      × ((l'' : Locals) × (destruct l' a s ≡ ok l'') × (get_scheduler l'' ≡ none))
unfolding construct new_scheduler get_scheduler new_fiber
one_scheduler configured run a b n tid l some_threads free =
    let positive : (n == 0) ≡ false = ground arith in
    let t = (get_this l.thread).0 in
    let (t', root) = new_fiber configured t (some run) 0 true in
    (
      record { scheduler = some a; thread = record t' { main = some root } },
      made_for n tid root,
      rw (positive, free) refl,
      λ k. refuses k _ refl,
      (
        _,
        destruct-freed _ a root _ _ refl refl (get_elem?-append_length t.fibers _ []) refl refl,
        ground arith,
      ),
    )
