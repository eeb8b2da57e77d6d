-- ===== src/Thread/Join.antt =====
-- Thread::join and Thread::~Thread (components/thread.cpp): what becomes of the handle that
-- pthread_create gave. The results of pthread_join are the platform's.
use web_framework.Base.{
  ℕ, suc, ◌+◌, ◌≡◌, refl, sym, ap, ◌∙◌, Bool, true, false, List, [], ◌∷◌, ◌++◌, Option, none, some,
  if◌then◌else◌, ◌==◌, arith, Bool-cases, inl, inr, append_assoc,
}

-- A call on the platform: pthread_join with its result, or pthread_detach.
pub data Call : Type 0 where
  join_call : ℕ → ℕ → Call
  detach_call : ℕ → Call

-- m_thread, where 0 is `none`, and the calls made so far.
pub record Handle : Type 0 where
  pub thread : Option ℕ
  pub calls : List Call

-- Thread::join; `ret` is the result of pthread_join. The Boolean is false where it throws.
unfoldable pub join : ℕ → Handle → Handle × Bool
join ret h = by_thread h.thread
  where
    by_thread : Option ℕ → Handle × Bool
    by_thread none = (h, true)
    by_thread (some n) =
        let calls = h.calls ++ join_call n ret ∷ [] in
        if ret == 0
        then (record { thread = none; calls = calls }, true)
        else (record { thread = h.thread; calls = calls }, false)

-- Thread::~Thread
unfoldable pub destroy_thread : Handle → Handle
destroy_thread h = by_thread h.thread
  where
    by_thread : Option ℕ → Handle
    by_thread none = h
    by_thread (some n) = record h { calls = h.calls ++ detach_call n ∷ [] }

-- join, called once for each result.
unfoldable pub joins : List ℕ → Handle → Handle
unfolding join
joins [] h = h
joins (ret ∷ rets) h = joins rets (join ret h).0

-- The calls up to the first join that succeeds; with none, the destructor detaches the thread.
abbrev pub expected : ℕ → List ℕ → List Call
expected n [] = detach_call n ∷ []
expected n (ret ∷ rets) = if ret == 0 then join_call n 0 ∷ [] else join_call n ret ∷ expected n rets

joins-none :
    (rets : List ℕ) (calls : List Call)
    → joins rets (record { thread = none; calls = calls }) ≡ record { thread = none; calls = calls }
unfolding joins join
joins-none [] calls = refl
joins-none (ret ∷ rets) calls = joins-none rets calls

module _ (n ret : ℕ) (calls : List Call) where
  join_succeeds :
      (ret == 0) ≡ true
      → (join ret (record { thread = some n; calls = calls })).0
        ≡ record { thread = none; calls = calls ++ join_call n 0 ∷ [] }
  unfolding join
  join_succeeds h = let e : ret ≡ 0 = ground arith in rw e refl

  join_fails :
      (ret == 0) ≡ false
      → (join ret (record { thread = some n; calls = calls })).0
        ≡ record { thread = some n; calls = calls ++ join_call n ret ∷ [] }
  unfolding join
  join_fails h = rw h refl

calls-joins :
    (n : ℕ) (rets : List ℕ) (calls : List Call)
    → (destroy_thread (joins rets (record { thread = some n; calls = calls }))).calls
      ≡ calls ++ expected n rets
unfolding joins destroy_thread
calls-joins n [] calls = refl
calls-joins n (ret ∷ rets) calls =
    let ends : Handle → List Call = λ h. (destroy_thread (joins rets h)).calls in
    elim (Bool-cases (ret == 0)) [
      | inl joined ↦
          ap ends (join_succeeds n ret calls joined)
          ∙ ap (λ h. (destroy_thread h).calls) (joins-none rets (calls ++ join_call n 0 ∷ []))
          ∙ ap (λ b. calls ++ (if b then join_call n 0 ∷ [] else join_call n ret ∷ expected n rets))
              (sym joined)
      | inr failed ↦
          ap ends (join_fails n ret calls failed)
          ∙ calls-joins n rets (calls ++ join_call n ret ∷ [])
          ∙ append_assoc calls (join_call n ret ∷ []) (expected n rets)
          ∙ ap (λ b. calls ++ (if b then join_call n 0 ∷ [] else join_call n ret ∷ expected n rets))
              (sym failed)
    ]

-- 1 for a call that gives the handle back.
abbrev pub releases : List Call → ℕ
releases [] = 0
releases (join_call n ret ∷ cs) = (if ret == 0 then 1 else 0) + releases cs
releases (detach_call n ∷ cs) = suc (releases cs)

releases-expected : (n : ℕ) (rets : List ℕ) → releases (expected n rets) ≡ 1
releases-expected n [] = refl
releases-expected n (ret ∷ rets) = ground (arith, releases-expected n rets)

-- However often a thread is joined before it is destroyed, and whatever pthread_join answers, its
-- handle is given back exactly once: by the first join that succeeds, after which pthread_join is not
-- called again and the destructor does nothing, and else by pthread_detach in the destructor.
pub destroy_thread-joins :
    (n : ℕ) (rets : List ℕ)
    → let calls = (destroy_thread (joins rets (record { thread = some n; calls = [] }))).calls in
      (calls ≡ expected n rets) × (releases calls ≡ 1)
destroy_thread-joins n rets =
    let e = calls-joins n rets [] in (e, ap releases e ∙ releases-expected n rets)
