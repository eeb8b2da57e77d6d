-- ===== src/Locking.antt =====
-- The locks of the framework, and the order in which its calls take them: the Spinlock of each logger
-- and appender and of the manager (components/log.h), the RWMutex of each variable and of the
-- registry (components/config.h), and the Mutex of a scheduler (components/scheduler.h).
pub mod Logs
pub mod Settings
pub mod Calls
mod Tests
use web_framework.Base.{
  ℕ, zero, suc, ◌≡◌, ◌≤◌, ◌<◌, refl, Bool, true, false, ◌==◌, ◌&&◌, if◌then◌else◌, arith, sym, ◌∙◌,
}
use web_framework.Thread.Locks.{Mode, exclusive}
use web_framework.Thread.Locks.Order.{LockOrder, Code, within, IsAbove}

pub data Lock : Type 0 where
  registry manager scheduler : Lock
  variable logger appender : ℕ → Lock

abbrev pub kind : Lock → ℕ
kind registry = 0
kind (variable i) = 1
kind scheduler = 2
kind manager = 3
kind (logger i) = 4
kind (appender i) = 5

abbrev pub index : Lock → ℕ
index (variable i) = i
index (logger i) = i
index (appender i) = i
index _ = 0

abbrev pub same : Lock → Lock → Bool
same k l = (kind k == kind l) && (index k == index l)

-- The root logger, here the one with number `root`, comes after the loggers that hand events to it.
abbrev pub rank : ℕ → Lock → ℕ
rank root registry = 0
rank root (variable i) = 1
rank root scheduler = 2
rank root manager = 3
rank root (logger i) = if i == root then 5 else 4
rank root (appender i) = 6

pub same_self : (l : Lock) → same l l ≡ true
same_self l = ground arith

pub same_comm : (k l : Lock) → same k l ≡ same l k
same_comm k l = ground arith

abbrev rank_of : ℕ → ℕ → ℕ → ℕ
rank_of root k i = if k == 4 then (if i == root then 5 else 4) else (if k == 5 then 6 else k)

rank-rank_of : (root : ℕ) (l : Lock) → rank root l ≡ rank_of root (kind l) (index l)
rank-rank_of root registry = refl
rank-rank_of root manager = refl
rank-rank_of root scheduler = refl
rank-rank_of root (variable i) = refl
rank-rank_of root (logger i) = refl
rank-rank_of root (appender i) = refl

pub same_rank : (root : ℕ) (k l : Lock) → same k l ≡ true → rank root k ≡ rank root l
same_rank root k l one =
    let kinds : kind k ≡ kind l = ground arith in
    let indices : index k ≡ index l = ground arith in
    rank-rank_of root k ∙ rw (kinds, indices) (sym (rank-rank_of root l))

pub rank_lt : (root : ℕ) (l : Lock) → rank root l < 7
rank_lt root registry = omega arith
rank_lt root manager = omega arith
rank_lt root scheduler = omega arith
rank_lt root (variable i) = omega arith
rank_lt root (logger i) = ground arith
rank_lt root (appender i) = omega arith

abbrev pub framework : ℕ → LockOrder Lock
framework root = record {
  same = same;
  rank = rank root;
  top = 7;
  same_self = same_self;
  same_comm = same_comm;
  same_rank = same_rank root;
  rank_lt = rank_lt root;
}

-- The scope of a guard of a Spinlock or a Mutex.
abbrev pub guarded : Lock → Code Lock → Code Lock
guarded l c = within l exclusive c
