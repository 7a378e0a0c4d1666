-- ===== src/Queue/LifeCycle.antt =====
-- The life of a job, without its row: what `JobQueue` of manga_manager/infrastructure/job_queue.py
-- promises of the state and the attempts of a job, whatever else it stores.
use manga_manager.Prelude.{ℕ, ◌≡◌, true, ◌≤◌, ◌<◌, ◌-◌, ◌+◌}
use manga_manager.Domain.Jobs.{
  JobState, queued, leased, retry_wait, cancelled, is_active, is_terminal,
}
use manga_manager.Queue.Rows.{WorkJob}

-- Where a job stands: its state, the attempts made and the attempts allowed.
pub record Life : Type 0 where
  pub state : JobState
  pub made : ℕ
  pub allowed : ℕ

-- One step of a life.
pub data Move : Life → Life → Type 0 where
  -- A worker starts an attempt, also on a job whose worker was lost.
  start :
      (l : Life)
      → is_active l.state ≡ true
      → l.made < l.allowed
      → Move l (record l { state = leased; made = l.made + 1 })
  -- The attempt ends the job.
  end :
      (l : Life) (s : JobState)
      → l.state ≡ leased
      → is_terminal s ≡ true
      → Move l (record l { state = s })
  -- The attempt is over, and the job goes back to the queue.
  requeue : (l : Life) → l.state ≡ leased → Move l (record l { state = queued })
  -- The attempt is given back: it does not count.
  give_back :
      (l : Life) → l.state ≡ leased → Move l (record l { state = queued; made = l.made - 1 })
  put_off :
      (l : Life) → l.state ≡ leased → Move l (record l { state = retry_wait; made = l.made - 1 })
  -- A job is postponed, and released early.
  hold : (l : Life) → is_active l.state ≡ true → Move l (record l { state = retry_wait })
  wake : (l : Life) → l.state ≡ retry_wait → Move l (record l { state = queued })
  drop : (l : Life) → is_active l.state ≡ true → Move l (record l { state = cancelled })
  -- More attempts are allowed.
  allow :
      (l : Life) (n : ℕ)
      → is_active l.state ≡ true
      → l.allowed ≤ n
      → Move l (record l { allowed = n })

-- Any number of steps.
pub data Lives (l : Life) : Life → Type 0 where
  here : Lives l l
  further : {m n : Life} → Lives l m → Move m n → Lives l n

pub Lives-trans : {l m n : Life} → Lives l m → Lives m n → Lives l n
Lives-trans p here = p
Lives-trans p (further q s) = further (Lives-trans p q) s

-- A new job.
abbrev pub born : ℕ → Life
born n = record { state = queued; made = 0; allowed = n }

-- The life that a row shows.
abbrev pub life_of : WorkJob → Life
life_of j = record { state = j.status; made = j.attempts; allowed = j.max_attempts }
