-- ===== src/Sync/Spurious.antt =====
-- CondVar.cpp: the loop of `wait` for a task that is woken without a notification.
use flix.Base.{ℕ, ◌+◌, ◌^◌, ◌%◌, ◌≡◌, false, some, []}
use flix.TaskManager
use flix.TaskManager.{TaskManager}
use flix.Sync.{Scene, wait_again, sleep_round}
use flix.Sync.Queue.{Holds}
use flix.Sync.Permits.{up-Raised}

-- A task in CondVar::wait that runs again while its flag is not set, can go to sleep again, and
-- finds nobody waiting for the mutex gives the mutex back a second time: the mutex's count grows by
-- one, modulo 2^32.
pub wait_again-second_unlock :
    (a : ℕ) (c : Scene) (m : TaskManager)
    → (c.cond.waiters.cell a).up ≡ false
    → TaskManager.prepare_me_for_sleep c.tasks ≡ some m
    → Holds c.mutex.queue []
    → (c' : Scene) × (wait_again a c ≡ some (c', false))
      × (c'.mutex.count ≡ (c.mutex.count + 1) % 2 ^ 32)
unfolding wait_again sleep_round
wait_again-second_unlock a c m flag sleeps h =
    let (s, m', e, r) = up-Raised c.mutex m [] h in
    (record c { mutex = s; tasks = m' }, simp (flag, sleeps, e), r.0)
