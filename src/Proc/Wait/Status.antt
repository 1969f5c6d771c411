-- ===== src/Proc/Wait/Status.antt =====
-- kernel/proc/wait.c: the status word and the macros that read it.
use grace_os.Prelude.{◌%◌, ◌<◌, ◌≡◌, true, false, arith}
use grace_os.Proc.Kernel.{Process}
use grace_os.Proc.Wait.{wexitstatus, wtermsig, wifexited, wifsignaled, status_word}

-- The status word of a process that exited tells its exit code modulo 256, and that of a process that
-- was ended by a signal from 1 to 127 tells the signal.
pub status_word_lem :
    (r : Process)
    → let s = status_word r in
      (r.exit_signal ≡ 0 → (wifexited s ≡ true) × (wexitstatus s ≡ r.exit_code % 256))
      × (0 < r.exit_signal
          → r.exit_signal < 128
          → (wifsignaled s ≡ true) × (wifexited s ≡ false) × (wtermsig s ≡ r.exit_signal))
unfolding status_word
status_word_lem r = (λ e. rw e (ground arith, omega arith), λ lo hi. ground (arith, lo, hi))

-- An end by a signal whose number is a multiple of 128 reads as an exit with code 0.
pub status_word-lost_signal :
    (r : Process)
    → 0 < r.exit_signal
    → r.exit_signal % 128 ≡ 0
    → (wifexited (status_word r) ≡ true) × (wexitstatus (status_word r) ≡ 0)
unfolding status_word
status_word-lost_signal r pos e = ground (arith, pos, e)
