-- ===== src/Proc/Pipe/Tests.antt =====
-- Tests of the pipes.
use grace_os.Prelude.{◌≡◌, refl, List, [], ◌∷◌}
use grace_os.Prelude.Int.{pos, negsuc}
use grace_os.Proc.Pipe.{
  opened, zeroed, pipe_init, read_bytes, write_bytes, read_pipe, write_pipe, close_read_end,
  close_write_end,
}
use grace_os.Proc.Pipe.Ring.{opened-IsValid}
use grace_os.Proc.Pipe.Channel.{
  Op, read, write, close_read, close_write, call, call_all, serve_all, view, call_all_refines,
}
use grace_os.Proc.Pipe.Slots.{
  allocate, closes_read, step, AllSound, step-AllSound, pipe_init-AllSound,
}

abbrev script : List Op
script = write (7 ∷ 8 ∷ []) ∷ read 1 ∷ close_write ∷ read 5 ∷ read 5 ∷ close_read ∷ read 1 ∷ []

script_run :
    call_all opened script
    ≡ (pos 2, [])
      ∷ (pos 1, 7 ∷ [])
      ∷ (pos 0, [])
      ∷ (pos 1, 8 ∷ [])
      ∷ (pos 0, [])
      ∷ (pos 0, [])
      ∷ (negsuc 0, [])
      ∷ []
unfolding call_all call read_pipe write_pipe read_bytes write_bytes close_read_end close_write_end
    zeroed
script_run = refl

call_all_refines_example : call_all opened script ≡ serve_all (view opened) script
call_all_refines_example = call_all_refines script opened opened-IsValid

step-AllSound_example : AllSound (step (step pipe_init allocate) (closes_read (pos 0)))
step-AllSound_example =
    step-AllSound (step pipe_init allocate) (closes_read (pos 0))
      (step-AllSound pipe_init allocate pipe_init-AllSound)
