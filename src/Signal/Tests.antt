-- ===== src/Signal/Tests.antt =====
-- The theorems on processes, threads and signals applied to a small system.
use carrotos.Base.{ℕ, ◌<◌, ◌≡◌, ◌≢◌, refl, false, none, some, [], ◌∷◌, arith}
use carrotos.Thread.{Thread}
use carrotos.Thread.State.{ready}
use carrotos.Thread.Table.{thread_at, put_thread}
use carrotos.Memory.{get_a_free_block}
use carrotos.Paging.{is_paged, increase_paging_of_process_with_virt_addr}
use carrotos.Process.Table.{process_at}
use carrotos.Life.{System}
use carrotos.Life.Create.{register_a_thread}
use carrotos.Base.Slots.{find_strict}
use carrotos.Thread.Table.{each_thread}
use carrotos.Memory.{free_block}
use carrotos.Process.{ended_but_not_cleaned}
use carrotos.Life.End.{
  end_process, free_page_hm, each_process, adopt, count_children_running, wake_parent,
  free_descriptors,
}
use carrotos.Life.Ended.{Ends, own, end_process-Ends}
use carrotos.Life.Leak.{blocks, end_process_leaks}
use carrotos.Signal.{
  is_handling, is_absent, is_signal_masked, handle_signal_process, sys_rt_sigreturn, with_zero,
  takes_signal, send_signal_to_process, send_signal_to_thread, sys_kill,
}
use carrotos.Signal.Handle.{Handles, handle_signal_process-Handles}
use carrotos.Signal.Return.{Revives, sys_rt_sigreturn-handle_signal_process}
use carrotos.Signal.Kill.{IsOver, sys_kill_ends_caller}
use carrotos.Signal.Freeze.{FaultsOrFreezes, send_signal_to_thread_freezes}
use carrotos.Signal.Sample.{limits, thread, process, small, left_by}

abbrev sample : System
sample = small (none ∷ none ∷ [])

end_process-Ends_example :
    (v : System) × (end_process 2 9 sample ≡ some v)
    × Ends sample 2 9 (own 2 (process 2 1 10)).parent_pid v
end_process-Ends_example = end_process-Ends 2 9 sample refl (omega arith)

end_process_leaks_example :
    (v : System) × (end_process 2 9 sample ≡ some v)
    × ((q : ℕ) → q < blocks → v.paging.memory_map q ≡ sample.paging.memory_map q)
end_process_leaks_example = end_process_leaks 2 9 sample refl (omega arith) (omega arith)

handler_registered :
    register_a_thread limits 1 2 0 sample
    ≡ some (3, left_by sample (register_a_thread limits 1 2 0 sample))
unfolding register_a_thread is_paged increase_paging_of_process_with_virt_addr get_a_free_block
handler_registered = refl

not_handling : is_handling (process 2 1 10).state ≡ false
unfolding is_handling
not_handling = refl

handle_signal_process-Handles_example :
    (v : System) × (handle_signal_process limits 1 2 sample ≡ some (3, v))
    × Handles sample 2 0 3 (process 2 1 10) v
handle_signal_process-Handles_example =
    handle_signal_process-Handles limits 1 2 3 sample
      (left_by sample (register_a_thread limits 1 2 0 sample)) refl (omega arith) not_handling
      (omega arith) (omega arith) handler_registered

sys_rt_sigreturn-handle_signal_process_example :
    (v : System) × (x : System) × (handle_signal_process limits 1 2 sample ≡ some (3, v))
    × (sys_rt_sigreturn 2 3 v ≡ some (0, x))
    × Revives sample 2 3 x
sys_rt_sigreturn-handle_signal_process_example =
    sys_rt_sigreturn-handle_signal_process limits 1 2 3 sample
      (left_by sample (register_a_thread limits 1 2 0 sample)) refl (omega arith) not_handling
      (omega arith) (omega arith) (omega arith) (omega arith) handler_registered

abbrev killed : System
killed = left_by sample (with_zero (send_signal_to_process limits 1 2 9 sample))

target_exists : is_absent (process 2 1 10).state ≡ false
unfolding is_absent
target_exists = refl

kill_sent : send_signal_to_process limits 1 2 9 sample ≡ some killed
unfolding send_signal_to_process handle_signal_process end_process with_zero find_strict
    takes_signal is_handling free_page_hm each_process adopt count_children_running wake_parent
    free_descriptors each_thread free_block
kill_sent = refl

caller_there : process_at killed.processes 1 ≡ some (process 1 1 0)
unfolding send_signal_to_process handle_signal_process end_process with_zero find_strict
    takes_signal is_handling free_page_hm each_process adopt count_children_running wake_parent
    free_descriptors each_thread free_block
caller_there = refl

sys_kill_ends_caller_example :
    (v : System) × (sys_kill limits 1 1 2 9 sample ≡ some (0, v))
    × (process_at v.processes 1 ≡ some (record (process 1 1 0) { state = ended_but_not_cleaned }))
    × ((q : ℕ) → q ≢ 1 → process_at v.processes q ≡ process_at killed.processes q)
    × ((i : ℕ) (t : Thread)
        → thread_at killed.threads i ≡ some t
        → t.pid ≡ 1
        → (u : Thread) × (thread_at v.threads i ≡ some u) × IsOver u)
    × ((i : ℕ) (t : Thread)
        → thread_at killed.threads i ≡ some t
        → t.pid ≢ 1
        → thread_at v.threads i ≡ some t)
sys_kill_ends_caller_example =
    sys_kill_ends_caller limits 1 1 2 sample killed refl target_exists kill_sent caller_there

-- One free slot, which the handler takes.
abbrev tight : System
tight = small (none ∷ [])

abbrev signalled : System
signalled = record tight {
  threads = put_thread tight.threads 2 (record (thread 2 2 ready) { signal = 10 });
}

not_masked : is_signal_masked 10 0 ≡ false
unfolding is_signal_masked
not_masked = refl

tight_registered :
    register_a_thread limits 1 2 0 signalled
    ≡ some (3, left_by sample (register_a_thread limits 1 2 0 signalled))
unfolding register_a_thread is_paged increase_paging_of_process_with_virt_addr get_a_free_block
tight_registered = refl

send_signal_to_thread_freezes_example :
    FaultsOrFreezes 2 3 0
      (left_by sample (register_a_thread limits 1 2 0 signalled)).threads
      (send_signal_to_thread limits 1 2 2 10 tight)
unfolding register_a_thread is_paged increase_paging_of_process_with_virt_addr get_a_free_block
send_signal_to_thread_freezes_example =
    send_signal_to_thread_freezes limits 1 2 10 3 tight
      (left_by sample (register_a_thread limits 1 2 0 signalled)) refl (omega arith) (omega arith)
      not_masked refl tight_registered refl refl refl
